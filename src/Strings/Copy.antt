-- ===== src/Strings/Copy.antt =====
-- The block functions: memcpy, memset and memmove as a description of the memory they leave.
use native.Mathlib.Numerals.{unary_clauses}
use nekonix.Base.{
  ℕ, zero, suc, ◌+◌, ◌≤◌, ◌<◌, ◌≡◌, ◌∙◌, refl, ◌⊎◌, inl, inr, arith, ltb, ltb→lt, tests,
  if◌then◌else◌, Bool-cases, leb, ◌&&◌, u8,
}
use nekonix.Pmm.{store}
use nekonix.Strings.{Bytes, memcpy, memset, memmove, memmove_down}

-- `m'` is `m` with the `n` bytes at `s`, as they were, at `d`.
pub record IsCopied (n d s : ℕ) (m m' : Bytes) : Type 0 where
  pub inside : (i : ℕ) → i < n → m' (d + i) ≡ m (s + i)
  pub outside : (a : ℕ) → (a < d) ⊎ (d + n ≤ a) → m' a ≡ m a

pub store_self : (m : Bytes) (a v : ℕ) → store m a v a ≡ v
unfolding store
store_self m a v = ground arith

pub store_ne : (m : Bytes) (a v : ℕ) {b : ℕ} → (a < b) ⊎ (b < a) → store m a v b ≡ m b
unfolding store
store_ne m a v h = ground arith

-- The first byte of a range, and the rest of it shifted by one.
pub cons_inside :
    (n d s : ℕ) (m m' : Bytes)
    → m' d ≡ m s
    → ((i : ℕ) → i < n → m' (d + 1 + i) ≡ m (s + 1 + i))
    → (i : ℕ) → i < suc n
    → m' (d + i) ≡ m (s + i)
cons_inside n d s m m' first rest zero lt = simp unary_clauses first
cons_inside n d s m m' first rest (suc i) lt = grind (arith, rest i (omega (arith, lt)))

-- Upwards, a byte that is read has not been written when `d` does not lie inside the source.
pub memcpy-IsCopied :
    (n d s : ℕ) (m : Bytes) → (d ≤ s) ⊎ (s + n ≤ d) → IsCopied n d s m (memcpy n d s m)
unfolding memcpy
memcpy-IsCopied zero d s m h = record { inside = λ i lt. elim lt [ ]; outside = λ a w. refl }
memcpy-IsCopied (suc n) d s m h =
    let r = memcpy-IsCopied n (d + 1) (s + 1) (store m d (m s)) (omega (arith, h)) in
    record {
      inside =
          cons_inside n d s m (memcpy (suc n) d s m)
            (r.outside d (omega arith) ∙ store_self m d (m s))
            (λ i lt. r.inside i lt ∙ store_ne m d (m s) (omega (arith, h, lt)));
      outside = λ a w. r.outside a (omega (arith, w)) ∙ store_ne m d (m s) (omega (arith, w));
    }

last : {n : ℕ} (i : ℕ) → i < suc n → (i < n) ⊎ (i ≡ n)
last i lt = omega (arith, lt)

-- Downwards, the same when the source does not begin behind `d`.
memmove_down-IsCopied : (n d s : ℕ) (m : Bytes) → s ≤ d → IsCopied n d s m (memmove_down n d s m)
unfolding memmove_down
memmove_down-IsCopied zero d s m h = record { inside = λ i lt. elim lt [ ]; outside = λ a w. refl }
memmove_down-IsCopied (suc n) d s m h =
    let r = memmove_down-IsCopied n d s (store m (d + n) (m (s + n))) h in
    record {
      inside = λ i lt. elim (last i lt) [
        | inl below ↦ r.inside i below ∙ store_ne m _ _ (omega (arith, h, below))
        | inr e ↦ rw e (r.outside (d + n) (inr (omega arith)) ∙ store_self m (d + n) (m (s + n)))
      ];
      outside = λ a w. r.outside a (omega (arith, w)) ∙ store_ne m _ _ (omega (arith, w));
    }

-- memmove copies the n bytes at s to d and changes no other byte, whichever way the two ranges
-- overlap.
pub memmove-IsCopied : (n d s : ℕ) (m : Bytes) → IsCopied n d s m (memmove n d s m)
unfolding memmove
memmove-IsCopied n d s m = elim (Bool-cases (ltb d s)) [
  | inl lt ↦ rw lt (memcpy-IsCopied n d s m (inl (omega (arith, ltb→lt d s lt))))
  | inr ge ↦ rw ge (memmove_down-IsCopied n d s m (omega (tests, ge)))
]

-- memset writes the low byte of c to the n bytes at p and changes no other byte.
pub memset_lem :
    (n p c : ℕ) (m : Bytes) (a : ℕ)
    → memset n p c m a ≡ (if leb p a && ltb a (p + n) then u8 c else m a)
unfolding memset store
memset_lem zero p c m a = ground arith
memset_lem (suc n) p c m a = ground (arith, memset_lem n (p + 1) c (store m p (u8 c)) a)
