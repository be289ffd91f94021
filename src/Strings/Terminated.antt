-- ===== src/Strings/Terminated.antt =====
-- The functions that walk along a string up to its terminator: strlen, strcpy, strncpy, strcat, strcmp.
use nekonix.Base.{
  ℕ, zero, suc, ◌+◌, ◌-◌, ◌≤◌, ◌<◌, ◌≡◌, ◌≢◌, ◌∙◌, ap, ap₂, refl, sym, ◌⊎◌, inl, inr, ◌↔◌, false,
  some, arith, ◌==◌, Bool-cases, ==_iff,
}
use nekonix.Pmm.{store}
use nekonix.Strings.{
  Bytes, Sign, equal, byte_diff, memcpy, memset, strcpy, strncpy, string_end, strlen, strcat,
  strcmp,
}
use nekonix.Strings.Copy.{cons_inside, store_ne, memset_lem, IsCopied, memcpy-IsCopied}

-- A string of `k` bytes and its terminator at `p`.
abbrev pub IsString : Bytes → ℕ → ℕ → Type 0
IsString m p zero = m p ≡ 0
IsString m p (suc k) = (m p ≢ 0) × IsString m (p + 1) k

-- The walk goes on from a byte that is not the terminator.
ne_zero-test : (a : ℕ) → a ≢ 0 → (a == 0) ≡ false
ne_zero-test a h = ground (arith, h)

IsString-store :
    (m : Bytes) (a v p k : ℕ) → (a < p) ⊎ (p + k < a) → IsString m p k → IsString (store m a v) p k
IsString-store m a v p zero h str = store_ne m a v (omega (arith, h)) ∙ str
IsString-store m a v p (suc k) h (ne, str) = (
  λ e. ne (sym (store_ne m a v (omega (arith, h))) ∙ e),
  IsString-store m a v (p + 1) k (omega (arith, h)) str,
)

pub string_end_lem :
    (fuel p k : ℕ) (m : Bytes) → IsString m p k → k < fuel → string_end fuel p m ≡ some (p + k)
unfolding string_end
string_end_lem zero p k m str h = absurd (omega (arith, h))
string_end_lem (suc fuel) p zero m str h = rw str (ap some (omega arith))
string_end_lem (suc fuel) p (suc k) m (ne, str) h =
    rw (ne_zero-test (m p) ne)
      (string_end_lem fuel (p + 1) k m str (omega arith) ∙ ap some (omega arith))

-- strlen of a string of k bytes returns k, with fuel for k + 1 bytes.
pub strlen_lem : (fuel s k : ℕ) (m : Bytes) → IsString m s k → k < fuel → strlen fuel s m ≡ some k
unfolding strlen
strlen_lem fuel s k m str h = rw (strlen, string_end_lem fuel s k m str h) (ap some (omega arith))

strcpy_lem :
    (fuel d s k : ℕ) (m : Bytes)
    → IsString m s k
    → (d ≤ s) ⊎ (s + k < d)
    → k < fuel
    → strcpy fuel d s m ≡ some (memcpy (suc k) d s m)
unfolding strcpy memcpy
strcpy_lem zero d s k m str apart h = absurd (omega (arith, h))
strcpy_lem (suc fuel) d s zero m str apart h = rw str refl
strcpy_lem (suc fuel) d s (suc k) m (ne, str) apart h = rw (ne_zero-test (m s) ne) (
    strcpy_lem fuel (d + 1) (s + 1) k (store m d (m s))
      (IsString-store m d (m s) (s + 1) k (omega (arith, apart)) str) (omega (arith, apart))
      (omega (arith, h)))

-- strcpy of a string of k bytes, with fuel for k + 1, copies it with its terminator and changes no
-- other byte, when the destination does not lie inside the string.
strcpy-IsCopied :
    (fuel d s k : ℕ) (m : Bytes)
    → IsString m s k
    → (d ≤ s) ⊎ (s + k < d)
    → k < fuel
    → (m' : Bytes) × (strcpy fuel d s m ≡ some m') × IsCopied (suc k) d s m m'
strcpy-IsCopied fuel d s k m str apart h = (
  memcpy (suc k) d s m,
  strcpy_lem fuel d s k m str apart h,
  memcpy-IsCopied (suc k) d s m (omega (arith, apart)),
)

-- strcat of a string of l bytes to one of k puts it, with its terminator, in the place of the first
-- one's terminator and changes no other byte, when that place does not lie inside the second.
pub strcat-IsCopied :
    (fuel d k s l : ℕ) (m : Bytes)
    → IsString m d k
    → IsString m s l
    → (d + k ≤ s) ⊎ (s + l < d + k)
    → k < fuel
    → l < fuel
    → (m' : Bytes) × (strcat fuel d s m ≡ some m') × IsCopied (suc l) (d + k) s m m'
unfolding strcat
strcat-IsCopied fuel d k s l m dst src apart hk hl =
    let (m', e, c) = strcpy-IsCopied fuel (d + k) s l m src apart hl in
    (m', rw (strcat, string_end_lem fuel d k m dst hk) e, c)

strncpy_short :
    (n d s k : ℕ) (m : Bytes)
    → IsString m s k
    → (d ≤ s) ⊎ (s + k < d)
    → k < n
    → strncpy n d s m ≡ memset (n - k) (d + suc k) 0 (memcpy (suc k) d s m)
unfolding strncpy memcpy
strncpy_short zero d s k m str apart h = absurd (omega (arith, h))
strncpy_short (suc n) d s zero m str apart h =
    rw str (ap (λ x. memset x (d + 1) 0 (store m d 0)) (omega arith))
strncpy_short (suc n) d s (suc k) m (ne, str) apart h = rw (ne_zero-test (m s) ne) (
    strncpy_short n (d + 1) (s + 1) k (store m d (m s))
      (IsString-store m d (m s) (s + 1) k (omega (arith, apart)) str) (omega (arith, apart))
      (omega (arith, h))
    ∙ ap₂ (λ x y. memset x y 0 (memcpy (suc (suc k)) d s m)) (omega arith) (omega arith))

-- strncpy of a string shorter than n writes n + 1 bytes: the byte behind the n that the caller
-- gives becomes 0, and so do all bytes from the terminator on.
pub strncpy_overflows :
    (n d s k : ℕ) (m : Bytes)
    → IsString m s k
    → (d ≤ s) ⊎ (s + k < d)
    → k < n
    → (i : ℕ) → k < i
    → i ≤ n
    → strncpy n d s m (d + i) ≡ 0
strncpy_overflows n d s k m str apart h i lo hi =
    rw
      (
        strncpy_short n d s k m str apart h,
        memset_lem (n - k) (d + suc k) 0 (memcpy (suc k) d s m) (d + i),
      )
      (ground (arith, h, lo, hi))

byte_diff-equal : (a b : ℕ) → byte_diff a b ≡ equal → a ≡ b
unfolding byte_diff
byte_diff-equal a b h = ground (arith, h)

byte_diff_self : (a b : ℕ) → a ≡ b → byte_diff a b ≡ equal
unfolding byte_diff
byte_diff_self a b h = ground (arith, h)

tail_inside :
    (k p q : ℕ) (m : Bytes)
    → ((i : ℕ) → i < suc k → m (p + i) ≡ m (q + i))
    → (i : ℕ) → i < k
    → m (p + 1 + i) ≡ m (q + 1 + i)
tail_inside k p q m f i h = grind (arith, f (suc i) (omega (arith, h)))

first_inside : (k p q : ℕ) (m : Bytes) → ((i : ℕ) → i < suc k → m (p + i) ≡ m (q + i)) → m p ≡ m q
first_inside k p q m f = grind (arith, f 0 (omega arith))

-- strcmp, with fuel for a first string of k bytes, returns, and it returns 0 exactly when the k + 1
-- bytes of the two are the same.
strcmp-equal :
    (fuel p q k : ℕ) (m : Bytes)
    → IsString m p k
    → k < fuel
    → (answer : Sign) × (strcmp fuel p q m ≡ some answer)
      × ((answer ≡ equal) ↔ ((i : ℕ) → i < suc k → m (p + i) ≡ m (q + i)))
unfolding strcmp
strcmp-equal zero p q k m str h = absurd (omega (arith, h))
strcmp-equal (suc fuel) p q zero m str h = (
  byte_diff (m p) (m q),
  ground (arith, str),
  (
    λ e. cons_inside 0 p q m m (byte_diff-equal (m p) (m q) e) (λ i lt. elim lt [ ]),
    λ f. byte_diff_self (m p) (m q) (first_inside 0 p q m f),
  ),
)
strcmp-equal (suc fuel) p q (suc k) m (ne, str) h =
    let rest = strcmp-equal fuel (p + 1) (q + 1) k m str (omega (arith, h)) in
    elim (Bool-cases (m p == m q)) [
      | inl same ↦ (
        rest.0,
        rw (ne_zero-test (m p) ne, same) rest.1,
        (
          λ e. cons_inside (suc k) p q m m ((==_iff (m p) (m q)).0 same) (rest.2.0 e),
          λ f. rest.2.1 (tail_inside (suc k) p q m f),
        ),
      )
      | inr other ↦ (
        byte_diff (m p) (m q),
        rw (ne_zero-test (m p) ne, other) refl,
        (
          λ e. ground (arith, other, byte_diff-equal (m p) (m q) e),
          λ f. byte_diff_self (m p) (m q) (first_inside (suc k) p q m f),
        ),
      )
    ]
