-- ===== src/Text/Content.antt =====
-- The bytes of a string as a list, and what the walks over sets of bytes count.
use nekonix.Base.{
  ℕ, zero, suc, ◌+◌, ◌≡◌, ◌≢◌, ◌≤◌, ◌<◌, ◌∙◌, ap, subst, refl, ◌⊎◌, inl, inr, Bool, true, false,
  some, List, [], ◌∷◌, ◌==◌, if◌then◌else◌, arith, length, take, drop, ne→==, Bool-cases,
}
use nekonix.Pmm.{store}
use nekonix.Strings.{Bytes, in_set, strspn, strcspn}
use nekonix.Strings.Copy.{store_self, store_ne}

-- The string at `p` with the bytes `xs`.
abbrev pub Holds : Bytes → ℕ → List ℕ → Type 0
Holds m p [] = m p ≡ 0
Holds m p (x ∷ xs) = (m p ≡ x) × (x ≢ 0) × Holds m (p + 1) xs

abbrev pub member : ℕ → List ℕ → Bool
member c [] = false
member c (d ∷ ds) = if c == d then true else member c ds

-- How many of the first bytes are in the set, and how many are not.
abbrev pub span_in : List ℕ → List ℕ → ℕ
span_in ds [] = 0
span_in ds (x ∷ xs) = if member x ds then suc (span_in ds xs) else 0

abbrev pub span_out : List ℕ → List ℕ → ℕ
span_out ds [] = 0
span_out ds (x ∷ xs) = if member x ds then 0 else suc (span_out ds xs)

in_set_lem :
    (fuel p c : ℕ) (ds : List ℕ) (m : Bytes)
    → Holds m p ds
    → length ds < fuel
    → in_set fuel p c m ≡ some (member c ds)
unfolding in_set
in_set_lem zero p c ds m h lt = absurd (omega (arith, lt))
in_set_lem (suc fuel) p c [] m h lt = rw h refl
in_set_lem (suc fuel) p c (d ∷ ds) m (e, nz, h) lt = elim (Bool-cases (c == d)) [
  | inl same ↦ rw (e, ne→== d 0 nz, same) refl
  | inr other ↦ rw (e, ne→== d 0 nz, other) (in_set_lem fuel (p + 1) c ds m h (omega (arith, lt)))
]

module _ (a : ℕ) (ds : List ℕ) (m : Bytes) (set : Holds m a ds) where
  pub strspn_lem :
      (fuel s n : ℕ) (xs : List ℕ)
      → Holds m s xs
      → length xs + length ds < fuel
      → strspn fuel s a n m ≡ some (n + span_in ds xs)
  unfolding strspn
  strspn_lem zero s n xs h lt = absurd (omega (arith, lt))
  strspn_lem (suc fuel) s n [] h lt = rw h (ap some (omega arith))
  strspn_lem (suc fuel) s n (x ∷ xs) (e, nz, h) lt =
      let found = in_set_lem (suc fuel) a x ds m set (omega (arith, lt)) in
      elim (Bool-cases (member x ds)) [
        | inl inside ↦
            rw (strspn, e, ne→== x 0 nz, found, inside)
              (strspn_lem fuel (s + 1) (n + 1) xs h (omega (arith, lt)) ∙ ap some (omega arith))
        | inr outside ↦ rw (strspn, e, ne→== x 0 nz, found, outside) (ap some (omega arith))
      ]

  pub strcspn_lem :
      (fuel s n : ℕ) (xs : List ℕ)
      → Holds m s xs
      → length xs + length ds < fuel
      → strcspn fuel s a n m ≡ some (n + span_out ds xs)
  unfolding strcspn
  strcspn_lem zero s n xs h lt = absurd (omega (arith, lt))
  strcspn_lem (suc fuel) s n [] h lt = rw h (ap some (omega arith))
  strcspn_lem (suc fuel) s n (x ∷ xs) (e, nz, h) lt =
      let found = in_set_lem (suc fuel) a x ds m set (omega (arith, lt)) in
      elim (Bool-cases (member x ds)) [
        | inl inside ↦ rw (strcspn, e, ne→== x 0 nz, found, inside) (ap some (omega arith))
        | inr outside ↦
            rw (strcspn, e, ne→== x 0 nz, found, outside)
              (strcspn_lem fuel (s + 1) (n + 1) xs h (omega (arith, lt)) ∙ ap some (omega arith))
      ]

  pub strspn_zero :
      (fuel s : ℕ) (xs : List ℕ)
      → Holds m s xs
      → length xs + length ds < fuel
      → strspn fuel s a 0 m ≡ some (span_in ds xs)
  strspn_zero fuel s xs h lt = strspn_lem fuel s 0 xs h lt ∙ ap some (omega arith)

  pub strcspn_zero :
      (fuel s : ℕ) (xs : List ℕ)
      → Holds m s xs
      → length xs + length ds < fuel
      → strcspn fuel s a 0 m ≡ some (span_out ds xs)
  strcspn_zero fuel s xs h lt = strcspn_lem fuel s 0 xs h lt ∙ ap some (omega arith)

pub Holds-store :
    (m : Bytes) (b v p : ℕ) (xs : List ℕ)
    → (b < p) ⊎ (p + length xs < b)
    → Holds m p xs
    → Holds (store m b v) p xs
Holds-store m b v p [] h str = store_ne m b v (omega (arith, h)) ∙ str
Holds-store m b v p (x ∷ xs) h (e, nz, str) =
    (store_ne m b v (omega (arith, h)) ∙ e, nz, Holds-store m b v (p + 1) xs (omega (arith, h)) str)

-- A string behind its first bytes.
pub Holds-drop :
    (m : Bytes) (p n : ℕ) (xs : List ℕ) → n ≤ length xs → Holds m p xs → Holds m (p + n) (drop n xs)
Holds-drop m p zero xs h str =
    let q : p ≡ p + 0 = omega arith in subst (λ (a : ℕ). Holds m a xs) q str
Holds-drop m p (suc n) [] h str = absurd (omega (arith, h))
Holds-drop m p (suc n) (x ∷ xs) h (e, nz, str) =
    let q : p + 1 + n ≡ p + suc n = omega arith in
    subst (λ (a : ℕ). Holds m a (drop n xs)) q (Holds-drop m (p + 1) n xs (omega (arith, h)) str)

-- A zero behind the first bytes cuts the string there.
pub Holds-cut :
    (m : Bytes) (p n : ℕ) (xs : List ℕ)
    → n ≤ length xs
    → Holds m p xs
    → Holds (store m (p + n) 0) p (take n xs)
Holds-cut m p zero xs h str =
    let q : p ≡ p + 0 = omega arith in subst (λ (a : ℕ). store m a 0 p ≡ 0) q (store_self m p 0)
Holds-cut m p (suc n) [] h str = absurd (omega (arith, h))
Holds-cut m p (suc n) (x ∷ xs) h (e, nz, str) = (
  store_ne m (p + suc n) 0 (omega arith) ∙ e,
  nz,
  let q : p + 1 + n ≡ p + suc n = omega arith in
      subst (λ (a : ℕ). Holds (store m a 0) (p + 1) (take n xs)) q
        (Holds-cut m (p + 1) n xs (omega (arith, h)) str),
)

pub span_in-le : (ds xs : List ℕ) → span_in ds xs ≤ length xs
span_in-le ds [] = omega arith
span_in-le ds (x ∷ xs) = ground (arith, span_in-le ds xs)

pub span_out-le : (ds xs : List ℕ) → span_out ds xs ≤ length xs
span_out-le ds [] = omega arith
span_out-le ds (x ∷ xs) = ground (arith, span_out-le ds xs)
