-- ===== src/Text/Tokens.antt =====
-- strtok on strings as lists.
use nekonix.Base.{
  ℕ, zero, suc, ◌+◌, ◌≡◌, ◌≢◌, ◌<◌, ◌∙◌, ap, subst, refl, ◌⊎◌, inl, inr, Option, some, List, [],
  ◌∷◌, ◌==◌, if◌then◌else◌, arith, length, take, drop, ne→==, length-drop,
}
use nekonix.Pmm.{store}
use nekonix.Strings.{Bytes, null}
use nekonix.Strings.Copy.{store_ne}
use nekonix.Text.{strtok, strtok_from}
use nekonix.Text.Content.{
  Holds, span_in, span_out, strspn_zero, strcspn_zero, Holds-drop, Holds-cut, span_in-le,
  span_out-le, Holds-store,
}

-- The token that strtok cuts off from the string `ys` at `p`, and the string that it leaves.
pub record IsToken (m : Bytes) (p : ℕ) (ds ys : List ℕ) (next : ℕ) (m' : Bytes) : Type 0 where
  pub token : Holds m' p (take (span_out ds ys) ys)
  pub rest : Holds m' next (drop 1 (drop (span_out ds ys) ys))
  pub outside : (a : ℕ) → (a < p) ⊎ (p + length ys < a) → m' a ≡ m a

take_all : (n : ℕ) (ys : List ℕ) → drop n ys ≡ [] → take n ys ≡ ys
take_all zero [] e = refl
take_all zero (y ∷ ys) e = cc e
take_all (suc n) [] e = refl
take_all (suc n) (y ∷ ys) e = ap (λ zs. y ∷ zs) (take_all n ys e)

-- How strtok ends the token at `p`.
abbrev cut : ℕ → ℕ → Bytes → Option (ℕ × ℕ × Bytes)
cut p n m = if m (p + n) == 0 then some (p, p + n, m) else some (p, p + n + 1, store m (p + n) 0)

cut-IsToken :
    (m : Bytes) (p : ℕ) (ds ys zs : List ℕ)
    → Holds m p ys
    → drop (span_out ds ys) ys ≡ zs
    → (next : ℕ) × (m' : Bytes) × (cut p (span_out ds ys) m ≡ some (p, next, m'))
      × IsToken m p ds ys next m'
cut-IsToken m p ds ys [] h e =
    let n = span_out ds ys in
    let behind = subst (Holds m (p + n)) e (Holds-drop m p n ys (span_out-le ds ys) h) in
    (
      p + n,
      m,
      rw behind refl,
      record { token = rw (take_all n ys e) h; rest = rw e behind; outside = λ a w. refl },
    )
cut-IsToken m p ds ys (z ∷ zs) h e =
    let n = span_out ds ys in
    let le = span_out-le ds ys in
    let behind = subst (Holds m (p + n)) e (Holds-drop m p n ys le h) in
    (
      p + n + 1,
      store m (p + n) 0,
      rw (behind.0, ne→== z 0 behind.1) refl,
      record {
        token = Holds-cut m p n ys le h;
        rest = rw e (Holds-store m (p + n) 0 (p + n + 1) zs (inl (omega arith)) behind.2);
        outside = λ a w. store_ne m (p + n) 0 (omega (arith, w, le));
      },
    )

strtok_from-IsToken :
    (fuel start delim last : ℕ) (ds xs ys : List ℕ) (m : Bytes)
    → Holds m start xs
    → Holds m delim ds
    → length xs + length ds < fuel
    → drop (span_in ds xs) xs ≡ ys
    → ((ys ≡ []) × (strtok_from fuel start delim last m ≡ some (null, last, m)))
      ⊎ ((ys ≢ [])
          × ((next : ℕ) × (m' : Bytes) × (strtok_from fuel start delim last m
                ≡ some (start + span_in ds xs, next, m'))
              × IsToken m (start + span_in ds xs) ds ys next m'))
unfolding strtok_from
strtok_from-IsToken fuel start delim last ds xs [] m h set lt e =
    let p = start + span_in ds xs in
    let there = subst (Holds m p) e (Holds-drop m start (span_in ds xs) xs (span_in-le ds xs) h) in
    inl (refl, rw (strtok_from, strspn_zero delim ds m set fuel start xs h lt, there) refl)
strtok_from-IsToken fuel start delim last ds xs (y ∷ ys) m h set lt e =
    let n = span_in ds xs in
    let p = start + n in
    let there = subst (Holds m p) e (Holds-drop m start n xs (span_in-le ds xs) h) in
    let short : length (y ∷ ys) + length ds < fuel =
      omega (arith, lt, length-drop n xs, ap length e) in
    let r = cut-IsToken m p ds (y ∷ ys) (drop (span_out ds (y ∷ ys)) (y ∷ ys)) there refl in
    inr (
      (λ q. cc q),
      (
        r.0,
        r.1,
        rw
            (
              strtok_from,
              strspn_zero delim ds m set fuel start xs h lt,
              (ap (λ (c : ℕ). c == 0) there.0 ∙ ne→== y 0 there.1),
              strcspn_zero delim ds m set fuel p (y ∷ ys) there short,
            )
            r.2,
        r.3,
      ),
    )

-- strtok, with fuel for the string and the set of delimiters, skips the delimiters in front, returns
-- null when nothing else is left, and otherwise the token up to the next delimiter, with a zero in
-- the place of that delimiter, and remembers where the string goes on; no byte outside the string
-- changes.
pub strtok-IsToken :
    (fuel str delim last start : ℕ) (ds xs ys : List ℕ) (m : Bytes)
    → (if str == 0 then last else str) ≡ start
    → start ≢ 0
    → Holds m start xs
    → Holds m delim ds
    → length xs + length ds < fuel
    → drop (span_in ds xs) xs ≡ ys
    → ((ys ≡ []) × (strtok fuel str delim last m ≡ some (null, last, m)))
      ⊎ ((ys ≢ [])
          × ((next : ℕ) × (m' : Bytes) × (strtok fuel str delim last m
                ≡ some (start + span_in ds xs, next, m'))
              × IsToken m (start + span_in ds xs) ds ys next m'))
unfolding strtok
strtok-IsToken fuel str delim last start ds xs ys m s nz h set lt e =
    let same : strtok fuel str delim last m ≡ strtok_from fuel start delim last m =
      ap (λ (x : ℕ). if x == 0 then some (null, last, m) else strtok_from fuel x delim last m) s
      ∙ rw (ne→== start 0 nz) refl in
    rw same (strtok_from-IsToken fuel start delim last ds xs ys m h set lt e)
