-- ===== src/Text/Digits.antt =====
-- Numbers as strtol reads them.
use native.Mathlib.Nat.{div-add-mod', mod-lt, mul-le-mul_right}
use nekonix.Base.{
  ℕ, zero, suc, ◌+◌, ◌*◌, ◌/◌, ◌%◌, ◌≡◌, ◌≢◌, ◌≤◌, ◌<◌, ◌∙◌, ap, refl, inl, inr, Bool, false, ◌&&◌,
  ◌||◌, none, some, List, [], ◌∷◌, ltb, ◌==◌, if◌then◌else◌, arith, length, ne→==, ltb→ge, le→ltb,
  Bool-cases, Option-cases, leb, ◌⊎◌,
}
use nekonix.Strings.{Bytes}
use nekonix.Text.{
  long_max, long_min, next_digit, signed, strtol_loop, strtol, skip_space, is_space, strtol_base,
}

-- The byte `c` is the digit `d` of the base: a decimal digit, or a letter of either case from ten on.
abbrev pub IsDigit : ℕ → ℕ → ℕ → Type 0
IsDigit base c d =
    (d < base) × (((d < 10) × (c ≡ 48 + d)) ⊎ ((10 ≤ d) × (d < 36) × ((c ≡ 87 + d) ⊎ (c ≡ 55 + d))))

-- The digits that stand at `s`, up to the first byte that is none.
abbrev pub Spells : ℕ → Bytes → ℕ → List ℕ → Type 0
Spells base m s [] = (d : ℕ) → ¬ IsDigit base (m s) d
Spells base m s (d ∷ ds) = IsDigit base (m s) d × Spells base m (s + 1) ds

-- The same, as the code reads them.
abbrev Scans : ℕ → Bytes → ℕ → List ℕ → Type 0
Scans base m s [] = next_digit base (m s) ≡ none
Scans base m s (d ∷ ds) = (next_digit base (m s) ≡ some d) × Scans base m (s + 1) ds

abbrev pub value : ℕ → ℕ → List ℕ → ℕ
value base n [] = n
value base n (d ∷ ds) = value base (n * base + d) ds

next_digit_lt : (base c d : ℕ) → next_digit base c ≡ some d → d < base
unfolding next_digit
next_digit_lt base c d h = ground (arith, h)

next_digit_of : (base c d : ℕ) → IsDigit base c d → next_digit base c ≡ some d
unfolding next_digit
next_digit_of base c d (small, inl (low, e)) = ground (arith, e)
next_digit_of base c d (small, inr (ge, lt, inl e)) = ground (arith, e)
next_digit_of base c d (small, inr (ge, lt, inr e)) = ground (arith, e)

next_digit-IsDigit : (base c d : ℕ) → next_digit base c ≡ some d → IsDigit base c d
unfolding next_digit
next_digit-IsDigit base c d h = elim (Bool-cases (leb 48 c && leb c 57)) [
  | inl low ↦ (next_digit_lt base c d h, inl (ground (arith, h, low), ground (arith, h, low)))
  | inr not_low ↦ (
    next_digit_lt base c d h,
    inr (
      ground (arith, h, not_low),
      ground (arith, h, not_low),
      elim (Bool-cases (leb 97 c && leb c 122)) [
        | inl lower ↦ inl (ground (arith, h, not_low, lower))
        | inr upper ↦ inr (ground (arith, h, not_low, upper))
      ],
    ),
  )
]

Spells-Scans : (base s : ℕ) (m : Bytes) (ds : List ℕ) → Spells base m s ds → Scans base m s ds
Spells-Scans base s m [] ends = elim (Option-cases (next_digit base (m s))) [
  | inl e ↦ e
  | inr (d, e) ↦ absurd (ends d (next_digit-IsDigit base (m s) d e))
]
Spells-Scans base s m (d ∷ ds) (digit, more) =
    (next_digit_of base (m s) d digit, Spells-Scans base (s + 1) m ds more)

-- A quotient and its remainder against another multiple.
module _ (max base n d : ℕ) (h : d < base) where
  above : max / base < n → max < n * base + d
  above lt =
      let pos : 0 < base = omega (arith, h) in
      omega (arith, mul-le-mul_right base lt, div-add-mod' max base, mod-lt max pos)

  below : n < max / base → n * base + d ≤ max
  below lt = omega (arith, mul-le-mul_right base lt, div-add-mod' max base, h)

  at_limit : n ≡ max / base → n * base + d + max % base ≡ max + d
  at_limit e = omega (arith, ap (λ (t : ℕ). t * base) e, div-add-mod' max base)

-- The test for overflow, which compares with the quotient and the remainder, is exact.
overflow_test :
    (max base n d : ℕ)
    → d < base
    → (ltb (max / base) n || n == max / base && ltb (max % base) d) ≡ ltb max (n * base + d)
overflow_test max base n d h =
    ground (arith, above max base n d h, below max base n d h, at_limit max base n d h)

pub le-value : (base n : ℕ) (ds : List ℕ) → 0 < base → n ≤ value base n ds
le-value base n [] h = omega arith
le-value base n (d ∷ ds) h = omega (arith, mul-le-mul_right n h, le-value base (n * base + d) ds h)

-- A round of the loop at a digit.
strtol_loop-digit :
    (fuel base s n d : ℕ) (negative : Bool) (m : Bytes)
    → next_digit base (m s) ≡ some d
    → strtol_loop (suc fuel) base negative s n m ≡ (
        if ltb long_max (n * base + d)
        then some (if negative then long_min else long_max, s)
        else strtol_loop fuel base negative (s + 1) (n * base + d) m)
unfolding strtol_loop
strtol_loop-digit fuel base s n d negative m e =
    rw (strtol_loop, e, overflow_test long_max base n d (next_digit_lt base (m s) d e)) refl

-- The loop takes all the digits where their number fits, and stops at the first digit that does not.
strtol_loop_fits :
    (fuel base s n : ℕ) (negative : Bool) (m : Bytes) (ds : List ℕ)
    → Scans base m s ds
    → length ds < fuel
    → value base n ds ≤ long_max
    → strtol_loop fuel base negative s n m ≡ some (signed negative (value base n ds), s + length ds)
unfolding strtol_loop
strtol_loop_fits zero base s n negative m ds sp h fits = absurd (omega (arith, h))
strtol_loop_fits (suc fuel) base s n negative m [] sp h fits =
    rw (strtol_loop, sp) (ap (λ x. some (signed negative n, x)) (omega arith))
strtol_loop_fits (suc fuel) base s n negative m (d ∷ ds) (e, sp) h fits =
    let base_pos : 0 < base = omega (arith, next_digit_lt base (m s) d e) in
    let le : n * base + d ≤ long_max =
      omega (arith, fits, le-value base (n * base + d) ds base_pos) in
    strtol_loop-digit fuel base s n d negative m e
    ∙ rw (le→ltb long_max (n * base + d) le) (
        strtol_loop_fits fuel base (s + 1) (n * base + d) negative m ds sp (omega (arith, h)) fits
        ∙ ap (λ x. some (signed negative (value base (n * base + d) ds), x)) (omega arith))

strtol_loop_overflows :
    (fuel base s n : ℕ) (negative : Bool) (m : Bytes) (ds : List ℕ)
    → Scans base m s ds
    → length ds < fuel
    → n ≤ long_max
    → long_max < value base n ds
    → (end : ℕ) × (strtol_loop fuel base negative s n m
        ≡ some (if negative then long_min else long_max, end))
strtol_loop_overflows zero base s n negative m ds sp h small big = absurd (omega (arith, h))
strtol_loop_overflows (suc fuel) base s n negative m [] sp h small big = absurd (omega (arith, big))
strtol_loop_overflows (suc fuel) base s n negative m (d ∷ ds) (e, sp) h small big =
    elim (Bool-cases (ltb long_max (n * base + d))) [
      | inl over ↦ (s, strtol_loop-digit fuel base s n d negative m e ∙ rw over refl)
      | inr fits ↦
          let (end, r) =
            strtol_loop_overflows fuel base (s + 1) (n * base + d) negative m ds sp
              (omega (arith, h)) (ltb→ge long_max (n * base + d) fits) big in
          (end, strtol_loop-digit fuel base s n d negative m e ∙ rw fits r)
    ]

digit-ge : (base c d : ℕ) → next_digit base c ≡ some d → 48 ≤ c
unfolding next_digit
digit-ge base c d h = ground (arith, h)

not_space : (c : ℕ) → 48 ≤ c → is_space c ≡ false
unfolding is_space
not_space c h = ground (arith, h)

skip_space-none :
    (fuel s : ℕ) (m : Bytes) → is_space (m s) ≡ false → skip_space (suc fuel) s m ≡ some s
unfolding skip_space
skip_space-none fuel s m e = rw (skip_space, e) refl

same_base : (base s : ℕ) (m : Bytes) → base ≢ 0 → base ≢ 16 → strtol_base base s m ≡ (base, s)
unfolding strtol_base
same_base base s m b0 b16 = rw (ne→== base 0 b0, ne→== base 16 b16) refl

-- strtol at a text that begins with a digit.
strtol-loop :
    (fuel s base d : ℕ) (m : Bytes)
    → base ≢ 0
    → base ≢ 16
    → next_digit base (m s) ≡ some d
    → strtol (suc fuel) s base m ≡ strtol_loop (suc fuel) base false s 0 m
unfolding strtol
strtol-loop fuel s base d m b0 b16 e =
    let ge = digit-ge base (m s) d e in
    rw
      (
        strtol,
        skip_space-none fuel s m (not_space (m s) ge),
        ne→== (m s) 45 (omega (arith, ge)),
        ne→== (m s) 43 (omega (arith, ge)),
        same_base base s m b0 b16,
      )
      refl

-- strtol at a text that begins with a digit in a base other than 0 and 16, with fuel for the digits,
-- returns their number and the place behind them where the number fits a long, and otherwise the
-- largest long.
pub strtol-value :
    (fuel s base d : ℕ) (ds : List ℕ) (m : Bytes)
    → base ≢ 0
    → base ≢ 16
    → Spells base m s (d ∷ ds)
    → length ds < fuel
    → (value base 0 (d ∷ ds) ≤ long_max
        → strtol (suc fuel) s base m ≡ some (value base 0 (d ∷ ds), s + length (d ∷ ds)))
      × (long_max < value base 0 (d ∷ ds)
          → (end : ℕ) × (strtol (suc fuel) s base m ≡ some (long_max, end)))
unfolding signed
strtol-value fuel s base d ds m b0 b16 spelled h =
    let sp = Spells-Scans base s m (d ∷ ds) spelled in
    let same = strtol-loop fuel s base d m b0 b16 sp.0 in
    (
      λ fits.
          same ∙ strtol_loop_fits (suc fuel) base s 0 false m (d ∷ ds) sp (omega (arith, h)) fits,
      λ big.
          let (end, e) =
            strtol_loop_overflows (suc fuel) base s 0 false m (d ∷ ds) sp (omega (arith, h))
              (omega arith) big in
          (end, same ∙ e),
    )
