-- ===== src/Base/Flags.antt =====
-- Single bits of a word under `|`, `&` and a cut to sixteen bits.
use Prim.Native.Nat.{ℕ, zero, suc, ◌+◌, ◌-◌, ◌*◌, ◌/◌, ◌%◌, ◌^◌, ◌<◌, min, max, bit_and, bit_or}
use mathlib.Core.Path.{◌≡◌, refl, ap, sym, ◌∙◌}
use mathlib.Core.Bool.{Bool, true, false}
use native.Mathlib.Nat.{one-le-pow, mod-lt, mul-add-div_right, div-eq_of_lt}
use native.Mathlib.Omega.{arith}
use nekonix.Base.Tests.{◌==◌, if◌then◌else◌}
use nekonix.Base.Bits.{
  bit_or_split, bit_and_split, bit_or_lt, bit_and_lt, bit_and_mask, or_digit, and_digit,
}

abbrev pub bit : ℕ → ℕ → ℕ
bit x j = x / 2 ^ j % 2

-- The part of a word above bit `j`.
high_part : (j q r : ℕ) → r < 2 ^ j → (q * 2 ^ j + r) / 2 ^ j ≡ q
high_part j q r h =
    rw (mul-add-div_right (one-le-pow j 2 (omega arith)) q r, div-eq_of_lt h) (omega arith)

pub bit_or-bit : (a b j : ℕ) → bit (bit_or a b) j ≡ max (bit a j) (bit b j)
bit_or-bit a b j =
    let pos = one-le-pow j 2 (omega arith) in
    let low = bit_or_lt j (a % 2 ^ j) (b % 2 ^ j) (mod-lt a pos) (mod-lt b pos) in
    rw (bit_or_split j a b, high_part j (bit_or (a / 2 ^ j) (b / 2 ^ j)) _ low)
      (omega (arith, or_digit (a / 2 ^ j) (b / 2 ^ j)))

pub bit_and-bit : (a b j : ℕ) → bit (bit_and a b) j ≡ min (bit a j) (bit b j)
bit_and-bit a b j =
    let pos = one-le-pow j 2 (omega arith) in
    let low = bit_and_lt j (a % 2 ^ j) (b % 2 ^ j) (mod-lt a pos) in
    rw (bit_and_split j a b, high_part j (bit_and (a / 2 ^ j) (b / 2 ^ j)) _ low)
      (omega (arith, and_digit (a / 2 ^ j) (b / 2 ^ j)))

-- Whether two tables of 16 columns agree, column by column and row by row.
columns_agree : (ℕ → ℕ) → (ℕ → ℕ) → ℕ → Bool
columns_agree f g zero = true
columns_agree f g (suc j) = if f j == g j then columns_agree f g j else false

rows_agree : (ℕ → ℕ → ℕ) → (ℕ → ℕ → ℕ) → ℕ → Bool
rows_agree f g zero = true
rows_agree f g (suc k) = if columns_agree (f k) (g k) 16 then rows_agree f g k else false

at_column :
    (f g : ℕ → ℕ) (columns j : ℕ) → columns_agree f g columns ≡ true → j < columns → f j ≡ g j
unfolding columns_agree
at_column f g zero j agree below = absurd (omega arith)
at_column f g (suc last) j agree below = ground (arith, at_column f g last j)

at_row :
    (f g : ℕ → ℕ → ℕ) (rows k : ℕ)
    → rows_agree f g rows ≡ true
    → k < rows
    → columns_agree (f k) (g k) 16 ≡ true
unfolding rows_agree
at_row f g zero k agree below = absurd (omega arith)
at_row f g (suc last) k agree below = ground (arith, at_row f g last k)

same_table :
    (f g : ℕ → ℕ → ℕ) → rows_agree f g 16 ≡ true → (k j : ℕ) → k < 16 → j < 16 → f k j ≡ g k j
same_table f g agree k j row column = at_column (f k) (g k) 16 j (at_row f g 16 k agree row) column

pub bit-power : (k j : ℕ) → k < 16 → j < 16 → bit (2 ^ k) j ≡ (if k == j then 1 else 0)
unfolding rows_agree columns_agree
bit-power = same_table (λ k j. bit (2 ^ k) j) (λ k j. if k == j then 1 else 0) refl

-- The complement on 32 bits.
pub bit-complement :
    (k j : ℕ) → k < 16 → j < 16 → bit (2 ^ 32 - 1 - 2 ^ k) j ≡ (if k == j then 0 else 1)
unfolding rows_agree columns_agree
bit-complement =
    same_table (λ k j. bit (2 ^ 32 - 1 - 2 ^ k) j) (λ k j. if k == j then 0 else 1) refl

bit-ones : (k j : ℕ) → k < 16 → j < 16 → bit (2 ^ 16 - 1) j ≡ 1
unfolding rows_agree columns_agree
bit-ones = same_table (λ k j. bit (2 ^ 16 - 1) j) (λ k j. 1) refl

pub bit-cut : (a j : ℕ) → j < 16 → bit (a % 2 ^ 16) j ≡ bit a j
bit-cut a j h =
    sym (ap (λ x. bit x j) (bit_and_mask 16 a))
    ∙ bit_and-bit a (2 ^ 16 - 1) j
    ∙ omega (arith, bit-ones 0 j (omega arith) h)
