-- ===== src/Base/Bits.antt =====
-- Laws of `&` and `|` at every width: both work on the high and the low part of a word apart.
use Prim.Native.Nat.{
  ℕ, zero, suc, ◌+◌, ◌-◌, ◌*◌, ◌/◌, ◌%◌, ◌^◌, ◌≤◌, ◌<◌, min, max, bit_and, bit_or, digits, bitwise,
  bit_and-bitwise, bit_or-bitwise,
}
use mathlib.Core.Path.{◌≡◌, refl, ap, ap₂, sym, ◌∙◌}
use native.Mathlib.Decide.{ℕ_discrete}
use native.Mathlib.Nat.{pow-suc, one-le-pow, mod-lt, mod-eq_of_lt, div-eq_of_lt, div-add-mod'}
use native.Mathlib.Omega.{arith}

-- The native operations stand for a recursion on digits with fuel, and the fuel does not matter.
module _ (rest : ℕ → ℕ) (digit : ℕ → ℕ → ℕ) where
  more_fuel :
      (fuel x y : ℕ) → x ≤ fuel → digits rest digit (suc fuel) x y ≡ digits rest digit fuel x y
  more_fuel zero zero y h = refl
  more_fuel (suc fuel) zero y h = refl
  more_fuel zero (suc x) y h = absurd (omega arith)
  more_fuel (suc fuel) (suc x) y h =
      ap (λ (high : ℕ). high * 2 + digit (suc x % 2) (y % 2))
        (more_fuel fuel (suc x / 2) (y / 2) (omega arith))

  own_fuel : (fuel x y : ℕ) → x ≤ fuel → digits rest digit fuel x y ≡ bitwise rest digit x y
  own_fuel zero zero y h = refl
  own_fuel zero (suc x) y h = absurd (omega arith)
  own_fuel (suc fuel) x y h = elim (ℕ_discrete x (suc fuel)) [
    | yes all ↦ rw all
    | no less ↦ more_fuel fuel x y (omega arith) ∙ own_fuel fuel x y (omega arith)
  ]

  lowest_digit :
      (x y : ℕ)
      → bitwise rest digit (suc x) y
        ≡ bitwise rest digit (suc x / 2) (y / 2) * 2 + digit (suc x % 2) (y % 2)
  lowest_digit x y =
      ap (λ (high : ℕ). high * 2 + digit (suc x % 2) (y % 2))
        (own_fuel x (suc x / 2) (y / 2) (omega arith))

pub zero-bit_or : (y : ℕ) → bit_or 0 y ≡ y
zero-bit_or y = bit_or-bitwise 0 y

pub zero-bit_and : (y : ℕ) → bit_and 0 y ≡ 0
zero-bit_and y = bit_and-bitwise 0 y

pub or_digit : (x y : ℕ) → bit_or x y ≡ bit_or (x / 2) (y / 2) * 2 + max (x % 2) (y % 2)
or_digit zero y = omega (arith, zero-bit_or y, zero-bit_or (y / 2))
or_digit (suc x) y =
    bit_or-bitwise (suc x) y
    ∙ lowest_digit (λ v. v) max x y
    ∙ ap (λ (high : ℕ). high * 2 + max (suc x % 2) (y % 2))
        (sym (bit_or-bitwise (suc x / 2) (y / 2)))

pub and_digit : (x y : ℕ) → bit_and x y ≡ bit_and (x / 2) (y / 2) * 2 + min (x % 2) (y % 2)
and_digit zero y = omega (arith, zero-bit_and y, zero-bit_and (y / 2))
and_digit (suc x) y =
    bit_and-bitwise (suc x) y
    ∙ lowest_digit (λ v. 0) min x y
    ∙ ap (λ (high : ℕ). high * 2 + min (suc x % 2) (y % 2))
        (sym (bit_and-bitwise (suc x / 2) (y / 2)))

-- Both sides at once: `x | 0` is `x`, and `x & 0` is 0.
zero_right : (n x : ℕ) → x ≤ n → (bit_or x 0 ≡ x) × (bit_and x 0 ≡ 0)
zero_right n zero h = (refl, refl)
zero_right zero (suc x) h = absurd (omega arith)
zero_right (suc n) (suc x) h =
    let halves = zero_right n (suc x / 2) (omega arith) in
    (omega (arith, or_digit (suc x) 0, halves.0), omega (arith, and_digit (suc x) 0, halves.1))

pub bit_or-zero : (x : ℕ) → bit_or x 0 ≡ x
bit_or-zero x = (zero_right x x (omega arith)).0

pub bit_and-zero : (x : ℕ) → bit_and x 0 ≡ 0
bit_and-zero x = (zero_right x x (omega arith)).1

double_power : (q k : ℕ) → q * 2 ^ suc k ≡ 2 * (q * 2 ^ k)
double_power q k = omega (arith, ap (λ (t : ℕ). q * t) (pow-suc 2 k))

pub bit_or_lt : (k a b : ℕ) → a < 2 ^ k → b < 2 ^ k → bit_or a b < 2 ^ k
bit_or_lt zero zero zero h g = omega arith
bit_or_lt zero (suc a) b h g = absurd (omega arith)
bit_or_lt zero zero (suc b) h g = absurd (omega arith)
bit_or_lt (suc k) a b h g = omega (
  arith,
  or_digit a b,
  pow-suc 2 k,
  bit_or_lt k (a / 2) (b / 2) (omega (arith, pow-suc 2 k)) (omega (arith, pow-suc 2 k)),
)

pub bit_and_lt : (k a b : ℕ) → a < 2 ^ k → bit_and a b < 2 ^ k
bit_and_lt zero zero b h = omega (arith, zero-bit_and b)
bit_and_lt zero (suc a) b h = absurd (omega arith)
bit_and_lt (suc k) a b h =
    omega
      (arith, and_digit a b, pow-suc 2 k, bit_and_lt k (a / 2) (b / 2) (omega (arith, pow-suc 2 k)))

half_fields : (k q r : ℕ) → (q * 2 ^ suc k + r) / 2 ≡ q * 2 ^ k + r / 2
half_fields k q r = omega (arith, double_power q k)

bit_fields : (k q r : ℕ) → (q * 2 ^ suc k + r) % 2 ≡ r % 2
bit_fields k q r = omega (arith, double_power q k)

-- An operation on digits works on the part above bit `k` and the part below it apart.
module _ (op f : ℕ → ℕ → ℕ)
    (step : (a b : ℕ) → op a b ≡ op (a / 2) (b / 2) * 2 + f (a % 2) (b % 2)) where
  op_fields :
      (k q r p s : ℕ)
      → r < 2 ^ k
      → s < 2 ^ k
      → op (q * 2 ^ k + r) (p * 2 ^ k + s) ≡ op q p * 2 ^ k + op r s
  op_fields zero q (suc r) p s h g = absurd (omega arith)
  op_fields zero q zero p (suc s) h g = absurd (omega arith)
  op_fields zero q zero p zero h g = rw (at_one q, at_one p) (omega (arith, step 0 0))
    where
      at_one : (a : ℕ) → a * 2 ^ 0 + 0 ≡ a
      at_one a = omega arith
  op_fields (suc k) q r p s h g =
      let ih =
        op_fields k q (r / 2) p (s / 2) (omega (arith, pow-suc 2 k)) (omega (arith, pow-suc 2 k)) in
      rw
        (
          step (q * 2 ^ suc k + r) (p * 2 ^ suc k + s),
          half_fields k q r,
          half_fields k p s,
          bit_fields k q r,
          bit_fields k p s,
          ih,
        )
        (omega (arith, step r s, double_power (op q p) k))

  op_split : (k a b : ℕ) → op a b ≡ op (a / 2 ^ k) (b / 2 ^ k) * 2 ^ k + op (a % 2 ^ k) (b % 2 ^ k)
  op_split k a b =
      ap₂ op (sym (div-add-mod' a (2 ^ k))) (sym (div-add-mod' b (2 ^ k)))
      ∙ op_fields k (a / 2 ^ k) (a % 2 ^ k) (b / 2 ^ k) (b % 2 ^ k)
          (mod-lt a (one-le-pow k 2 (omega arith))) (mod-lt b (one-le-pow k 2 (omega arith)))

-- `|` and `&` of two words, from their parts above bit `k` and below it.
pub bit_or_split :
    (k a b : ℕ)
    → bit_or a b ≡ bit_or (a / 2 ^ k) (b / 2 ^ k) * 2 ^ k + bit_or (a % 2 ^ k) (b % 2 ^ k)
bit_or_split = op_split bit_or max or_digit

pub bit_and_split :
    (k a b : ℕ)
    → bit_and a b ≡ bit_and (a / 2 ^ k) (b / 2 ^ k) * 2 ^ k + bit_and (a % 2 ^ k) (b % 2 ^ k)
bit_and_split = op_split bit_and min and_digit

bit_and_ones : (k r : ℕ) → r < 2 ^ k → bit_and r (2 ^ k - 1) ≡ r
bit_and_ones zero zero h = zero-bit_and 0
bit_and_ones zero (suc r) h = absurd (omega arith)
bit_and_ones (suc k) r h =
    let halved : (2 ^ suc k - 1) / 2 ≡ 2 ^ k - 1 = omega (arith, pow-suc 2 k) in
    let odd : (2 ^ suc k - 1) % 2 ≡ 1 = omega (arith, pow-suc 2 k, one-le-pow k 2 (omega arith)) in
    rw
      (
        and_digit r (2 ^ suc k - 1),
        halved,
        odd,
        bit_and_ones k (r / 2) (omega (arith, pow-suc 2 k)),
      )
      (omega arith)

-- The mask of `k` ones keeps the remainder.
pub bit_and_mask : (k a : ℕ) → bit_and a (2 ^ k - 1) ≡ a % 2 ^ k
bit_and_mask k a =
    let pos : 0 < 2 ^ k = one-le-pow k 2 (omega arith) in
    let low : (2 ^ k - 1) % 2 ^ k ≡ 2 ^ k - 1 = mod-eq_of_lt (omega arith) in
    let high : (2 ^ k - 1) / 2 ^ k ≡ 0 = div-eq_of_lt (omega arith) in
    rw (bit_and_split k a (2 ^ k - 1), high, low, bit_and-zero)
      (omega (arith, bit_and_ones k (a % 2 ^ k) (mod-lt a pos)))

pub bit_and-one : (a : ℕ) → bit_and a 1 ≡ a % 2
bit_and-one a = bit_and_mask 1 a
