-- ===== src/Vmm/Entry.antt =====
-- Table entries as numbers: what the masks of vmm.c read from an entry and from an address.
use native.Mathlib.Nat.{one-le-pow, mul-div_left, mul-mod_left, add-zero}
use nekonix.Base.{
  ℕ, ◌+◌, ◌*◌, ◌/◌, ◌%◌, ◌^◌, ◌≤◌, ◌<◌, ◌≡◌, ◌∙◌, ap, true, not, ◌==◌, bit_and, bit_or, arith,
}
use nekonix.Base.Bits.{
  bit_or_split, bit_and_split, bit_and_mask, bit_and-zero, bit_or-zero, bit_or_lt, bit_and-one,
}
use nekonix.Vmm.{index, is_present, entry_address, slot, address_mask}

-- An index is nine bits of the address.
pub index_lem : (k virt : ℕ) → index k virt ≡ virt / 2 ^ k % 512
unfolding index
index_lem k virt =
    let pos : 0 < 2 ^ k = one-le-pow k 2 (omega arith) in
    rw
      (
        bit_and_split k virt (511 * 2 ^ k),
        mul-div_left 511 pos,
        mul-mod_left 511 (2 ^ k),
        bit_and-zero,
        add-zero,
        mul-div_left (bit_and (virt / 2 ^ k) 511) pos,
      )
      (bit_and_mask 9 (virt / 2 ^ k))

pub entry_address_lem : (e : ℕ) → entry_address e ≡ e / 4096 % 2 ^ 40 * 4096
unfolding entry_address
entry_address_lem e =
    omega
      (arith, bit_and_split 12 e address_mask, bit_and_mask 40 (e / 4096), bit_and-zero (e % 4096))

pub is_present_lem : (e : ℕ) → is_present e ≡ not (e % 2 == 0)
unfolding is_present
is_present_lem e = rw (bit_and-one e)

-- The flags of a present mapping touch no bit of the address.
pub record IsFlags (flags : ℕ) : Type 0 where
  pub present : flags % 2 ≡ 1
  pub no_address : flags / 4096 % 2 ^ 40 ≡ 0

module _ {flags : ℕ} (fl : IsFlags flags) where
  pub or_flags-present : (p : ℕ) → p % 4096 ≡ 0 → is_present (bit_or p flags) ≡ true
  or_flags-present p al = rw (is_present_lem (bit_or p flags), odd)
    where
      even : p % 2 ≡ 0
      even = omega arith

      low : bit_or (p % 2) (flags % 2) ≡ 1
      low = rw (fl.present, even)

      odd : bit_or p flags % 2 ≡ 1
      odd = omega (arith, bit_or_split 1 p flags, low)

  pub or_flags-address : (p : ℕ) → p % 4096 ≡ 0 → p < 2 ^ 52 → entry_address (bit_or p flags) ≡ p
  or_flags-address p al small = omega (arith, entry_address_lem (bit_or p flags), page)
    where
      low : bit_or (p % 4096) (flags % 4096) < 4096
      low = bit_or_lt 12 _ _ (omega arith) (omega arith)

      high : bit_or p flags / 4096 ≡ bit_or (p / 4096) (flags / 4096)
      high = omega (arith, bit_or_split 12 p flags, low)

      clean : bit_or (p / 4096 % 2 ^ 40) (flags / 4096 % 2 ^ 40) ≡ p / 4096
      clean =
          ap (λ z. bit_or (p / 4096 % 2 ^ 40) z) fl.no_address
          ∙ bit_or-zero (p / 4096 % 2 ^ 40)
          ∙ omega arith

      page : bit_or p flags / 4096 % 2 ^ 40 ≡ p / 4096
      page = omega (arith, high, bit_or_split 40 (p / 4096) (flags / 4096), clean)

-- In a table that does not wrap, and in page-aligned tables, slots are as far apart as they look.
pub slot_lem : (t i : ℕ) → t + 4096 ≤ 2 ^ 64 → i < 512 → slot t i ≡ t + 8 * i
unfolding slot
slot_lem t i h g = omega arith
