-- ===== src/Interrupts/Masks.antt =====
-- Lemmas on the mask of the interrupt controller.
use nekonix.Base.{
  ℕ, ◌-◌, ◌/◌, ◌%◌, ◌^◌, ◌≡◌, ◌<◌, ◌∙◌, ap₂, refl, List, ◌∷◌, ◌==◌, if◌then◌else◌, arith, bit_or,
  bit_and,
}
use nekonix.Base.Bits.{bit_and_mask}
use nekonix.Base.Flags.{bit, bit_or-bit, bit_and-bit, bit-power, bit-complement, bit-cut}
use nekonix.Interrupts.{Pic, pic_set_mask, pic_mask, pic_unmask, pic1_data, pic2_data}

-- The mask was written to the two chips last, its low half to the first and its high half to the second.
pub record IsMasked (mask : ℕ) (before : List (ℕ × ℕ)) (p : Pic) : Type 0 where
  pub kept : p.mask ≡ mask
  pub sent : p.sent ≡ (pic2_data, mask / 2 ^ 8) ∷ (pic1_data, mask % 2 ^ 8) ∷ before

pub pic_set_mask-IsMasked :
    (mask : ℕ) (p : Pic) → mask < 2 ^ 16 → IsMasked mask p.sent (pic_set_mask mask p)
unfolding pic_set_mask
pic_set_mask-IsMasked mask p h = record {
  kept = refl;
  sent =
      ap₂ (λ high low. (pic2_data, high) ∷ (pic1_data, low) ∷ p.sent) (omega arith)
        (omega (arith, bit_and_mask 8 mask));
}

-- pic_mask sets the bit of a line below 16 in the mask, pic_unmask clears it, and both leave the other
-- bits below 16 alone and send the new mask to the two chips.
pub pic_mask_lem :
    (irq : ℕ) (p : Pic)
    → irq < 16
    → ((j : ℕ)
        → j < 16
        → (bit (pic_mask irq p).mask j ≡ (if irq == j then 1 else bit p.mask j))
          × (bit (pic_unmask irq p).mask j ≡ (if irq == j then 0 else bit p.mask j)))
      × IsMasked (pic_mask irq p).mask p.sent (pic_mask irq p)
      × IsMasked (pic_unmask irq p).mask p.sent (pic_unmask irq p)
unfolding pic_mask pic_unmask pic_set_mask
pic_mask_lem irq p h = (
  λ j hj. (
    bit-cut (bit_or p.mask (2 ^ irq)) j hj
        ∙ bit_or-bit p.mask (2 ^ irq) j
        ∙ ground (arith, bit-power irq j h hj),
    bit-cut (bit_and p.mask (2 ^ 32 - 1 - 2 ^ irq)) j hj
        ∙ bit_and-bit p.mask (2 ^ 32 - 1 - 2 ^ irq) j
        ∙ ground (arith, bit-complement irq j h hj),
  ),
  pic_set_mask-IsMasked _ p (omega arith),
  pic_set_mask-IsMasked _ p (omega arith),
)
