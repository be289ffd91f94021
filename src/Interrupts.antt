-- ===== src/Interrupts.antt =====
-- The interrupt controller, kernel/src/sys/pic.c, and the descriptor table of kernel/src/sys/idt.c.
-- A byte that is written to a port is kept in a list, the latest first; the pause behind it and the
-- diagnostics are left out.
pub mod Masks
pub mod Gates
pub mod Dispatch
pub mod Trains
mod Tests
use nekonix.Base.{
  ℕ, zero, suc, ◌+◌, ◌-◌, ◌*◌, ◌/◌, ◌%◌, ◌^◌, ◌≡◌, Bool, true, false, Option, none, some, List, [],
  ◌∷◌, ltb, leb, ◌==◌, if◌then◌else◌, bit_and, bit_or, u8, u16,
}

abbrev pub pic1_command : ℕ
pic1_command = 0x20

abbrev pub pic1_data : ℕ
pic1_data = 0x21

abbrev pub pic2_command : ℕ
pic2_command = 0xA0

abbrev pub pic2_data : ℕ
pic2_data = 0xA1

-- The static `_pic_mask`, and the bytes that were sent, each with its port.
pub record Pic : Type 0 where
  pub mask : ℕ
  pub sent : List (ℕ × ℕ)

unfoldable pub outb : ℕ → ℕ → Pic → Pic
outb port value p = record p { sent = (port, u8 value) ∷ p.sent }

unfoldable pub pic_set_mask : ℕ → Pic → Pic
unfolding outb
pic_set_mask mask p =
    let kept = record p { mask = mask } in
    outb pic2_data (mask / 2 ^ 8) (outb pic1_data (bit_and mask 0xFF) kept)

-- What a port gives depends on what was sent.
module _ (inb : ℕ → List (ℕ × ℕ) → ℕ) where
  unfoldable pub pic_get_mask : Pic → ℕ
  pic_get_mask p = bit_or (inb pic1_data p.sent) (inb pic2_data p.sent * 2 ^ 8)

  -- `pic_read_irq_request_register` asks by 0x0A, and `pic_read_in_service_register` by 0x0B.
  unfoldable pub pic_read_register : ℕ → Pic → ℕ × Pic
  unfolding outb
  pic_read_register command p =
      let asked1 = outb pic1_command command p in
      let low = inb pic1_data asked1.sent in
      let asked2 = outb pic2_command command asked1 in
      (bit_or low (u16 (inb pic2_data asked2.sent * 2 ^ 8)), asked2)

unfoldable pub pic_configure : ℕ → ℕ → Bool → Pic → Pic
unfolding outb pic_set_mask
pic_configure offset_pic1 offset_pic2 auto_eoi p =
    let start = outb pic2_command 0x11 (outb pic1_command 0x11 (pic_set_mask 0xFFFF p)) in
    let offsets = outb pic2_data offset_pic2 (outb pic1_data offset_pic1 start) in
    let wired = outb pic2_data 0x02 (outb pic1_data 0x04 offsets) in
    let icw4 = if auto_eoi then bit_or 0x01 0x02 else 0x01 in
    pic_set_mask 0xFFFF (outb pic2_data icw4 (outb pic1_data icw4 wired))

unfoldable pub pic_send_end_of_interrupt : ℕ → Pic → Pic
unfolding outb
pic_send_end_of_interrupt irq p =
    outb pic1_command 0x20 (if leb 8 irq then outb pic2_command 0x20 p else p)

unfoldable pub pic_disable : Pic → Pic
pic_disable p = pic_set_mask 0xFFFF p

unfoldable pub pic_enable : Pic → Pic
pic_enable p = pic_set_mask 0xFFFF (pic_configure 0x20 0x28 false p)

unfoldable pub pic_mask : ℕ → Pic → Pic
pic_mask irq p = pic_set_mask (u16 (bit_or p.mask (2 ^ irq))) p

-- `~(1 << irq)` on 32 bits
unfoldable pub pic_unmask : ℕ → Pic → Pic
pic_unmask irq p = pic_set_mask (u16 (bit_and p.mask (2 ^ 32 - 1 - 2 ^ irq))) p

-- `for (i = 0; i < 16; i++) pic_mask(i)`
unfoldable pub mask_all : ℕ → ℕ → Pic → Pic
mask_all zero i p = p
mask_all (suc rounds) i p = mask_all rounds (i + 1) (pic_mask i p)

unfoldable pub pic_init : Pic → Pic
pic_init p = mask_all 16 0 (pic_configure 0x20 0x28 false p)

-- `idt_entry_t`
pub record Gate : Type 0 where
  pub offset_low : ℕ
  pub selector : ℕ
  pub ist : ℕ
  pub flags : ℕ
  pub offset_middle : ℕ
  pub offset_high : ℕ
  pub zero : ℕ

abbrev pub Table : Type 0
Table = ℕ → Gate

-- What `idt_set_gate` puts into an entry.
unfoldable pub gate : ℕ → ℕ → ℕ → Gate
gate base sel flags = record {
  offset_low = bit_and base 0xFFFF;
  selector = sel;
  ist = 0;
  flags = flags;
  offset_middle = bit_and (base / 2 ^ 16) 0xFFFF;
  offset_high = bit_and (base / 2 ^ 32) 0xFFFFFFFF;
  zero = 0;
}

unfoldable pub idt_set_gate : ℕ → ℕ → ℕ → ℕ → Table → Table
idt_set_gate num base sel flags idt n = if num == n then gate base sel flags else idt n

-- `for (i = from; i < …; ++i) idt_set_gate(idt_entries, i, isr_table[i], 0x08, 0x8E)`
unfoldable pub set_gates : (ℕ → ℕ) → ℕ → ℕ → Table → Table
set_gates isr_table zero i idt = idt
set_gates isr_table (suc rounds) i idt =
    set_gates isr_table rounds (i + 1) (idt_set_gate i (isr_table i) 0x08 0x8E idt)

-- The table; the handlers are cleared and the controller is set up besides.
unfoldable pub idt_init : (ℕ → ℕ) → Table → Table
idt_init isr_table idt =
    idt_set_gate 0x80 (isr_table 0x80) 0x08 0xEE
      (set_gates isr_table 16 0x20 (set_gates isr_table 32 0 idt))
