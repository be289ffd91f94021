-- ===== src/Interrupts/Gates.antt =====
-- Lemmas on the descriptor table.
use nekonix.Base.{
  ℕ, zero, suc, ◌+◌, ◌*◌, ◌/◌, ◌^◌, ◌≡◌, ◌≢◌, ◌<◌, ◌≤◌, refl, ◌==◌, if◌then◌else◌, arith, ltb, leb,
  ◌&&◌,
}
use nekonix.Base.Bits.{bit_and_mask}
use nekonix.Interrupts.{Gate, Table, gate, idt_set_gate, set_gates, idt_init}

-- The address that the processor puts together from a gate.
abbrev pub target : Gate → ℕ
target g = g.offset_low + g.offset_middle * 2 ^ 16 + g.offset_high * 2 ^ 32

-- A gate to an address in the kernel's code segment.
pub record IsGate (base flags : ℕ) (g : Gate) : Type 0 where
  pub leads : target g ≡ base
  pub segment : g.selector ≡ 0x08
  pub kind : g.flags ≡ flags
  pub stack : g.ist ≡ 0

gate-IsGate : (base flags : ℕ) → base < 2 ^ 64 → IsGate base flags (gate base 0x08 flags)
unfolding gate
gate-IsGate base flags h = record {
  leads = omega (
    arith,
    bit_and_mask 16 base,
    bit_and_mask 16 (base / 2 ^ 16),
    bit_and_mask 32 (base / 2 ^ 32),
  );
  segment = refl;
  kind = refl;
  stack = refl;
}

set_gates_lem :
    (isr_table : ℕ → ℕ) (rounds i : ℕ) (idt : Table) (v : ℕ)
    → set_gates isr_table rounds i idt v
      ≡ (if leb i v && ltb v (i + rounds) then gate (isr_table v) 0x08 0x8E else idt v)
unfolding set_gates idt_set_gate
set_gates_lem isr_table zero i idt v = ground arith
set_gates_lem isr_table (suc rounds) i idt v =
    ground
      (arith, set_gates_lem isr_table rounds (i + 1) (idt_set_gate i (isr_table i) 0x08 0x8E idt) v)

-- The table after idt_init.
idt_init-cases :
    (isr_table : ℕ → ℕ) (idt : Table) (v : ℕ)
    → idt_init isr_table idt v ≡ (
        if v == 0x80
        then gate (isr_table v) 0x08 0xEE
        else if ltb v 48
        then gate (isr_table v) 0x08 0x8E
        else idt v)
unfolding idt_init idt_set_gate
idt_init-cases isr_table idt v = ground (
  arith,
  set_gates_lem isr_table 32 0 idt v,
  set_gates_lem isr_table 16 0x20 (set_gates isr_table 32 0 idt) v,
)

low_gate :
    (isr_table : ℕ → ℕ) (idt : Table) (v : ℕ)
    → v < 48
    → idt_init isr_table idt v ≡ gate (isr_table v) 0x08 0x8E
low_gate isr_table idt v h = ground (arith, idt_init-cases isr_table idt v, h)

-- After idt_init, from stubs at 64-bit addresses, every exception and every hardware interrupt has a
-- gate to the stub of its vector with the flags 0x8E, the system call one to its stub with the flags
-- 0xEE, each into the code segment of the kernel, and the other entries are as they were.
idt_init_lem :
    (isr_table : ℕ → ℕ) (idt : Table)
    → ((v : ℕ) → isr_table v < 2 ^ 64)
    → ((v : ℕ) → v < 48 → IsGate (isr_table v) 0x8E (idt_init isr_table idt v))
      × IsGate (isr_table 0x80) 0xEE (idt_init isr_table idt 0x80)
      × ((v : ℕ) → 48 ≤ v → v ≢ 0x80 → idt_init isr_table idt v ≡ idt v)
idt_init_lem isr_table idt small = (
  λ v h. rw (low_gate isr_table idt v h) (gate-IsGate (isr_table v) 0x8E (small v)),
  rw (idt_init-cases isr_table idt 0x80) (gate-IsGate (isr_table 0x80) 0xEE (small 0x80)),
  λ v h ne. ground (arith, idt_init-cases isr_table idt v, h, ne),
)
