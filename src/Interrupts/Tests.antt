-- ===== src/Interrupts/Tests.antt =====
-- Interrupts of a kernel with one process, and the theorems at them.
use nekonix.Base.{
  ℕ, ◌+◌, ◌*◌, ◌^◌, ◌%◌, ◌≡◌, ◌<◌, inl, inr, refl, true, false, some, none, [], ◌∷◌, ◌==◌,
  if◌then◌else◌, arith,
}
use nekonix.Base.Flags.{bit}
use nekonix.Scheduler.{Frame, Kernel, running, zero_frame}
use nekonix.Devices.{Key}
use nekonix.Interrupts.{
  Pic, Table, pic_mask, pic_unmask, pic_init, pic_configure, mask_all, pic_set_mask, idt_init,
  idt_set_gate, set_gates, gate,
}
use nekonix.Interrupts.Masks.{IsMasked, pic_mask_lem}
use nekonix.Interrupts.Gates.{target}
use nekonix.Interrupts.Dispatch.{
  Cpu, timer, keyboard, resumes, stops, idt_handler, dispatch, is_fatal, timer_init,
  idt_irq_register, set_handler,
}
use nekonix.Interrupts.Trains.{Arrivals, AreLines, IsWired, IsTrain, train, train-IsTrain}

abbrev pic : Pic
pic = record { mask = 0xFFFF; sent = [] }

pic_init_run : (pic_init pic).mask ≡ 0xFFFF
unfolding pic_init pic_configure mask_all pic_mask pic_set_mask
pic_init_run = refl

pic_mask_lem_example :
    ((j : ℕ)
      → j < 16
      → (bit (pic_mask 1 pic).mask j ≡ (if 1 == j then 1 else bit 0xFFFF j))
        × (bit (pic_unmask 1 pic).mask j ≡ (if 1 == j then 0 else bit 0xFFFF j)))
    × IsMasked (pic_mask 1 pic).mask [] (pic_mask 1 pic)
    × IsMasked (pic_unmask 1 pic).mask [] (pic_unmask 1 pic)
pic_mask_lem_example = pic_mask_lem 1 pic (omega arith)

abbrev stubs : ℕ → ℕ
stubs v = 0xFFFFFFFF80001000 + 16 * (v % 256)

abbrev no_gates : Table
no_gates v = record {
  offset_low = 0;
  selector = 0;
  ist = 0;
  flags = 0;
  offset_middle = 0;
  offset_high = 0;
  zero = 0;
}

timer_gate : target (idt_init stubs no_gates 0x20) ≡ 0xFFFFFFFF80001200
unfolding idt_init idt_set_gate set_gates gate
timer_gate = refl

stubs_fit : (v : ℕ) → stubs v < 2 ^ 64
stubs_fit v = omega arith

abbrev kernel : Kernel
kernel = record {
  processes = λ i. 0x10;
  process_count = 1;
  current_index = 0;
  tick_count = 0;
  pid_counter = 1;
  table = λ p. record { pid = 0; state = running; pagemap = 0; ctx = zero_frame; name = 0 };
  machine = record {
    stack = record { base = 0; pages = λ i. 0; idx = 0; max = 8 };
    memory = λ a. 0;
  };
  pagemap = 0;
}

abbrev no_key : Key
no_key = record { sym = 0; scancode = 0; released = false }

abbrev cpu : Cpu
cpu = record {
  system = record { kernel = kernel; registry = λ id. none; devices = no_key };
  pic = pic;
  handlers = λ i. if i == 0 then some timer else if i == 1 then some keyboard else none;
  panicked = false;
  tick_count = 0;
}

abbrev name_address : ℕ → ℕ
name_address n = 4096 + n

abbrev stopped : ℕ → Frame
stopped vector = record zero_frame { vector = vector }

page_fault :
    idt_handler name_address 1 0 (stopped 14) cpu ≡ some (stops (record cpu { panicked = true }))
unfolding idt_handler dispatch is_fatal
page_fault = refl

breakpoint : idt_handler name_address 1 0 (stopped 3) cpu ≡ some (resumes (stopped 3) cpu)
unfolding idt_handler dispatch is_fatal
breakpoint = refl

timer_registered : (timer_init 100 cpu).handlers 0 ≡ some timer
unfolding timer_init idt_irq_register set_handler
timer_registered = refl

-- A tick, a key and a tick.
abbrev arrivals : Arrivals
arrivals = (0, stopped 0x20) ∷ (0x1E, stopped 0x21) ∷ (0, stopped 0x20) ∷ []

cpu-IsWired : IsWired cpu
cpu-IsWired = record { timer_line = refl; keyboard_line = refl }

arrivals-AreLines : AreLines arrivals
arrivals-AreLines = (inl refl, (inr (refl, omega arith), (inl refl, tt)))

train-IsTrain_example :
    (last : Frame) × (c' : Cpu) × (train name_address 1 arrivals (stopped 0) cpu
      ≡ some (resumes last c'))
    × IsTrain name_address arrivals cpu c'
train-IsTrain_example =
    train-IsTrain name_address 1 arrivals (stopped 0) cpu-IsWired arrivals-AreLines
