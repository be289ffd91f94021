-- ===== src/Interrupts/Dispatch.antt =====
-- What an interrupt runs: idt_handler and the table of handlers of kernel/src/sys/idt.c, with the
-- timer of kernel/src/main.c and the keyboard of kernel/src/devices/stdin.c behind their lines. Vector 1
-- is modelled as in the default build, where it resumes; built with _DEBUG, the kernel halts there.
use nekonix.Base.{
  ℕ, ◌+◌, ◌-◌, ◌/◌, ◌^◌, Bool, true, not, ◌&&◌, ◌||◌, Option, none, some, ltb, leb, ◌==◌,
  if◌then◌else◌, bit_and, u16, u64,
}
use nekonix.Scheduler.{Frame, context_switch}
use nekonix.Devices.{Key, keyboard_handler}
use nekonix.Syscalls.{System, returned, idle, faulted, syscall_handler}
use nekonix.Interrupts.{Pic, outb, pic_send_end_of_interrupt, pic_unmask}

-- The functions that handlers are registered for; a pointer to one is its name.
pub data Handler : Type 0 where
  timer keyboard : Handler

-- The kernel with the key as the state of its devices, and what belongs to interrupts.
pub record Cpu : Type 0 where
  pub system : System Key
  pub pic : Pic
  pub handlers : ℕ → Option Handler
  pub panicked : Bool
  pub tick_count : ℕ

-- The interrupt returns to the registers of a frame, or the kernel has stopped, or it has used a null
-- pointer or a place behind an array.
pub data Outcome : Type 0 where
  resumes : Frame → Cpu → Outcome
  stops : Cpu → Outcome
  faults : Outcome

-- `exception_info[v].fatal`
unfoldable pub is_fatal : ℕ → Bool
is_fatal v = not (v == 1 || v == 3)

unfoldable pub timer_interrupt_handler : Frame → Cpu → Frame × Cpu
timer_interrupt_handler frame c =
    let (next, kernel) = context_switch frame c.system.kernel in
    (
      next,
      record c {
        system = record c.system { kernel = kernel };
        pic = pic_send_end_of_interrupt 0 c.pic;
        tick_count = u64 (c.tick_count + 1);
      },
    )

unfoldable pub set_handler : ℕ → Option Handler → Cpu → Cpu
set_handler irq h c = record c { handlers = λ i. if irq == i then h else c.handlers i }

-- A negative number is a large one here, and is refused as well.
unfoldable pub idt_irq_register : ℕ → Handler → Cpu → Cpu
unfolding set_handler
idt_irq_register irq h c = if leb 16 irq then c else set_handler irq (some h) c

unfoldable pub idt_irq_deregister : ℕ → Cpu → Cpu
unfolding set_handler
idt_irq_deregister irq c = if leb 16 irq then c else set_handler irq none c

unfoldable pub timer_init : ℕ → Cpu → Cpu
timer_init frequency c =
    let used = if ltb frequency 18 || ltb 1000 frequency then 100 else frequency in
    let divisor = u16 (1193182 / used) in
    let set =
      outb 0x40 (bit_and (divisor / 2 ^ 8) 0xFF)
        (outb 0x40 (bit_and divisor 0xFF) (outb 0x43 0x36 c.pic)) in
    idt_irq_register 0 timer (record c { pic = pic_unmask 0 set })

module _ (name_address : ℕ → ℕ) where
  -- The keyboard's handler stores the key and ends the interrupt; `byte` is what its port gives.
  unfoldable pub run_handler : Handler → ℕ → Frame → Cpu → Outcome
  run_handler timer byte frame c =
      let (next, c') = timer_interrupt_handler frame c in resumes next c'
  run_handler keyboard byte frame c = elim (keyboard_handler name_address byte) [
    | none ↦ faults
    | some key ↦ resumes frame (record c {
      system = record c.system { devices = key };
      pic = pic_send_end_of_interrupt 1 c.pic;
    })
  ]

  -- A hardware interrupt.
  unfoldable pub handle_irq : ℕ → ℕ → Frame → Cpu → Outcome
  unfolding run_handler
  handle_irq irq byte frame c = elim (c.handlers irq) [
    | none ↦ resumes frame (record c { pic = pic_send_end_of_interrupt irq c.pic })
    | some h ↦ elim (run_handler h byte frame c) [
      | resumes f c' ↦ resumes f (record c' { pic = pic_send_end_of_interrupt irq c'.pic })
      | stops c' ↦ stops c'
      | faults ↦ faults
    ]
  ]

  -- A system call; its answer is dropped.
  unfoldable pub handle_call : ℕ → Frame → Cpu → Option Outcome
  handle_call fuel frame c = elim (syscall_handler fuel frame c.system) [
    | none ↦ none
    | some (returned result f system) ↦ some (resumes f (record c { system = system }))
    | some (idle system) ↦ some (stops (record c { system = system }))
    | some faulted ↦ some faults
  ]

  -- The branches on `frame.vector`.
  unfoldable pub dispatch : ℕ → ℕ → ℕ → Frame → Cpu → Option Outcome
  unfolding handle_irq handle_call
  dispatch vector fuel byte frame c =
      if ltb vector 32
      then (if is_fatal vector
          then some (stops (record c { panicked = true }))
          else some (resumes frame c))
      else if leb 0x20 vector && ltb vector 0x30
      then some (handle_irq (vector - 0x20) byte frame c)
      else if vector == 0x80
      then handle_call fuel frame c
      else some (resumes frame c)

  unfoldable pub idt_handler : ℕ → ℕ → Frame → Cpu → Option Outcome
  idt_handler fuel byte frame c = dispatch frame.vector fuel byte frame c
