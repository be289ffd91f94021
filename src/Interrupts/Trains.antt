-- ===== src/Interrupts/Trains.antt =====
-- Trains of hardware interrupts through idt_handler, against the ticks of the scheduler.
use nekonix.Base.{
  ℕ, zero, suc, ◌+◌, ◌*◌, ◌≡◌, ◌<◌, ◌∙◌, ◌⊎◌, inl, inr, ap, sym, refl, Option, none, some, List, [],
  ◌∷◌, ◌==◌, if◌then◌else◌, arith, bit_and, u64, length,
}
use nekonix.Scheduler.{Frame, context_switch}
use nekonix.Scheduler.Rounds.{ticks}
use nekonix.Devices.{Key, keyboard_handler}
use nekonix.Devices.Keyboard.{handler_some}
use nekonix.Interrupts.{Pic, pic_send_end_of_interrupt, pic1_command}
use nekonix.Interrupts.Dispatch.{
  Cpu, timer, keyboard, Outcome, resumes, stops, faults, dispatch, idt_handler, handle_irq,
  run_handler, timer_interrupt_handler,
}

-- The registers that each interrupt stops, with the byte at the keyboard's port.
abbrev pub Arrivals : Type 0
Arrivals = List (ℕ × Frame)

-- The timer, or the keyboard with a byte that the keymap reaches.
abbrev pub IsLine : ℕ → Frame → Type 0
IsLine byte frame = (frame.vector ≡ 0x20) ⊎ ((frame.vector ≡ 0x21) × (bit_and byte 0x7F < 0x59))

abbrev pub AreLines : Arrivals → Type 0
AreLines [] = Unit {0}
AreLines ((byte, frame) ∷ es) = IsLine byte frame × AreLines es

-- The frames that the timer stops.
abbrev pub timer_frames : Arrivals → List Frame
timer_frames [] = []
timer_frames ((byte, frame) ∷ es) =
    if frame.vector == 0x20 then frame ∷ timer_frames es else timer_frames es

-- The lines that the boot code registers.
pub record IsWired (c : Cpu) : Type 0 where
  pub timer_line : c.handlers 0 ≡ some timer
  pub keyboard_line : c.handlers 1 ≡ some keyboard

-- The bytes that end an interrupt on the first chip, as often as `n`.
abbrev pub ends : ℕ → List (ℕ × ℕ) → List (ℕ × ℕ)
ends zero before = before
ends (suc n) before = (pic1_command, 0x20) ∷ ends n before

module _ (name_address : ℕ → ℕ) where
  unfoldable pub train : ℕ → Arrivals → Frame → Cpu → Option Outcome
  train fuel [] out c = some (resumes out c)
  train fuel ((byte, frame) ∷ es) out c = elim (idt_handler name_address fuel byte frame c) [
    | none ↦ none
    | some (resumes next c') ↦ train fuel es next c'
    | some (stops c') ↦ some (stops c')
    | some faults ↦ some faults
  ]

  after_tick : Frame → Cpu → Cpu
  after_tick frame c = record c {
    system = record c.system { kernel = (context_switch frame c.system.kernel).1 };
    pic = pic_send_end_of_interrupt 0 (pic_send_end_of_interrupt 0 c.pic);
    tick_count = u64 (c.tick_count + 1);
  }

  timer_step :
      (fuel byte : ℕ) (frame : Frame) (c : Cpu)
      → frame.vector ≡ 0x20
      → c.handlers 0 ≡ some timer
      → idt_handler name_address fuel byte frame c
        ≡ some (resumes (context_switch frame c.system.kernel).0 (after_tick frame c))
  unfolding idt_handler dispatch timer_interrupt_handler after_tick
  timer_step fuel byte frame c v e =
      ap (λ n. dispatch name_address n fuel byte frame c) v ∙ rw (handle_irq, e) refl

  after_key : Key → Cpu → Cpu
  after_key key c = record c {
    system = record c.system { devices = key };
    pic = pic_send_end_of_interrupt 1 (pic_send_end_of_interrupt 1 c.pic);
  }

  keyboard_step :
      (fuel byte : ℕ) (frame : Frame) (c : Cpu) (key : Key)
      → frame.vector ≡ 0x21
      → c.handlers 1 ≡ some keyboard
      → keyboard_handler name_address byte ≡ some key
      → idt_handler name_address fuel byte frame c ≡ some (resumes frame (after_key key c))
  unfolding idt_handler dispatch after_key
  keyboard_step fuel byte frame c key v e k =
      ap (λ n. dispatch name_address n fuel byte frame c) v
      ∙ rw (handle_irq, e, run_handler, k) refl

  -- What a train leaves: the kernel as after the ticks of the timer alone, the count of the ticks,
  -- and two ends of interrupt for each of its interrupts.
  pub record IsTrain (es : Arrivals) (c c' : Cpu) : Type 0 where
    pub kernel : (out : Frame) → c'.system.kernel ≡ (ticks out (timer_frames es) c.system.kernel).1
    pub counted : u64 c'.tick_count ≡ u64 (c.tick_count + length (timer_frames es))
    pub ended : c'.pic.sent ≡ ends (2 * length es) c.pic.sent
    pub masked : c'.pic.mask ≡ c.pic.mask

  ends-more : (n : ℕ) (b : List (ℕ × ℕ)) → ends n (ends 2 b) ≡ ends (2 + n) b
  ends-more zero b = refl
  ends-more (suc n) b =
      ap (λ xs. (pic1_command, 0x20) ∷ xs) (ends-more n b)
      ∙ ap (λ k. ends k b) {x = suc (2 + n)} (omega arith)

  two_more : (n : ℕ) (b : List (ℕ × ℕ)) → ends (2 * n) (ends 2 b) ≡ ends (2 * suc n) b
  two_more n b = ends-more (2 * n) b ∙ ap (λ k. ends k b) (omega arith)

  timer_twice :
      (p : Pic) → (pic_send_end_of_interrupt 0 (pic_send_end_of_interrupt 0 p)).sent ≡ ends 2 p.sent
  unfolding pic_send_end_of_interrupt
  timer_twice p = refl

  key_twice :
      (p : Pic) → (pic_send_end_of_interrupt 1 (pic_send_end_of_interrupt 1 p)).sent ≡ ends 2 p.sent
  unfolding pic_send_end_of_interrupt
  key_twice p = refl

  timer_mask :
      (p : Pic) → (pic_send_end_of_interrupt 0 (pic_send_end_of_interrupt 0 p)).mask ≡ p.mask
  unfolding pic_send_end_of_interrupt
  timer_mask p = refl

  key_mask : (p : Pic) → (pic_send_end_of_interrupt 1 (pic_send_end_of_interrupt 1 p)).mask ≡ p.mask
  unfolding pic_send_end_of_interrupt
  key_mask p = refl

  after_tick-IsWired : (frame : Frame) {c : Cpu} → IsWired c → IsWired (after_tick frame c)
  unfolding after_tick
  after_tick-IsWired frame w = record { timer_line = w.timer_line; keyboard_line = w.keyboard_line }

  after_key-IsWired : (key : Key) {c : Cpu} → IsWired c → IsWired (after_key key c)
  unfolding after_key
  after_key-IsWired key w = record { timer_line = w.timer_line; keyboard_line = w.keyboard_line }

  frames-timer :
      (byte : ℕ) (frame : Frame) (es : Arrivals)
      → frame.vector ≡ 0x20
      → timer_frames ((byte, frame) ∷ es) ≡ frame ∷ timer_frames es
  frames-timer byte frame es v =
      ap (λ (n : ℕ). if n == 0x20 then frame ∷ timer_frames es else timer_frames es) v

  frames-keyboard :
      (byte : ℕ) (frame : Frame) (es : Arrivals)
      → frame.vector ≡ 0x21
      → timer_frames ((byte, frame) ∷ es) ≡ timer_frames es
  frames-keyboard byte frame es v =
      ap (λ (n : ℕ). if n == 0x20 then frame ∷ timer_frames es else timer_frames es) v

  tick-IsTrain :
      (byte : ℕ) (frame : Frame) (es : Arrivals) {c c' : Cpu}
      → frame.vector ≡ 0x20
      → IsTrain es (after_tick frame c) c'
      → IsTrain ((byte, frame) ∷ es) c c'
  unfolding after_tick ticks
  tick-IsTrain byte frame es {c} {c'} v t =
      let fs = frames-timer byte frame es v in
      record {
        kernel = λ out.
            t.kernel (context_switch frame c.system.kernel).0
            ∙ ap (λ l. (ticks out l c.system.kernel).1) (sym fs);
        counted = omega (arith, t.counted, ap length fs);
        ended =
            t.ended
            ∙ ap (ends (2 * length es)) (timer_twice c.pic)
            ∙ two_more (length es) c.pic.sent;
        masked = t.masked ∙ timer_mask c.pic;
      }

  key-IsTrain :
      (byte : ℕ) (frame : Frame) (es : Arrivals) (key : Key) {c c' : Cpu}
      → frame.vector ≡ 0x21
      → IsTrain es (after_key key c) c'
      → IsTrain ((byte, frame) ∷ es) c c'
  unfolding after_key
  key-IsTrain byte frame es key {c} {c'} v t =
      let fs = frames-keyboard byte frame es v in
      record {
        kernel = λ out. t.kernel out ∙ ap (λ l. (ticks out l c.system.kernel).1) (sym fs);
        counted = omega (arith, t.counted, ap length fs);
        ended =
            t.ended ∙ ap (ends (2 * length es)) (key_twice c.pic) ∙ two_more (length es) c.pic.sent;
        masked = t.masked ∙ key_mask c.pic;
      }

  -- Any train of interrupts of the timer and of the keyboard, with bytes that the keymap reaches, runs
  -- to its end on a kernel that has registered both handlers. It leaves the kernel as the ticks of the
  -- timer alone do, counts them, keeps the mask, and has ended each interrupt twice.
  pub train-IsTrain :
      (fuel : ℕ) (es : Arrivals) (out : Frame) {c : Cpu}
      → IsWired c
      → AreLines es
      → (last : Frame) × (c' : Cpu) × (train fuel es out c ≡ some (resumes last c'))
        × IsTrain es c c'
  unfolding train ticks
  train-IsTrain fuel [] out {c} w l = (
    out,
    c,
    refl,
    record { kernel = λ o. refl; counted = ap u64 (omega arith); ended = refl; masked = refl },
  )
  train-IsTrain fuel ((byte, frame) ∷ es) out {c} w (inl v, l) =
      let r =
        train-IsTrain fuel es (context_switch frame c.system.kernel).0 (after_tick-IsWired frame w)
          l in
      (
        r.0,
        r.1,
        rw (train, timer_step fuel byte frame c v w.timer_line) r.2,
        tick-IsTrain byte frame es v r.3,
      )
  train-IsTrain fuel ((byte, frame) ∷ es) out {c} w (inr (v, reached), l) =
      let (key, k) = handler_some name_address byte reached in
      let r = train-IsTrain fuel es frame (after_key-IsWired key w) l in
      (
        r.0,
        r.1,
        rw (train, keyboard_step fuel byte frame c key v w.keyboard_line k) r.2,
        key-IsTrain byte frame es key v r.3,
      )
