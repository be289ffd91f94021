-- ===== src/Syscalls/Frames.antt =====
-- What a system call leaves in the registers of its caller, and when it comes back.
use native.Mathlib.Decide.{ℕ_discrete}
use nekonix.Base.{
  ℕ, zero, suc, ◌≡◌, ◌≢◌, ◌≤◌, ◌⊎◌, inl, inr, refl, subst, ◌∙◌, Bool-cases, Option-cases, Option,
  none, some, ◌==◌, false, ==_iff, u32, arith,
}
use nekonix.Scheduler.{Frame, Outcome, running, terminate_current_process}
use nekonix.Scheduler.Switch.{IsScheduled, process_at}
use nekonix.Scheduler.Exit.{terminate-Exited}
use nekonix.Devices.{Handle, device_get, busy}
use nekonix.Syscalls.{
  System, Reply, returned, idle, faulted, wait_ready, exit_call, write_call, read_call, poll_call,
  syscall_handler,
}

ne-test : (a b : ℕ) → a ≢ b → (a == b) ≡ false
ne-test a b h = ground (arith, h)

module _ {S : Type 0} where
  -- The caller's registers are what they were, but that a read leaves its answer in rax.
  abbrev pub KeepsFrame : Frame → Reply S → Type 0
  KeepsFrame frame (returned result f s) =
      (f ≡ frame) ⊎ ((frame.rax ≡ 3) × (f ≡ record frame { rax = result }))
  KeepsFrame frame (idle s) = Unit {0}
  KeepsFrame frame faulted = Unit {0}

  -- The devices do not change while a call waits.
  waits_for_ever :
      (fuel : ℕ) (device : Handle S) (frame : Frame) (sys : System S)
      → device.poll sys.devices ≡ busy
      → wait_ready fuel device frame sys ≡ none
  unfolding wait_ready
  waits_for_ever zero device frame sys h = refl
  waits_for_ever (suc fuel) device frame sys h = rw h (waits_for_ever fuel device _ _ h)

  ready_at_once :
      (fuel : ℕ) (device : Handle S) (frame : Frame) (sys : System S)
      → device.poll sys.devices ≢ busy
      → wait_ready (suc fuel) device frame sys ≡ some (frame, sys)
  unfolding wait_ready
  ready_at_once fuel device frame sys h = rw (ne-test _ _ h) refl

  exit-KeepsFrame : (frame : Frame) (sys : System S) → KeepsFrame frame (exit_call frame sys)
  unfolding exit_call
  exit-KeepsFrame frame sys = elim (Option-cases (terminate_current_process sys.kernel)) [
    | inl e ↦ rw (exit_call, e) tt
    | inr (Outcome.idles kernel, e) ↦ rw (exit_call, e) tt
    | inr (Outcome.returns kernel, e) ↦ rw (exit_call, e) (inl refl)
  ]

  read-KeepsFrame :
      (frame : Frame) (sys : System S) → frame.rax ≡ 3 → KeepsFrame frame (read_call frame sys)
  unfolding read_call
  read-KeepsFrame frame sys h = elim (Option-cases (device_get (u32 frame.rdi) sys.registry)) [
    | inl e ↦ rw (read_call, e) (inl refl)
    | inr (device, e) ↦ rw (read_call, e) (inr (h, refl))
  ]

  poll-KeepsFrame : (frame : Frame) (sys : System S) → KeepsFrame frame (poll_call frame sys)
  unfolding poll_call
  poll-KeepsFrame frame sys = elim (Option-cases (device_get (u32 frame.rdi) sys.registry)) [
    | inl e ↦ rw (poll_call, e) tt
    | inr (device, e) ↦ rw (poll_call, e) (inl refl)
  ]

  abbrev KeepsFrame? : Frame → Option (Reply S) → Type 0
  KeepsFrame? frame none = Unit {0}
  KeepsFrame? frame (some r) = KeepsFrame frame r

  -- A write that ends has found its device ready, and has not switched.
  write-KeepsFrame :
      (fuel : ℕ) (frame : Frame) (sys : System S) → KeepsFrame? frame (write_call fuel frame sys)
  unfolding write_call wait_ready
  write-KeepsFrame fuel frame sys = elim (Option-cases (device_get (u32 frame.rdi) sys.registry)) [
    | inl e ↦ rw (write_call, e) (inl refl)
    | inr (device, e) ↦ elim (ℕ_discrete (device.poll sys.devices) busy) [
      | yes h ↦ rw (write_call, e, waits_for_ever fuel device frame sys h) tt
      | no h ↦ elim fuel as (λ n. KeepsFrame? frame (write_call n frame sys)) [
        | zero ↦ rw (write_call, e) tt
        | suc n ↦ rw (write_call, e, ready_at_once n device frame sys h) (inl refl)
      ]
    ]
  ]

  handler-KeepsFrame :
      (fuel : ℕ) (frame : Frame) (sys : System S)
      → KeepsFrame? frame (syscall_handler fuel frame sys)
  unfolding syscall_handler
  handler-KeepsFrame fuel frame sys = elim (Bool-cases (frame.rax == 1)) [
    | inl n ↦ rw n (exit-KeepsFrame frame sys)
    | inr not_exit ↦ elim (Bool-cases (frame.rax == 2)) [
      | inl n ↦ rw (not_exit, n) (write-KeepsFrame fuel frame sys)
      | inr not_write ↦ elim (Bool-cases (frame.rax == 3)) [
        | inl n ↦ rw (not_exit, not_write, n) (read-KeepsFrame frame sys ((==_iff _ _).0 n))
        | inr not_read ↦ elim (Bool-cases (frame.rax == 4)) [
          | inl n ↦ rw (not_exit, not_write, not_read, n) (poll-KeepsFrame frame sys)
          | inr other ↦ rw (not_exit, not_write, not_read, other) (inl refl)
        ]
      ]
    ]
  ]

  -- Every system call that comes back leaves the registers of its caller as they were, and only a
  -- read leaves its answer in rax: the answer of a poll is lost.
  pub syscall_handler-KeepsFrame :
      (fuel : ℕ) (frame : Frame) (sys : System S) (r : Reply S)
      → syscall_handler fuel frame sys ≡ some r
      → KeepsFrame frame r
  syscall_handler-KeepsFrame fuel frame sys r h =
      subst (KeepsFrame? frame) h (handler-KeepsFrame fuel frame sys)

  handler_write :
      (fuel : ℕ) (frame : Frame) (sys : System S)
      → frame.rax ≡ 2
      → syscall_handler fuel frame sys ≡ write_call fuel frame sys
  unfolding syscall_handler
  handler_write fuel frame sys call = ground (arith, call)

  -- A write to a device that is busy never ends, however long it waits.
  pub write_hangs :
      (fuel : ℕ) (frame : Frame) (sys : System S) (device : Handle S)
      → frame.rax ≡ 2
      → device_get (u32 frame.rdi) sys.registry ≡ some device
      → device.poll sys.devices ≡ busy
      → syscall_handler fuel frame sys ≡ none
  unfolding write_call
  write_hangs fuel frame sys device call found h =
      handler_write fuel frame sys call
      ∙ rw (write_call, found, waits_for_ever fuel device frame sys h) refl

  -- The call returns to its caller.
  abbrev Returns : Frame → System S → Option (Reply S) → Type 0
  Returns frame sys answer =
      (result : ℕ) × (f : Frame) × (s : System S) × (answer ≡ some (returned result f s))

  write-Returns :
      (frame : Frame) (sys : System S)
      → ((device : Handle S)
          → device_get (u32 frame.rdi) sys.registry ≡ some device
          → device.poll sys.devices ≢ busy)
      → Returns frame sys (write_call 1 frame sys)
  unfolding write_call
  write-Returns frame sys ready = elim (Option-cases (device_get (u32 frame.rdi) sys.registry)) [
    | inl e ↦ (0, frame, sys, rw (write_call, e) refl)
    | inr (device, e) ↦ (
      0,
      frame,
      record sys { devices = device.write frame.rsi frame.rdx sys.devices },
      rw (write_call, e, ready_at_once 0 device frame sys (ready device e)) refl,
    )
  ]

  exit-Returns :
      (frame : Frame) (sys : System S)
      → IsScheduled sys.kernel
      → (process_at sys.kernel sys.kernel.current_index).state ≡ running
      → 2 ≤ sys.kernel.process_count
      → Returns frame sys (some (exit_call frame sys))
  unfolding exit_call
  exit-Returns frame sys scheduled runs two =
      let (k', ended, _) = terminate-Exited scheduled runs two in
      (0, frame, record sys { kernel = k' }, rw (exit_call, ended) refl)

  read-Returns : (frame : Frame) (sys : System S) → Returns frame sys (some (read_call frame sys))
  unfolding read_call
  read-Returns frame sys = elim (Option-cases (device_get (u32 frame.rdi) sys.registry)) [
    | inl e ↦ (0, frame, sys, rw (read_call, e) refl)
    | inr (device, e) ↦
        let (result, devices) = device.read frame.rsi sys.devices in
        (
          result,
          record frame { rax = result },
          record sys { devices = devices },
          rw (read_call, e) refl,
        )
  ]

  poll-Returns :
      (frame : Frame) (sys : System S) (device : Handle S)
      → device_get (u32 frame.rdi) sys.registry ≡ some device
      → Returns frame sys (some (poll_call frame sys))
  unfolding poll_call
  poll-Returns frame sys device e = (device.poll sys.devices, frame, sys, rw (poll_call, e) refl)

  handler_exit :
      (frame : Frame) (sys : System S)
      → frame.rax ≡ 1
      → syscall_handler 1 frame sys ≡ some (exit_call frame sys)
  unfolding syscall_handler
  handler_exit frame sys call = ground (arith, call)

  handler_read :
      (frame : Frame) (sys : System S)
      → frame.rax ≡ 3
      → syscall_handler 1 frame sys ≡ some (read_call frame sys)
  unfolding syscall_handler
  handler_read frame sys call = ground (arith, call)

  handler_poll :
      (frame : Frame) (sys : System S)
      → frame.rax ≡ 4
      → syscall_handler 1 frame sys ≡ some (poll_call frame sys)
  unfolding syscall_handler
  handler_poll frame sys call = ground (arith, call)

  -- Every system call returns to its caller, with fuel for one look at the device, where: for an exit, the
  -- process is running and not the last one of a well-formed list; for a write, the device is not busy, if
  -- there is one; for a poll, there is a device.
  pub syscall_handler-returns :
      (frame : Frame) (sys : System S)
      → (frame.rax ≡ 1
          → IsScheduled sys.kernel
            × ((process_at sys.kernel sys.kernel.current_index).state ≡ running)
            × (2 ≤ sys.kernel.process_count))
      → (frame.rax ≡ 2
          → (device : Handle S) → device_get (u32 frame.rdi) sys.registry ≡ some device
          → device.poll sys.devices ≢ busy)
      → (frame.rax ≡ 4
          → (device : Handle S) × (device_get (u32 frame.rdi) sys.registry ≡ some device))
      → (result : ℕ) × (f : Frame) × (s : System S) × (syscall_handler 1 frame sys
          ≡ some (returned result f s))
  unfolding syscall_handler
  syscall_handler-returns frame sys exits writes polls = elim (ℕ_discrete frame.rax 1) [
    | yes call ↦
        let (scheduled, runs, two) = exits call in
        let (r, f, s, e) = exit-Returns frame sys scheduled runs two in
        (r, f, s, handler_exit frame sys call ∙ e)
    | no not_exit ↦ elim (ℕ_discrete frame.rax 2) [
      | yes call ↦
          let (r, f, s, e) = write-Returns frame sys (writes call) in
          (r, f, s, handler_write 1 frame sys call ∙ e)
      | no not_write ↦ elim (ℕ_discrete frame.rax 3) [
        | yes call ↦
            let (r, f, s, e) = read-Returns frame sys in (r, f, s, handler_read frame sys call ∙ e)
        | no not_read ↦ elim (ℕ_discrete frame.rax 4) [
          | yes call ↦
              let (device, found) = polls call in
              let (r, f, s, e) = poll-Returns frame sys device found in
              (r, f, s, handler_poll frame sys call ∙ e)
          | no other ↦ (
            0,
            frame,
            sys,
            rw
                (
                  syscall_handler,
                  ne-test _ _ not_exit,
                  ne-test _ _ not_write,
                  ne-test _ _ not_read,
                  ne-test _ _ other,
                )
                refl,
          )
        ]
      ]
    ]
  ]
