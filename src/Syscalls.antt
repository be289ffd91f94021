-- ===== src/Syscalls.antt =====
-- The system calls, kernel/src/sys/syscall.c, between the scheduler and the devices. A system call
-- runs with interrupts off, so that nothing but the call changes the state of a device meanwhile.
pub mod Frames
mod Tests
use nekonix.Base.{ℕ, zero, suc, ◌≡◌, Option, none, some, ◌==◌, if◌then◌else◌, u32}
use nekonix.Scheduler.{Frame, Kernel, Outcome, context_switch, terminate_current_process}
use nekonix.Devices.{Handle, Registry, device_get, busy}

pub record System (S : Type 0) : Type 0 where
  pub kernel : Kernel
  pub registry : Registry S
  pub devices : S

-- The answer with the registers that the interrupt returns to; a kernel that idles for ever after
-- the last process; or the use of a null pointer.
pub data Reply (S : Type 0) : Type 0 where
  returned : ℕ → Frame → System S → Reply S
  idle : System S → Reply S
  faulted : Reply S

module _ {S : Type 0} where
  -- `while (device->poll() == DEVICE_BUSY) scheduler_context_switch(frame);`
  unfoldable pub wait_ready : ℕ → Handle S → Frame → System S → Option (Frame × System S)
  wait_ready zero device frame sys = none
  wait_ready (suc fuel) device frame sys =
      let (next, kernel) = context_switch frame sys.kernel in
      let rest = wait_ready fuel device next (record sys { kernel = kernel }) in
      if device.poll sys.devices == busy then rest else some (frame, sys)

  unfoldable pub exit_call : Frame → System S → Reply S
  exit_call frame sys = elim (terminate_current_process sys.kernel) [
    | none ↦ faulted
    | some (Outcome.idles kernel) ↦ idle (record sys { kernel = kernel })
    | some (Outcome.returns kernel) ↦ returned 0 frame (record sys { kernel = kernel })
  ]

  unfoldable pub write_call : ℕ → Frame → System S → Option (Reply S)
  write_call fuel frame sys = elim (device_get (u32 frame.rdi) sys.registry) [
    | none ↦ some (returned 0 frame sys)
    | some device ↦ elim (wait_ready fuel device frame sys) [
      | none ↦ none
      | some (f, s) ↦
          some (returned 0 f (record s { devices = device.write f.rsi f.rdx s.devices }))
    ]
  ]

  unfoldable pub read_call : Frame → System S → Reply S
  read_call frame sys = elim (device_get (u32 frame.rdi) sys.registry) [
    | none ↦ returned 0 frame sys
    | some device ↦
        let (result, devices) = device.read frame.rsi sys.devices in
        returned result (record frame { rax = result }) (record sys { devices = devices })
  ]

  unfoldable pub poll_call : Frame → System S → Reply S
  poll_call frame sys = elim (device_get (u32 frame.rdi) sys.registry) [
    | none ↦ faulted
    | some device ↦ returned (device.poll sys.devices) frame sys
  ]

  -- `switch (frame->rax)`; `none` is a call that is still waiting when the fuel ends.
  unfoldable pub syscall_handler : ℕ → Frame → System S → Option (Reply S)
  unfolding exit_call write_call read_call poll_call
  syscall_handler fuel frame sys =
      if frame.rax == 1
      then some (exit_call frame sys)
      else if frame.rax == 2
      then write_call fuel frame sys
      else if frame.rax == 3
      then some (read_call frame sys)
      else if frame.rax == 4
      then some (poll_call frame sys)
      else some (returned 0 frame sys)
