-- ===== src/Syscalls/Tests.antt =====
-- System calls of one process with a device that is ready and one that is not.
use nekonix.Base.{ℕ, ◌≡◌, ◌+◌, refl, none, some, ◌==◌, if◌then◌else◌, arith, u32}
use nekonix.Scheduler.{Frame, Kernel, running, zero_frame}
use nekonix.Scheduler.Switch.{IsScheduled}
use nekonix.Devices.{Handle, busy, ready, device_get}
use nekonix.Syscalls.{System, returned, syscall_handler, wait_ready, write_call, poll_call}
use nekonix.Syscalls.Frames.{
  KeepsFrame, syscall_handler-KeepsFrame, write_hangs, syscall_handler-returns,
}

abbrev kernel : Kernel
kernel = record {
  processes = λ i. 0x10;
  process_count = 1;
  current_index = 0;
  tick_count = 0;
  pid_counter = 1;
  table = λ p. record { pid = 0; state = running; pagemap = 0; ctx = zero_frame; name = 0 };
  machine = record {
    stack = record { base = 0; pages = λ i. 0; idx = 0; max = 8 };
    memory = λ a. 0;
  };
  pagemap = 0;
}

-- Device 0 counts what is written to it; device 1 is never ready.
abbrev device : ℕ → Handle ℕ
device n = record {
  id = n;
  poll = λ s. if n == 0 then ready else busy;
  read = λ buf s. (7, s);
  write = λ buf count s. s + count;
}

abbrev system : System ℕ
system = record { kernel = kernel; registry = λ id. some (device id); devices = 0 }

abbrev call : ℕ → ℕ → Frame
call number id = record zero_frame { rax = number; rdi = id; rsi = 4096; rdx = 5 }

write_runs :
    syscall_handler 1 (call 2 0) system
    ≡ some (returned 0 (call 2 0) (record system { devices = 5 }))
unfolding syscall_handler write_call wait_ready device_get
write_runs = refl

poll_runs : syscall_handler 1 (call 4 1) system ≡ some (returned busy (call 4 1) system)
unfolding syscall_handler poll_call device_get
poll_runs = refl

syscall_handler-KeepsFrame_example : KeepsFrame (call 4 1) (returned busy (call 4 1) system)
syscall_handler-KeepsFrame_example =
    syscall_handler-KeepsFrame 1 (call 4 1) system (returned busy (call 4 1) system) poll_runs

found : device_get (u32 1) system.registry ≡ some (device 1)
unfolding device_get
found = refl

write_hangs_example : syscall_handler 100 (call 2 1) system ≡ none
write_hangs_example = write_hangs 100 (call 2 1) system (device 1) refl found refl

-- The same with two processes, the first of which ends.
abbrev busy_kernel : Kernel
busy_kernel = record kernel { processes = λ i. if i == 0 then 0x10 else 0x20; process_count = 2 }

abbrev two_processes : System ℕ
two_processes = record system { kernel = busy_kernel }

two-IsScheduled : IsScheduled busy_kernel
two-IsScheduled = record {
  occupied = omega arith;
  bounded = omega arith;
  in_list = omega arith;
  nonnull = λ i h. ground arith;
  distinct = λ i j h g e. ground arith;
}

syscall_handler-returns_example :
    (result : ℕ) × (f : Frame) × (s : System ℕ) × (syscall_handler 1 (call 1 0) two_processes
      ≡ some (returned result f s))
syscall_handler-returns_example =
    syscall_handler-returns (call 1 0) two_processes (λ e. (two-IsScheduled, refl, omega arith))
      (λ e d found. absurd (omega (arith, e))) (λ e. absurd (omega (arith, e)))
