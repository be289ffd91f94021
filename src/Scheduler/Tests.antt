-- ===== src/Scheduler/Tests.antt =====
-- Two processes, and the theorems at them.
use nekonix.Base.{
  ℕ, suc, ◌*◌, ◌<◌, ◌≡◌, refl, List, [], ◌∷◌, ◌==◌, if◌then◌else◌, arith, length, some,
}
use nekonix.Pmm.{free_page, push, store}
use nekonix.Pmm.Pages.{free_list}
use nekonix.Vmm.{destroy_pagemap}
use nekonix.Scheduler.{
  Frame, running, Process, Kernel, zero_frame, put, save, resume, context_switch,
  terminate_current_process, process_destroy, shift_down, returns,
}
use nekonix.Scheduler.Switch.{IsScheduled, process_at}
use nekonix.Scheduler.Rounds.{ticks, resume-save, ticks-reach}
use nekonix.Scheduler.Exit.{Exited, terminate-Exited, exit_overwrites, process_destroy-free_list}

abbrev frame_at : ℕ → Frame
frame_at pc = record zero_frame { rip = pc }

abbrev process : ℕ → Process
process n = record {
  pid = n;
  state = running;
  pagemap = 0x1000 * n;
  ctx = record zero_frame { rip = 100 * n; rsp = 8 };
  name = 0;
}

abbrev listed : ℕ → Kernel
listed n = record {
  processes = λ i. if i == 0 then 0x10 else if i == 1 then 0x20 else 0;
  process_count = n;
  current_index = 0;
  tick_count = 0;
  pid_counter = 3;
  table = λ p. if p == 0x10 then process 1 else process 2;
  machine = record {
    stack = record { base = 0; pages = λ i. 0; idx = 0; max = 8 };
    memory = λ a. 0;
  };
  pagemap = 0x1000;
}

two-IsScheduled : IsScheduled (listed 2)
two-IsScheduled = record {
  occupied = omega arith;
  bounded = omega arith;
  in_list = omega arith;
  nonnull = λ i h. ground arith;
  distinct = λ i j h g e. ground arith;
}

one-IsScheduled : IsScheduled (listed 1)
one-IsScheduled = record {
  occupied = omega arith;
  bounded = omega arith;
  in_list = omega arith;
  nonnull = λ i h. ground arith;
  distinct = λ i j h g e. omega arith;
}

switch_runs : (context_switch (frame_at 5) (listed 2)).0.rip ≡ 200
unfolding context_switch save resume put
switch_runs = refl

resume-save_example : (ticks (frame_at 5) (frame_at 5 ∷ frame_at 6 ∷ []) (listed 2)).0 ≡ frame_at 5
resume-save_example = resume-save (frame_at 6 ∷ []) (frame_at 5) two-IsScheduled refl refl

ticks-reach_example :
    (n : ℕ) × (n < 2)
    × ((fs : List Frame) (out : Frame)
        → length fs ≡ suc n
        → (ticks out fs (listed 2)).1.current_index ≡ 1)
ticks-reach_example = ticks-reach 1 two-IsScheduled (omega arith)

terminate-Exited_example :
    (k : Kernel) × (terminate_current_process (listed 2) ≡ some (returns k)) × Exited (listed 2) k
terminate-Exited_example = terminate-Exited two-IsScheduled refl (omega arith)

exit_overwrites_example :
    (k : Kernel) × (terminate_current_process (listed 2) ≡ some (returns k))
    × (k.processes k.current_index ≡ 0x20)
    × ((k.table 0x20).ctx ≡ (process 2).ctx)
    × (((context_switch (frame_at 5) k).1.table 0x20).ctx ≡ frame_at 5)
exit_overwrites_example = exit_overwrites two-IsScheduled refl (frame_at 5) (omega arith) refl

-- The second process loses the registers that it was stopped with.
exit_loses_registers :
    (k : Kernel) × (terminate_current_process (listed 2) ≡ some (returns k))
    × ((process_at (context_switch (frame_at 5) k).1 k.current_index).ctx.rip ≡ 5)
unfolding terminate_current_process process_destroy destroy_pagemap free_page push put store
    shift_down context_switch save resume
exit_loses_registers = (_, refl, refl)

process_destroy-free_list_example :
    free_list (process_destroy 0x20 (listed 2)).machine ≡ 0x20 ∷ 8 ∷ 0x2000 ∷ 0x2000 ∷ []
process_destroy-free_list_example =
    process_destroy-free_list 0x20 (listed 2) (omega arith) (omega arith) (omega arith)
      (omega arith)
