-- ===== src/Scheduler.antt =====
-- The process list and the round-robin switch, kernel/src/proc/scheduler.c with
-- kernel/include/proc/scheduler.h and the frame of kernel/include/sys/idt.h. A process structure
-- stands in a page of its own; it is kept in a table by its address. `none` is the dereference of
-- a null pointer.
pub mod Switch
pub mod Rounds
pub mod Exit
pub mod Launch
mod Tests
use nekonix.Base.{
  ℕ, zero, suc, ◌+◌, ◌-◌, ◌*◌, ◌/◌, ◌%◌, ◌^◌, ◌≤◌, ◌<◌, ◌≡◌, Bool, true, false, not, ◌&&◌, Option,
  none, some, ltb, leb, ◌==◌, if◌then◌else◌, u32, u64, sub_u32,
}
use nekonix.Pmm.{Machine, store, request_page, free_page, higher_half}
use nekonix.Vmm.{new_pagemap, destroy_pagemap}

-- `int_frame_t`
pub record Frame : Type 0 where
  pub ds : ℕ
  pub cr2 : ℕ
  pub cr3 : ℕ
  pub r15 : ℕ
  pub r14 : ℕ
  pub r13 : ℕ
  pub r12 : ℕ
  pub r11 : ℕ
  pub r10 : ℕ
  pub r9 : ℕ
  pub r8 : ℕ
  pub rbp : ℕ
  pub rdi : ℕ
  pub rsi : ℕ
  pub rdx : ℕ
  pub rcx : ℕ
  pub rbx : ℕ
  pub rax : ℕ
  pub vector : ℕ
  pub err : ℕ
  pub rip : ℕ
  pub cs : ℕ
  pub rflags : ℕ
  pub rsp : ℕ
  pub ss : ℕ

pub data ProcessState : Type 0 where
  new running terminated : ProcessState

-- The name is kept by its address.
pub record Process : Type 0 where
  pub pid : ℕ
  pub state : ProcessState
  pub pagemap : ℕ
  pub ctx : Frame
  pub name : ℕ

abbrev pub max_processes : ℕ
max_processes = 256

-- The static `scheduler` and `pid_counter`, the process structures by address, the allocator, and
-- the page map that `cr3` was last loaded with.
pub record Kernel : Type 0 where
  pub processes : ℕ → ℕ
  pub process_count : ℕ
  pub current_index : ℕ
  pub tick_count : ℕ
  pub pid_counter : ℕ
  pub table : ℕ → Process
  pub machine : Machine
  pub pagemap : ℕ

abbrev pub zero_frame : Frame
zero_frame = record {
  ds = 0;
  cr2 = 0;
  cr3 = 0;
  r15 = 0;
  r14 = 0;
  r13 = 0;
  r12 = 0;
  r11 = 0;
  r10 = 0;
  r9 = 0;
  r8 = 0;
  rbp = 0;
  rdi = 0;
  rsi = 0;
  rdx = 0;
  rcx = 0;
  rbx = 0;
  rax = 0;
  vector = 0;
  err = 0;
  rip = 0;
  cs = 0;
  rflags = 0;
  rsp = 0;
  ss = 0;
}

-- `*p = v` on the process table
unfoldable pub put : (ℕ → Process) → ℕ → Process → ℕ → Process
put t p v q = if p == q then v else t q

module _ (hhdm_offset : ℕ) where
  -- The page of the structure comes zeroed, so the registers that are not set are 0.
  unfoldable pub process_create : ℕ → ℕ → ℕ → Kernel → ℕ × Kernel
  process_create entry pagemap name k =
      let (page, m1) = request_page hhdm_offset k.machine in
      let proc = higher_half hhdm_offset page in
      let (stack_page, m2) = request_page hhdm_offset m1 in
      let rsp = u64 (higher_half hhdm_offset stack_page + 4095) in
      let numbered = record k { pid_counter = u64 (k.pid_counter + 1); machine = m2 } in
      let started : Frame = record zero_frame { rip = entry; rsp = rsp } in
      let complete : Frame = record started { cs = 0x08; ss = 0x10; rflags = 0x202 } in
      if proc == 0
      then (0, record k { machine = m1 })
      else if rsp == 0
      then (
        0,
        record numbered {
          machine = free_page proc m2;
          table =
              put k.table proc
                (record { pid = k.pid_counter; state = new; pagemap = 0; ctx = started; name = 0 });
        },
      )
      else (
        proc,
        record numbered {
          table = put k.table proc (record {
            pid = k.pid_counter;
            state = new;
            pagemap = pagemap;
            ctx = complete;
            name = name;
          });
        },
      )

  -- The answer is -1 when the list is full.
  unfoldable pub create_process : ℕ → ℕ → ℕ → Kernel → Option (ℕ × Kernel)
  create_process kernel_pagemap entry name k =
      let (pagemap, m) = new_pagemap hhdm_offset kernel_pagemap k.machine in
      let (proc, k') = process_create entry pagemap name (record k { machine = m }) in
      let listed = record k' {
        processes = store k'.processes k'.process_count proc;
        process_count = u32 (k'.process_count + 1);
      } in
      if leb max_processes k.process_count
      then some (u64 (2 ^ 64 - 1), k)
      else if proc == 0
      then none
      else some ((listed.table proc).pid, listed)

unfoldable pub process_destroy : ℕ → Kernel → Kernel
process_destroy proc k =
    let p = k.table proc in
    let m1 = destroy_pagemap p.pagemap k.machine in
    let m2 = free_page p.pagemap m1 in
    let m3 = free_page p.ctx.rsp m2 in record k { machine = free_page proc m3 }

unfoldable pub init : Kernel → Kernel
init k = record k { process_count = 0; current_index = 0; tick_count = 0 }

abbrev pub is_running : ProcessState → Bool
is_running running = true
is_running _ = false

-- What stands in `process_t` of the process that is left, and of the one that is entered.
unfoldable pub save : Frame → ℕ → Kernel → Kernel
save frame p k =
    if not (p == 0) && is_running (k.table p).state
    then record k { table = put k.table p (record (k.table p) { ctx = frame }) }
    else k

unfoldable pub resume : Frame → ℕ → Kernel → Frame × Kernel
resume frame p k = if p == 0 then (frame, k) else (
  (k.table p).ctx,
  record k {
    table = put k.table p (record (k.table p) { state = running });
    pagemap = (k.table p).pagemap;
  },
)

unfoldable pub context_switch : Frame → Kernel → Frame × Kernel
context_switch frame k =
    let saved = save frame (k.processes k.current_index) k in
    let next = u32 (k.current_index + 1) % k.process_count in
    if k.process_count == 0
    then (frame, k)
    else resume frame (k.processes next) (record saved { current_index = next })

-- `for (i = current_index; i < process_count - 1; ++i) processes[i] = processes[i + 1]`
unfoldable pub shift_down : ℕ → ℕ → ℕ → (ℕ → ℕ) → ℕ → ℕ
shift_down zero i last ps = ps
shift_down (suc rounds) i last ps =
    let more = shift_down rounds (i + 1) last (store ps i (ps (i + 1))) in
    if ltb i last then more else ps

-- What `scheduler_terminate_current_process` comes back with; `idles` is the loop that halts for ever.
pub data Outcome : Type 0 where
  returns : Kernel → Outcome
  idles : Kernel → Outcome

unfoldable pub terminate_current_process : Kernel → Option Outcome
terminate_current_process k =
    let p = k.processes k.current_index in
    let marked = record k { table = put k.table p (record (k.table p) { state = terminated }) } in
    let freed = process_destroy p marked in
    let last = sub_u32 k.process_count 1 in
    let shifted = record freed {
      processes = shift_down max_processes k.current_index last k.processes;
      process_count = last;
    } in
    if p == 0
    then none
    else if not (is_running (k.table p).state)
    then some (returns k)
    else if last == 0
    then some (idles shifted)
    else some (returns (record shifted { current_index = k.current_index % last }))

unfoldable pub get_current_process : Kernel → ℕ
get_current_process k = if k.process_count == 0 then 0 else k.processes k.current_index
