-- ===== src/Scheduler/Exit.antt =====
-- `scheduler_terminate_current_process`: what leaves the list, and what is given back.
use native.Mathlib.Nat.{mod-eq_of_lt, mod_self}
use nekonix.Base.{
  ℕ, zero, suc, ◌+◌, ◌%◌, ◌≤◌, ◌<◌, ◌≡◌, ◌≢◌, ◌∙◌, ap, refl, true, false, ◌&&◌, some, ltb, leb,
  ◌==◌, if◌then◌else◌, sub_u32, ◌∷◌, length, arith, subst, sym, inl, inr, Bool-cases,
}
use nekonix.Pmm.{Machine, store, free_page}
use nekonix.Pmm.Pages.{free_list, push_list, free_page_refines}
use nekonix.Vmm.{destroy_pagemap}
use nekonix.Scheduler.{
  Frame, running, terminated, Kernel, put, process_destroy, context_switch, shift_down, returns,
  idles, terminate_current_process, max_processes,
}
use nekonix.Scheduler.Switch.{
  IsScheduled, process_at, following, put_other, context_switch-Switched,
}

-- The list without its entry `i`.
abbrev pub without : ℕ → (ℕ → ℕ) → ℕ → ℕ
without i ps j = if ltb j i then ps j else ps (j + 1)

-- The loop moves the entries from `i` on one place down, as far as `last`.
shift_down_lem :
    (rounds i last : ℕ) (ps : ℕ → ℕ) (j : ℕ)
    → last ≤ i + rounds
    → shift_down rounds i last ps j ≡ (if leb i j && ltb j last then ps (j + 1) else ps j)
unfolding shift_down store
shift_down_lem zero i last ps j h = ground arith
shift_down_lem (suc rounds) i last ps j h =
    ground (arith, shift_down_lem rounds (i + 1) last (store ps i (ps (i + 1))) j)

abbrev pub current : Kernel → ℕ
current k = k.processes k.current_index

-- The kernel whose current process is marked, and the one whose pages are given back.
abbrev marked : Kernel → Kernel
marked k = record k {
  table = put k.table (current k) (record (k.table (current k)) { state = terminated });
}

abbrev pub freed : Kernel → Kernel
freed k = process_destroy (current k) (marked k)

abbrev left : Kernel → Kernel
left k = record (freed k) {
  processes = shift_down max_processes k.current_index (sub_u32 k.process_count 1) k.processes;
  process_count = sub_u32 k.process_count 1;
}

abbrev resumed : Kernel → Kernel
resumed k = record (left k) { current_index = k.current_index % sub_u32 k.process_count 1 }

-- What a process that ends leaves behind.
pub record Exited (k k' : Kernel) : Type 0 where
  pub scheduled : IsScheduled k'
  pub count : k'.process_count + 1 ≡ k.process_count
  pub index : k'.current_index ≡ k.current_index % k'.process_count
  pub list : (j : ℕ) → j < k'.process_count → k'.processes j ≡ without k.current_index k.processes j
  pub machine : k'.machine ≡ (freed k).machine

module _ {k : Kernel} (s : IsScheduled k) where
  last_lem : sub_u32 k.process_count 1 + 1 ≡ k.process_count
  last_lem = omega (arith, s.occupied, s.bounded)

  shifted_lem :
      (j : ℕ)
      → j < sub_u32 k.process_count 1
      → (left k).processes j ≡ without k.current_index k.processes j
  shifted_lem j h = ground (
    arith,
    s.bounded,
    s.in_list,
    last_lem,
    shift_down_lem max_processes k.current_index (sub_u32 k.process_count 1) k.processes j,
  )

  null_test : (current k == 0) ≡ false
  null_test = ground (arith, s.nonnull k.current_index s.in_list)

  resumed-IsScheduled : 2 ≤ k.process_count → IsScheduled (resumed k)
  resumed-IsScheduled two = record {
    occupied = omega (arith, last_lem);
    bounded = omega (arith, last_lem, s.bounded);
    in_list = omega (arith, last_lem);
    nonnull =
        λ i h. rw (shifted_lem i h) (ground (arith, last_lem, s.nonnull i, s.nonnull (i + 1)));
    distinct = λ i j hi hj e. ground (
      arith,
      last_lem,
      shifted_lem i hi,
      shifted_lem j hj,
      s.distinct i j,
      s.distinct (i + 1) j,
      s.distinct i (j + 1),
      s.distinct (i + 1) (j + 1),
    );
  }

  -- The process that takes the place of the one that ends is the next one of the list.
  heir_lem : 2 ≤ k.process_count → current (resumed k) ≡ k.processes (following k)
  heir_lem two =
      let last = sub_u32 k.process_count 1 in
      shifted_lem (k.current_index % last) (omega (arith, last_lem, two))
      ∙ elim (Bool-cases (ltb k.current_index last)) [
        | inl inside ↦
            let small : k.current_index < last = ground (arith, inside) in
            let here : k.current_index % last ≡ k.current_index = mod-eq_of_lt small in
            let next : following k ≡ k.current_index + 1 =
              mod-eq_of_lt (omega (arith, small, last_lem)) in
            rw (here, next) (ground arith)
        | inr at_end ↦
            let same : k.current_index ≡ last = ground (arith, at_end, last_lem, s.in_list) in
            let here : k.current_index % last ≡ 0 = ap (λ i. i % last) same ∙ mod_self _ in
            let next : following k ≡ 0 =
              ap (λ i. i % k.process_count) (omega (arith, same, last_lem)) ∙ mod_self _ in
            rw (here, next) (ground (arith, same, last_lem, two))
      ]

  heir-ne : 2 ≤ k.process_count → current k ≢ k.processes (following k)
  heir-ne two e =
      let place =
        s.distinct k.current_index (following k) s.in_list (omega (arith, s.occupied)) e in
      elim (Bool-cases (ltb (k.current_index + 1) k.process_count)) [
        | inl inside ↦
            let small : k.current_index + 1 < k.process_count = ground (arith, inside) in
            let next : following k ≡ k.current_index + 1 = mod-eq_of_lt small in
            omega (arith, place, next)
        | inr at_end ↦
            let same : k.process_count ≡ k.current_index + 1 = ground (arith, at_end, s.in_list) in
            let next : following k ≡ 0 = ap (λ i. i % k.process_count) (sym same) ∙ mod_self _ in
            omega (arith, place, next, same, two)
      ]

  -- The structure of every other process stays.
  others_kept : (q : ℕ) → current k ≢ q → (resumed k).table q ≡ k.table q
  unfolding process_destroy
  others_kept q ne = put_other k.table (current k) q _ ne

  module _ (runs : (k.table (current k)).state ≡ running) where
    last_test : 2 ≤ k.process_count → (sub_u32 k.process_count 1 == 0) ≡ false
    last_test two = ground (arith, last_lem)

    terminate-resumed :
        2 ≤ k.process_count → terminate_current_process k ≡ some (returns (resumed k))
    unfolding terminate_current_process
    terminate-resumed two = rw (null_test, runs, last_test two)

    -- In a list of two processes or more, the current one is taken out of the list when it ends:
    -- the others keep their order, the current index stays inside the list, and the list is again
    -- one of distinct processes.
    pub terminate-Exited :
        2 ≤ k.process_count
        → (k' : Kernel) × (terminate_current_process k ≡ some (returns k')) × Exited k k'
    terminate-Exited two = (
      resumed k,
      terminate-resumed two,
      record {
        scheduled = resumed-IsScheduled two;
        count = last_lem;
        index = refl;
        list = shifted_lem;
        machine = refl;
      },
    )

    -- When the one process on a well-formed list is running and ends, the list is empty and the kernel
    -- halts for ever.
    pub terminate-last :
        k.process_count ≡ 1
        → (k' : Kernel) × (terminate_current_process k ≡ some (idles k')) × (k'.process_count ≡ 0)
    unfolding terminate_current_process
    terminate-last one =
        let gone : (sub_u32 k.process_count 1 == 0) ≡ true = ground (arith, last_lem) in
        (left k, rw (null_test, runs, gone), ground (arith, last_lem))

    -- On a well-formed list of two processes or more whose current and next process are running:
    -- when the current one ends, the next one takes its place with the registers that were saved
    -- for it, and the first tick that follows replaces them by the registers of the code that it
    -- stops.
    pub exit_overwrites :
        (frame : Frame)
        → 2 ≤ k.process_count
        → (process_at k (following k)).state ≡ running
        → (k' : Kernel) × (terminate_current_process k ≡ some (returns k'))
          × (current k' ≡ k.processes (following k))
          × ((k'.table (k.processes (following k))).ctx ≡ (process_at k (following k)).ctx)
          × (((context_switch frame k').1.table (k.processes (following k))).ctx ≡ frame)
    exit_overwrites frame two next_runs =
        let heir = k.processes (following k) in
        let place = heir_lem two in
        let kept = others_kept heir (heir-ne two) in
        let tick = context_switch-Switched (resumed-IsScheduled two) frame in
        let after = (context_switch frame (resumed k)).1 in
        (
          resumed k,
          terminate-resumed two,
          place,
          ap (λ p. p.ctx) kept,
          subst (λ q. (after.table q).ctx ≡ frame)
              (ap (λ (f : ℕ → ℕ). f (resumed k).current_index) tick.list ∙ place)
              (tick.saved
                (ap (λ q. ((resumed k).table q).state) place ∙ ap (λ p. p.state) kept ∙ next_runs)),
        )

free-pushes :
    (p : ℕ) (m : Machine)
    → p ≢ 0
    → length (free_list m) < m.stack.max
    → (free_list (free_page p m) ≡ p ∷ free_list m) × ((free_page p m).stack.max ≡ m.stack.max)
unfolding push_list
free-pushes p m ne room = ground (arith, free_page_refines p m)

-- Ending a process puts four entries on the stack of free pages, if there is room: its page map
-- twice, its stack pointer, and the address of its structure, none of them turned back into a
-- physical address.
pub process_destroy-free_list :
    (proc : ℕ) (k : Kernel)
    → proc ≢ 0
    → (k.table proc).pagemap ≢ 0
    → (k.table proc).ctx.rsp ≢ 0
    → length (free_list k.machine) + 4 ≤ k.machine.stack.max
    → free_list (process_destroy proc k).machine
      ≡ proc
        ∷ (k.table proc).ctx.rsp
        ∷ (k.table proc).pagemap
        ∷ (k.table proc).pagemap
        ∷ free_list k.machine
unfolding process_destroy destroy_pagemap
process_destroy-free_list proc k np nm ns room =
    let p = k.table proc in
    let m1 = free_page p.pagemap k.machine in
    let m2 = free_page p.pagemap m1 in
    let m3 = free_page p.ctx.rsp m2 in
    let (e1, x1) = free-pushes p.pagemap k.machine nm (omega arith) in
    let (e2, x2) = free-pushes p.pagemap m1 nm (omega (arith, x1, ap length e1)) in
    let (e3, x3) =
      free-pushes p.ctx.rsp m2 ns (omega (arith, x1, x2, ap length e1, ap length e2)) in
    let (e4, x4) =
      free-pushes proc m3 np
        (omega (arith, x1, x2, x3, ap length e1, ap length e2, ap length e3)) in
    e4 ∙ ap (λ l. proc ∷ l) (e3 ∙ ap (λ l. p.ctx.rsp ∷ l) (e2 ∙ ap (λ l. p.pagemap ∷ l) e1))
