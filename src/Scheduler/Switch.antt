-- ===== src/Scheduler/Switch.antt =====
-- `scheduler_context_switch`: whose registers are saved, and whose come back.
use nekonix.Base.{
  ℕ, ◌+◌, ◌%◌, ◌≤◌, ◌<◌, ◌≡◌, ◌≢◌, ◌∙◌, sym, ap, subst, refl, false, not, ◌&&◌, ◌==◌, u32, arith,
  Bool-cases, inl, inr, ==_iff,
}
use nekonix.Scheduler.{
  Frame, running, Process, Kernel, put, save, resume, context_switch, is_running, max_processes,
}

-- The process list of a kernel that runs: no null, nothing twice, and an index inside it.
pub record IsScheduled (k : Kernel) : Type 0 where
  pub occupied : 0 < k.process_count
  pub bounded : k.process_count ≤ max_processes
  pub in_list : k.current_index < k.process_count
  pub nonnull : (i : ℕ) → i < k.process_count → k.processes i ≢ 0
  pub distinct :
      (i j : ℕ) → i < k.process_count → j < k.process_count → k.processes i ≡ k.processes j → i ≡ j

abbrev pub process_at : Kernel → ℕ → Process
process_at k i = k.table (k.processes i)

abbrev pub following : Kernel → ℕ
following k = (k.current_index + 1) % k.process_count

pub put_self : (t : ℕ → Process) (p : ℕ) (v : Process) → put t p v p ≡ v
unfolding put
put_self t p v = ground arith

pub put_other : (t : ℕ → Process) (p q : ℕ) (v : Process) → p ≢ q → put t p v q ≡ t q
unfolding put
put_other t p q v ne = ground arith

module _ {k : Kernel} (s : IsScheduled k) (frame : Frame) where
  abbrev here : ℕ
  here = k.processes k.current_index

  abbrev there : ℕ
  there = k.processes (following k)

  abbrev saved : Kernel
  saved = save frame here k

  following-lt : following k < k.process_count
  following-lt = omega (arith, s.occupied)

  nonempty : (k.process_count == 0) ≡ false
  nonempty = ground (arith, s.occupied)

  no_wrap : u32 (k.current_index + 1) ≡ k.current_index + 1
  no_wrap = omega (arith, s.bounded, s.in_list)

  not_null : (i : ℕ) → i < k.process_count → (k.processes i == 0) ≡ false
  not_null i h = ground (arith, s.nonnull i h)

  switched :
      context_switch frame k ≡ resume frame there (record saved { current_index = following k })
  unfolding context_switch
  switched = rw (nonempty, no_wrap)

  -- The process structures after the registers are saved.
  saved_other : (q : ℕ) → here ≢ q → saved.table q ≡ k.table q
  unfolding save
  saved_other q ne = elim (Bool-cases (not (here == 0) && is_running (k.table here).state)) [
    | inl e ↦ rw e (put_other k.table here q _ ne)
    | inr e ↦ rw e
  ]

  saved_here :
      (k.table here).state ≡ running → saved.table here ≡ record (k.table here) { ctx = frame }
  unfolding save
  saved_here e = rw (not_null k.current_index s.in_list, e) (put_self k.table here _)

  saved_state : (q : ℕ) → (saved.table q).state ≡ (k.table q).state
  saved_state q = elim (Bool-cases (here == q)) [
    | inl e ↦
        subst (λ z. (saved.table z).state ≡ (k.table z).state) ((==_iff here q).0 e) state_here
    | inr ne ↦ ap (λ p. p.state) (saved_other q (ground arith))
  ]
    where
      state_here : (saved.table here).state ≡ (k.table here).state
      state_here =
          unfold save in
          elim (Bool-cases (not (here == 0) && is_running (k.table here).state)) [
            | inl e ↦ rw e (ap (λ p. p.state) (put_self k.table here _))
            | inr e ↦ rw e
          ]

  saved_root : (q : ℕ) → (saved.table q).pagemap ≡ (k.table q).pagemap
  saved_root q = elim (Bool-cases (here == q)) [
    | inl e ↦
        subst (λ z. (saved.table z).pagemap ≡ (k.table z).pagemap) ((==_iff here q).0 e) root_here
    | inr ne ↦ ap (λ p. p.pagemap) (saved_other q (ground arith))
  ]
    where
      root_here : (saved.table here).pagemap ≡ (k.table here).pagemap
      root_here =
          unfold save in
          elim (Bool-cases (not (here == 0) && is_running (k.table here).state)) [
            | inl e ↦ rw e (ap (λ p. p.pagemap) (put_self k.table here _))
            | inr e ↦ rw e
          ]

  -- The kernel that the switch leaves.
  abbrev entered : Kernel
  entered = record k {
    current_index = following k;
    table = put saved.table there (record (saved.table there) { state = running });
    pagemap = (saved.table there).pagemap;
  }

  resumed :
      resume frame there (record saved { current_index = following k })
      ≡ ((saved.table there).ctx, entered)
  unfolding resume save
  resumed = elim (Bool-cases (not (here == 0) && is_running (k.table here).state)) [
    | inl e ↦ rw (not_null (following k) following-lt, e)
    | inr e ↦ rw (not_null (following k) following-lt, e)
  ]

  table_other : (q : ℕ) → there ≢ q → entered.table q ≡ saved.table q
  table_other q ne = put_other saved.table there q _ ne

  table_there : entered.table there ≡ record (saved.table there) { state = running }
  table_there = put_self saved.table there _

  ctx_kept : (q : ℕ) → (entered.table q).ctx ≡ (saved.table q).ctx
  ctx_kept q = elim (Bool-cases (there == q)) [
    | inl e ↦
        subst (λ z. (entered.table z).ctx ≡ (saved.table z).ctx) ((==_iff there q).0 e)
          (ap (λ p. p.ctx) table_there)
    | inr ne ↦ ap (λ p. p.ctx) (table_other q (ground arith))
  ]

  root_kept : (q : ℕ) → (entered.table q).pagemap ≡ (k.table q).pagemap
  root_kept q = elim (Bool-cases (there == q)) [
    | inl e ↦
        subst (λ z. (entered.table z).pagemap ≡ (k.table z).pagemap) ((==_iff there q).0 e)
          (ap (λ p. p.pagemap) table_there ∙ saved_root there)
    | inr ne ↦ ap (λ p. p.pagemap) (table_other q (ground arith)) ∙ saved_root q
  ]

  running_kept : (q : ℕ) → (k.table q).state ≡ running → (entered.table q).state ≡ running
  running_kept q e = elim (Bool-cases (there == q)) [
    | inl same ↦
        subst (λ z. (entered.table z).state ≡ running) ((==_iff there q).0 same)
          (ap (λ p. p.state) table_there)
    | inr ne ↦ ap (λ p. p.state) (table_other q (ground arith)) ∙ saved_state q ∙ e
  ]

-- What a switch does, process by process.
pub record Switched (k : Kernel) (frame : Frame) (out : Frame) (k' : Kernel) : Type 0 where
  pub scheduled : IsScheduled k'
  pub same_count : k'.process_count ≡ k.process_count
  pub list : k'.processes ≡ k.processes
  pub machine : k'.machine ≡ k.machine
  pub index : k'.current_index ≡ following k
  pub entered : out ≡ (process_at k' (following k)).ctx
  pub runs : (process_at k' (following k)).state ≡ running
  pub active : k'.pagemap ≡ (process_at k (following k)).pagemap
  pub roots : (i : ℕ) → (process_at k' i).pagemap ≡ (process_at k i).pagemap
  pub saved :
      (process_at k k.current_index).state ≡ running → (process_at k' k.current_index).ctx ≡ frame
  pub others :
      (i : ℕ)
      → i < k.process_count
      → i ≢ k.current_index
      → ((process_at k' i).ctx ≡ (process_at k i).ctx)
  pub still_running : (i : ℕ) → (process_at k i).state ≡ running → (process_at k' i).state ≡ running

module _ {k : Kernel} (s : IsScheduled k) (frame : Frame) where
  pub context_switch-Switched : let (out, k') = context_switch frame k in Switched k frame out k'
  context_switch-Switched =
      subst (λ (r : Frame × Kernel). Switched k frame r.0 r.1)
        (sym (switched s frame ∙ resumed s frame))
        (record {
          scheduled = record {
            occupied = s.occupied;
            bounded = s.bounded;
            in_list = following-lt s frame;
            nonnull = s.nonnull;
            distinct = s.distinct;
          };
          same_count = refl;
          list = refl;
          machine = refl;
          index = refl;
          entered = sym (ctx_kept s frame (there s frame));
          runs = ap (λ p. p.state) (table_there s frame);
          active = saved_root s frame (there s frame);
          roots = λ i. root_kept s frame (k.processes i);
          saved = λ e. ctx_kept s frame (here s frame) ∙ ap (λ p. p.ctx) (saved_here s frame e);
          others = λ i h ne.
              ctx_kept s frame (k.processes i)
              ∙ ap (λ p. p.ctx)
                  (saved_other s frame (k.processes i)
                    λ e. ne (sym (s.distinct k.current_index i s.in_list h e)));
          still_running = λ i. running_kept s frame (k.processes i);
        })
