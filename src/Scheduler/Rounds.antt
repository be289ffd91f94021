-- ===== src/Scheduler/Rounds.antt =====
-- Rounds of the scheduler: a process gets back the registers that it was stopped with.
use native.Mathlib.Nat.{mod-eq_of_lt, mod-add-mod}
use nekonix.Base.{
  ℕ, suc, ◌+◌, ◌-◌, ◌%◌, ◌<◌, ◌≡◌, ◌≢◌, ◌∙◌, sym, ap, ap₂, subst, refl, ltb, List, [], ◌∷◌, length,
  arith, Bool-cases, inl, inr,
}
use nekonix.Scheduler.{Frame, running, Kernel, context_switch}
use nekonix.Scheduler.Switch.{IsScheduled, process_at, Switched, context_switch-Switched}

-- Timer interrupts, each with the registers that it stops; what the last one hands out stays.
unfoldable pub ticks : Frame → List Frame → Kernel → Frame × Kernel
ticks out [] k = (out, k)
ticks out (f ∷ fs) k = let (out', k') = context_switch f k in ticks out' fs k'

-- The place that is reached after `n` more steps round the list.
abbrev pub place : Kernel → ℕ → ℕ
place k n = (k.current_index + n) % k.process_count

place_zero : (i c : ℕ) → i < c → (i + 0) % c ≡ i
place_zero i c h = ap (λ x. x % c) (omega arith) ∙ mod-eq_of_lt h

place-next : (i n c : ℕ) → 0 < c → ((i + 1) % c + n) % c ≡ (i + suc n) % c
place-next i n c h = rw mod-add-mod (ap (λ x. x % c) (omega arith))

full_round : (i c : ℕ) → i < c → (i + c) % c ≡ i
full_round i c h = grind arith

place_ne : (i n c t : ℕ) → i < c → suc n < c → (i + suc n) % c ≡ t → t ≢ i
place_ne i n c t h g e z = grind arith

place-Switched :
    {k k' : Kernel} {f out : Frame}
    → Switched k f out k'
    → 0 < k.process_count
    → (n : ℕ) → place k' n ≡ place k (suc n)
place-Switched {k} sw pos n =
    ap₂ (λ i c. (i + n) % c) sw.index sw.same_count
    ∙ place-next k.current_index n k.process_count pos

Switched-current :
    {k k' : Kernel} {f out : Frame}
    → Switched k f out k'
    → out ≡ (process_at k' k'.current_index).ctx
Switched-current {k} {k'} sw = sw.entered ∙ ap (λ j. (process_at k' j).ctx) (sym sw.index)

-- Each tick moves one place on, round the list.
pub ticks-place :
    (fs : List Frame) (out : Frame) {k : Kernel}
    → IsScheduled k
    → let k' = (ticks out fs k).1 in
      IsScheduled k'
      × (k'.process_count ≡ k.process_count)
      × (k'.current_index ≡ place k (length fs))
unfolding ticks
ticks-place [] out {k} s = (s, refl, sym (place_zero k.current_index k.process_count s.in_list))
ticks-place (f ∷ fs) out {k} s =
    let sw = context_switch-Switched s f in
    let (a, b, c) = ticks-place fs (context_switch f k).0 sw.scheduled in
    (a, b ∙ sw.same_count, c ∙ place-Switched sw s.occupied (length fs))

-- While its turn is still to come, nothing touches the registers that a process was saved with.
ticks-keep :
    (fs : List Frame) (out frame : Frame) {k : Kernel} (t : ℕ)
    → IsScheduled k
    → t < k.process_count
    → length fs < k.process_count
    → place k (length fs) ≡ t
    → (process_at k t).ctx ≡ frame
    → out ≡ (process_at k k.current_index).ctx
    → (ticks out fs k).0 ≡ frame
unfolding ticks
ticks-keep [] out frame {k} t s lt few at saved cur =
    cur
    ∙ subst (λ j. (process_at k j).ctx ≡ frame)
        (sym at ∙ place_zero k.current_index k.process_count s.in_list) saved
ticks-keep (f ∷ fs) out frame {k} t s lt few at saved cur =
    let sw = context_switch-Switched s f in
    ticks-keep fs (context_switch f k).0 frame t sw.scheduled (omega (arith, sw.same_count))
      (omega (arith, sw.same_count)) (place-Switched sw s.occupied (length fs) ∙ at)
      (sw.others t lt (place_ne k.current_index (length fs) k.process_count t s.in_list few at)
        ∙ saved)
      (Switched-current sw)

-- Stop a running process with the registers `frame`, and let as many ticks pass as there are
-- processes in the list, whatever they stop: the last one hands out `frame` again.
pub resume-save :
    (fs : List Frame) (frame : Frame) {k : Kernel}
    → IsScheduled k
    → (process_at k k.current_index).state ≡ running
    → suc (length fs) ≡ k.process_count
    → (ticks frame (frame ∷ fs) k).0 ≡ frame
unfolding ticks
resume-save fs frame {k} s runs all =
    let sw = context_switch-Switched s frame in
    ticks-keep fs (context_switch frame k).0 frame k.current_index sw.scheduled
      (omega (arith, sw.same_count, s.in_list)) (omega (arith, sw.same_count))
      (place-Switched sw s.occupied (length fs)
        ∙ rw all (full_round k.current_index k.process_count s.in_list))
      (sw.saved runs) (Switched-current sw)

-- Every process of the list is entered within one round: for each place `t` there is a number of
-- ticks, one at least and at most the length of the list, after which it is the current one.
pub ticks-reach :
    {k : Kernel} (t : ℕ)
    → IsScheduled k
    → t < k.process_count
    → (n : ℕ) × (n < k.process_count)
      × ((fs : List Frame) (out : Frame) → length fs ≡ suc n → (ticks out fs k).1.current_index ≡ t)
ticks-reach {k} t s lt = elim (Bool-cases (ltb k.current_index t)) [
  | inl before ↦ (
    t - k.current_index - 1,
    ground arith,
    λ fs out e.
        (ticks-place fs out s).2
        ∙ ap (λ n. place k n) e
        ∙ (ap (λ x. x % k.process_count) (ground arith) ∙ mod-eq_of_lt lt),
  )
  | inr after ↦ (
    k.process_count + t - k.current_index - 1,
    ground (arith, s.in_list),
    λ fs out e.
        (ticks-place fs out s).2
        ∙ ap (λ n. place k n) e
        ∙ (ap (λ x. x % k.process_count) (ground (arith, s.in_list))
            ∙ full_round t k.process_count lt),
  )
]
