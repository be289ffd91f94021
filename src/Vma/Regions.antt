-- ===== src/Vma/Regions.antt =====
-- The search of `vma_alloc` for a gap, on regions that follow each other without one.
use nekonix.Base.{
  ℕ, zero, suc, ◌≤◌, ◌<◌, ◌≡◌, ◌≢◌, ◌∙◌, sym, refl, ap, none, some, List, [], ◌∷◌, arith, length,
  sub_u64, leb, ne→==, false, lt→leb, le→leb,
}
use nekonix.Pmm.{Memory}
use nekonix.Vma.{start, next, root, region_end, find_gap}

-- The regions from `r` on to the last one: each but the last ends where the next one begins.
abbrev pub IsRun : Memory → ℕ → ℕ → List ℕ → ℕ → Type 0
IsRun m top r [] last = (r ≡ last) × (r ≢ top) × (next m r ≡ 0)
IsRun m top r (s ∷ rs) last =
    (r ≢ top) × (next m r ≡ s) × (region_end m r ≡ start m s) × IsRun m top s rs last

-- The regions behind the first one, `top`.
abbrev pub AreRegions : Memory → ℕ → List ℕ → ℕ → Type 0
AreRegions m top [] last = (next m top ≡ 0) × (top ≡ last)
AreRegions m top (r ∷ rs) last = (next m top ≡ r) × (r ≢ 0) × IsRun m top r rs last

pub run-other :
    (m : Memory) (top r : ℕ) (rs : List ℕ) (last : ℕ) → IsRun m top r rs last → last ≢ top
run-other m top r [] last (e, ne, end) = λ same. ne (e ∙ same)
run-other m top r (s ∷ rs) last (ne, link, joined, run) = run-other m top s rs last run

pub run-end :
    (m : Memory) (top r : ℕ) (rs : List ℕ) (last : ℕ) → IsRun m top r rs last → next m last ≡ 0
run-end m top r [] last (e, ne, end) = rw e at end
run-end m top r (s ∷ rs) last (ne, link, joined, run) = run-end m top s rs last run

module _ (m : Memory) (ctx wanted : ℕ) (some_wanted : 0 < wanted) where
  leb-zero : leb wanted 0 ≡ false
  leb-zero = ground arith

  no_gap :
      (fuel r s : ℕ)
      → r ≢ root m ctx
      → next m r ≡ s
      → region_end m r ≡ start m s
      → find_gap (suc fuel) ctx r wanted m ≡ find_gap fuel ctx s wanted m
  unfolding find_gap
  no_gap fuel r s ne link joined =
      let same : sub_u64 (region_end m r) (start m s) ≡ 0 = omega arith in
      rw (link, ne→== _ _ ne, same) (rw (leb-zero) refl)

  -- Behind the last region the code takes the words of the null page for a region. The gap that it
  -- sees there is as large as the end of the last region.
  pub find_gap-last :
      (fuel r : ℕ) (rs : List ℕ) (last : ℕ)
      → m 0 ≡ 0
      → IsRun m (root m ctx) r rs last
      → length rs < fuel
      → wanted ≤ region_end m last
      → find_gap fuel ctx r wanted m ≡ some last
  unfolding find_gap
  find_gap-last zero r rs last null run enough fits = absurd (omega arith)
  find_gap-last (suc fuel) r [] last null (e, ne, end) enough fits =
      let gap : sub_u64 (region_end m r) (start m 0) ≡ region_end m last =
        omega (arith, ap (region_end m) e) in
      rw (end, ne→== _ _ ne, gap, le→leb _ _ fits) (ap some e)
  find_gap-last (suc fuel) r (s ∷ rs) last null (ne, link, joined, run) enough fits =
      no_gap fuel r s ne link joined ∙ find_gap-last fuel s rs last null run (omega arith) fits

  -- A null region that the null page describes is followed by itself.
  null_loops :
      (fuel : ℕ)
      → m 0 ≡ 0
      → m 8 ≡ 0
      → m 24 ≡ 0
      → root m ctx ≢ 0
      → find_gap fuel ctx 0 wanted m ≡ none
  unfolding find_gap
  null_loops zero w0 w8 w24 ne = refl
  null_loops (suc fuel) w0 w8 w24 ne =
      let gap : sub_u64 (region_end m 0) (start m 0) ≡ 0 = omega arith in
      rw (w24, ne→== 0 _ (λ e. ne (sym e)), gap, leb-zero) (null_loops fuel w0 w8 w24 ne)

  pub find_gap-hangs :
      (fuel r : ℕ) (rs : List ℕ) (last : ℕ)
      → m 0 ≡ 0
      → m 8 ≡ 0
      → m 24 ≡ 0
      → root m ctx ≢ 0
      → IsRun m (root m ctx) r rs last
      → region_end m last < wanted
      → find_gap fuel ctx r wanted m ≡ none
  unfolding find_gap
  find_gap-hangs zero r rs last w0 w8 w24 ne run large = refl
  find_gap-hangs (suc fuel) r [] last w0 w8 w24 ne (e, off, end) large =
      let gap : sub_u64 (region_end m r) (start m 0) ≡ region_end m last =
        omega (arith, ap (region_end m) e) in
      rw (end, ne→== _ _ off, gap, lt→leb _ _ large) (null_loops fuel w0 w8 w24 ne)
  find_gap-hangs (suc fuel) r (s ∷ rs) last w0 w8 w24 ne (off, link, joined, run) large =
      no_gap fuel r s off link joined ∙ find_gap-hangs fuel s rs last w0 w8 w24 ne run large
