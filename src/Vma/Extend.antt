-- ===== src/Vma/Extend.antt =====
-- A list of regions with one more behind the last one.
use nekonix.Base.{ℕ, ◌+◌, ◌%◌, ◌≡◌, ◌≢◌, ◌∙◌, sym, refl, ap, List, [], ◌∷◌, ◌++◌, arith}
use nekonix.Pmm.{Memory, Machine}
use nekonix.Vmm.Held.{OnPage}
use nekonix.Vmm.Space.{IsSpace, IsHeld}
use nekonix.Vma.{start, next, region_end}
use nekonix.Vma.Regions.{IsRun, AreRegions, run-end}

-- Each region stands in a page that is held.
abbrev pub AreHeld :
    {hhdm_offset table : ℕ} {m : Machine} → IsSpace hhdm_offset table m → List ℕ → Type 0
AreHeld space [] = Unit {0}
AreHeld {hhdm_offset} space (r ∷ rs) =
    ((q : ℕ) × IsHeld space q × (r ≡ q + hhdm_offset)) × AreHeld space rs

-- Regions that stay but for the link of the last one.
module _ {hhdm_offset table : ℕ} {m : Machine} (space : IsSpace hhdm_offset table m) (n : Memory)
    (top last new_region : ℕ)
    (same : (q a : ℕ) → IsHeld space q → OnPage hhdm_offset q a → a ≢ last + 24 → n a ≡ m.memory a)
    (linked : next n last ≡ new_region) (joined : region_end m.memory last ≡ start n new_region)
    (last_end : next m.memory last ≡ 0) (low : last % 4096 ≡ 0) (other : new_region ≢ top)
    (ended : next n new_region ≡ 0) where
  same_end :
      (q r : ℕ) → IsHeld space q → r ≡ q + hhdm_offset → region_end n r ≡ region_end m.memory r
  same_end q r held at =
      let first : n r ≡ m.memory r =
        same q r held (omega arith) (omega (arith, held.0.page_aligned, space.direct_map)) in
      let second : n (r + 8) ≡ m.memory (r + 8) =
        same q (r + 8) held (omega arith) (omega (arith, held.0.page_aligned, space.direct_map)) in
      rw (first, second) refl

  IsRun-snoc :
      (r : ℕ) (rs : List ℕ)
      → AreHeld space (r ∷ rs)
      → IsRun m.memory top r rs last
      → IsRun n top r (rs ++ new_region ∷ []) new_region
  IsRun-snoc r [] ((q, held, at), _) (e, ne, end) = (
    ne,
    ap (next n) e ∙ linked,
    same_end q r held at ∙ ap (region_end m.memory) e ∙ joined,
    (refl, other, ended),
  )
  IsRun-snoc r (s ∷ rs) ((q, held, at), ((q', held', at'), rest)) (ne, link, follows, run) =
      let inner : r ≢ last =
        λ e. held'.0.ne_zero (omega (arith, ap (next m.memory) e, last_end, link, at')) in
      (
        ne,
        same q (r + 24) held (omega arith) (omega (arith, inner)) ∙ link,
        same_end q r held at
            ∙ follows
            ∙ sym (
                same q' s held' (omega arith)
                  (omega (arith, held'.0.page_aligned, space.direct_map))),
        IsRun-snoc s rs ((q', held', at'), rest) run,
      )

  pub AreRegions-snoc :
      (rs : List ℕ)
      → AreHeld space (top ∷ rs)
      → AreRegions m.memory top rs last
      → new_region ≢ 0
      → AreRegions n top (rs ++ new_region ∷ []) new_region
  AreRegions-snoc [] h (end, e) there = (ap (next n) e ∙ linked, there, (refl, other, ended))
  AreRegions-snoc (r ∷ rs) ((q, held, at), ((q', held', at'), rest)) (link, ne, run) there =
      let inner : top ≢ last =
        λ e. held'.0.ne_zero (omega (arith, ap (next m.memory) e, last_end, link, at')) in
      (
        same q (top + 24) held (omega arith) (omega (arith, inner)) ∙ link,
        ne,
        IsRun-snoc r rs ((q', held', at'), rest) run,
      )

-- The page of the last region.
run-IsHeld :
    {hhdm_offset table : ℕ} {m : Machine} (space : IsSpace hhdm_offset table m) (top r : ℕ)
    (rs : List ℕ) {last : ℕ}
    → AreHeld space (r ∷ rs)
    → IsRun m.memory top r rs last
    → (q : ℕ) × IsHeld space q × (last ≡ q + hhdm_offset)
run-IsHeld space top r [] ((q, held, at), _) (e, ne, end) = (q, held, sym e ∙ at)
run-IsHeld space top r (s ∷ rs) (_, rest) (ne, link, follows, run) =
    run-IsHeld space top s rs rest run

pub last-IsHeld :
    {hhdm_offset table : ℕ} {m : Machine} (space : IsSpace hhdm_offset table m) (top : ℕ)
    (rs : List ℕ) {last : ℕ}
    → AreHeld space (top ∷ rs)
    → AreRegions m.memory top rs last
    → (q : ℕ) × IsHeld space q × (last ≡ q + hhdm_offset) × (next m.memory last ≡ 0)
last-IsHeld {m} space top [] ((q, held, at), _) (end, e) =
    (q, held, sym e ∙ at, ap (next m.memory) (sym e) ∙ end)
last-IsHeld {m} space top (r ∷ rs) (_, rest) (link, there, run) =
    let (q, held, at) = run-IsHeld space top r rs rest run in
    (q, held, at, run-end m.memory top r rs _ run)

pub AreHeld-map :
    {hhdm_offset table : ℕ} {m n : Machine} (space : IsSpace hhdm_offset table m)
    (space' : IsSpace hhdm_offset table n) (rs : List ℕ) (new_page : ℕ)
    → ((q : ℕ) → IsHeld space q → IsHeld space' q)
    → IsHeld space' new_page
    → AreHeld space rs
    → AreHeld space' (rs ++ (new_page + hhdm_offset) ∷ [])
AreHeld-map space space' [] new_page kept held _ = ((new_page, held, refl), tt)
AreHeld-map space space' (r ∷ rs) new_page kept held ((q, h, at), rest) =
    ((q, kept q h, at), AreHeld-map space space' rs new_page kept held rest)
