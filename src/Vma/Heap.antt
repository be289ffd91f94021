-- ===== src/Vma/Heap.antt =====
-- The requests of the heap, liballoc_alloc, in an address space whose regions follow each other.
use nekonix.Base.{
  ℕ, ◌+◌, ◌≤◌, ◌<◌, ◌≡◌, ◌≢◌, ◌∙◌, sym, refl, ap, none, some, ne→==, List, [], ◌∷◌, ◌++◌, arith,
  length, ◌==◌, if◌then◌else◌, bit_or,
}
use nekonix.Pmm.{Machine, request_page}
use nekonix.Pmm.Pages.{free_list}
use nekonix.Vmm.{virt_to_phys}
use nekonix.Vmm.Entry.{IsFlags}
use nekonix.Vmm.Tree.{page_number}
use nekonix.Vmm.Held.{OnPage}
use nekonix.Vmm.Space.{IsHeld}
use nekonix.Vma.{start, size, next, root, region_end, vma_alloc, liballoc_alloc}
use nekonix.Vma.Regions.{AreRegions, find_gap-hangs}
use nekonix.Vma.Fresh.{hang-IsFresh}
use nekonix.Vma.Place.{IsContext, populate_lem, vma_alloc-hang}
use nekonix.Vma.Extend.{AreHeld, AreRegions-snoc, last-IsHeld, AreHeld-map}

present_writable-IsFlags : IsFlags (bit_or 1 2)
present_writable-IsFlags = omega arith

module _ {hhdm_offset table ctx_page : ℕ} {m : Machine}
    (context : IsContext hhdm_offset table m ctx_page) where
  abbrev ctx : ℕ
  ctx = ctx_page + hhdm_offset

  abbrev top : ℕ
  top = root m.memory ctx

  -- What a request of the heap leaves, for the page of the last region.
  Requested : ℕ → List ℕ → ℕ → ℕ → Type 0
  Requested fuel rs last pages =
      (m' : Machine) × (frame new_region : ℕ) × (liballoc_alloc hhdm_offset fuel ctx pages m
        ≡ some (region_end m.memory last, m'))
      × (frame ≢ 0)
      × ((v : ℕ)
          → virt_to_phys hhdm_offset m'.memory table v ≡ (
              if page_number v == page_number (region_end m.memory last)
              then frame
              else virt_to_phys hhdm_offset m.memory table v))
      × (context' : IsContext hhdm_offset table m' ctx_page) × AreRegions m'.memory top
          (rs ++ new_region ∷ []) new_region
      × AreHeld context'.space (top ∷ rs ++ new_region ∷ [])
      × (root m'.memory ctx ≡ top)
      × (start m'.memory new_region ≡ region_end m.memory last)
      × (size m'.memory new_region ≡ pages)

  requested :
      (fuel last_page : ℕ) (rs : List ℕ) (pages : ℕ)
      → IsHeld context.space last_page
      → next m.memory (last_page + hhdm_offset) ≡ 0
      → AreRegions m.memory top rs (last_page + hhdm_offset)
      → AreHeld context.space (top ∷ rs)
      → m.memory 0 ≡ 0
      → length rs < fuel
      → 5 ≤ length (free_list m)
      → 0 < pages
      → pages ≤ 4096
      → pages ≤ region_end m.memory (last_page + hhdm_offset)
      → Requested fuel rs (last_page + hhdm_offset) pages
  unfolding liballoc_alloc Requested
  requested fuel last_page rs pages held_last last_end regions held null_page enough room low high
        fits =
      let last = last_page + hhdm_offset in
      let (page, m1) = request_page hhdm_offset m in
      let new = page + hhdm_offset in
      let hung = hang-IsFresh context last_page pages (bit_or 1 2) held_last (omega arith) in
      let off_link : (a : ℕ) → a < 16 → ctx + a ≢ last + 24 = λ a small.
        omega (
          arith, context.held.0.page_aligned, held_last.0.page_aligned, context.space.direct_map,
        ) in
      let on_context = hung.step.held ctx_page context.held in
      let at_table : _ ≡ table =
        hung.same ctx_page ctx context.held (omega arith) (omega (arith, off_link 0 (omega arith)))
        ∙ context.at_table in
      let (m', frame, space', kept, runs, there, virt) =
        populate_lem hung.step.space' {kind = bit_or 1 2} {begin = region_end m.memory last}
          {wanted = pages} on_context hung.own present_writable-IsFlags
          (omega (arith, hung.step.enough)) at_table hung.begins hung.sized hung.of_kind
          (omega arith) low high in
      let same : (q a : ℕ)
          → IsHeld context.space q
          → OnPage hhdm_offset q a
          → a ≢ last + 24
          → m'.memory a ≡ m.memory a =
        λ q a h on ne. (kept q (hung.step.held q h)).1 a on ∙ hung.same q a h on ne in
      let (own', new_same) = kept page hung.own in
      let top_same : root m'.memory ctx ≡ top =
        same ctx_page (ctx + 8) context.held (omega arith) (off_link 8 (omega arith)) in
      let begins : start m'.memory new ≡ region_end m.memory last =
        new_same new (omega arith) ∙ hung.begins in
      let link : next m'.memory last ≡ new =
        (kept last_page (hung.step.held last_page held_last)).1 (last + 24) (omega arith)
        ∙ hung.linked in
      let (q_top, held_top, at_top) = held.0 in
      (
        m',
        frame,
        new,
        rw
            (vma_alloc-hang context fuel rs pages (bit_or 1 2) regions null_page last_page held_last
              refl enough (omega arith) low fits)
            (ap some runs),
        there,
        λ v. virt v ∙ rw (hung.step.virt v) refl,
        record {
          space = space';
          held = (kept ctx_page on_context).0;
          table_there = context.table_there;
          top_there = rw top_same context.top_there;
          at_table = (kept ctx_page on_context).1 ctx (omega arith) ∙ at_table;
        },
        AreRegions-snoc context.space m'.memory top last new same link (sym begins) last_end
            (omega (arith, held_last.0.page_aligned, context.space.direct_map))
            (λ e. hung.fresh q_top held_top (omega (arith, e, at_top)))
            (new_same (new + 24) (omega arith) ∙ hung.ended) rs held regions
            (omega (arith, hung.own.0.ne_zero)),
        AreHeld-map context.space space' (top ∷ rs) page (λ q h. (kept q (hung.step.held q h)).0)
            own' held,
        top_same,
        begins,
        new_same (new + 8) (omega arith) ∙ hung.sized,
      )

  request :
      (fuel last : ℕ) (rs : List ℕ) (pages : ℕ)
      → AreRegions m.memory top rs last
      → AreHeld context.space (top ∷ rs)
      → m.memory 0 ≡ 0
      → length rs < fuel
      → 5 ≤ length (free_list m)
      → 0 < pages
      → pages ≤ 4096
      → pages ≤ region_end m.memory last
      → Requested fuel rs last pages
  request fuel last rs pages regions held null_page enough room low high fits =
      let (last_page, held_last, at, last_end) = last-IsHeld context.space top rs held regions in
      rw at (
        requested fuel last_page rs pages held_last (rw at at last_end) (rw at at regions) held
          null_page enough room low high (rw at at fits))

  -- A context stands beside its page tables, with its root region and the regions behind that each in a
  -- page that is held. Behind the root each region ends where the next one begins. The first word of
  -- memory is 0, and five pages are free. Then a request of the heap for 1 to 4096 pages, and no more than
  -- the last region's end is as a number, with fuel for the regions, answers that end and maps a
  -- frame at the page of that address. It changes the translation of no other page, however many pages
  -- were asked for.
  pub liballoc_alloc-maps_one :
      (fuel last : ℕ) (rs : List ℕ) (pages : ℕ)
      → AreRegions m.memory top rs last
      → AreHeld context.space (top ∷ rs)
      → m.memory 0 ≡ 0
      → length rs < fuel
      → 5 ≤ length (free_list m)
      → 0 < pages
      → pages ≤ 4096
      → pages ≤ region_end m.memory last
      → (m' : Machine) × (frame : ℕ) × (liballoc_alloc hhdm_offset fuel ctx pages m
          ≡ some (region_end m.memory last, m'))
        × (frame ≢ 0)
        × ((v : ℕ)
            → virt_to_phys hhdm_offset m'.memory table v ≡ (
                if page_number v == page_number (region_end m.memory last)
                then frame
                else virt_to_phys hhdm_offset m.memory table v))
  unfolding Requested
  liballoc_alloc-maps_one fuel last rs pages regions held null_page enough room low high fits =
      let (m', frame, new, runs, there, virt, context', regions', held', top_same, begins, sized) =
        request fuel last rs pages regions held null_page enough room low high fits in
      (m', frame, runs, there, virt)

  -- A context stands beside its page tables, with its root region and the regions behind that each in a
  -- page that is held. Behind the root each region ends where the next one begins. The first word of
  -- memory is 0, and five pages are free. Then a request of the heap for 1 to 4096 pages, and no more than
  -- the last region's end is as a number, with fuel for the regions, leaves a context with the same
  -- root, and with one region more: it begins where the last one ends and has the size that was asked
  -- for. All regions are again in pages that are held, and behind the root each ends where the next one begins.
  pub liballoc_alloc-AreRegions :
      (fuel last : ℕ) (rs : List ℕ) (pages : ℕ)
      → AreRegions m.memory top rs last
      → AreHeld context.space (top ∷ rs)
      → m.memory 0 ≡ 0
      → length rs < fuel
      → 5 ≤ length (free_list m)
      → 0 < pages
      → pages ≤ 4096
      → pages ≤ region_end m.memory last
      → (m' : Machine) × (new_region : ℕ) × (liballoc_alloc hhdm_offset fuel ctx pages m
          ≡ some (region_end m.memory last, m'))
        × (context' : IsContext hhdm_offset table m' ctx_page) × AreRegions m'.memory top
            (rs ++ new_region ∷ [])
            new_region
        × AreHeld context'.space (top ∷ rs ++ new_region ∷ [])
        × (root m'.memory ctx ≡ top)
        × (start m'.memory new_region ≡ region_end m.memory last)
        × (size m'.memory new_region ≡ pages)
  unfolding Requested
  liballoc_alloc-AreRegions fuel last rs pages regions held null_page enough room low high fits =
      let (m', frame, new, runs, there, virt, context', regions', held', top_same, begins, sized) =
        request fuel last rs pages regions held null_page enough room low high fits in
      (m', new, runs, context', regions', held', top_same, begins, sized)

  -- A context has regions behind its root, each of which ends where the next one begins, and the words
  -- of a region at the null pointer are 0. Then a request for more pages than the end of the last
  -- region is as a number never returns, whatever the fuel: the search goes on from the null pointer to
  -- the null pointer.
  pub liballoc_alloc-hangs :
      (fuel last r : ℕ) (rs : List ℕ) (pages : ℕ)
      → AreRegions m.memory top (r ∷ rs) last
      → m.memory 0 ≡ 0
      → m.memory 8 ≡ 0
      → m.memory 24 ≡ 0
      → region_end m.memory last < pages
      → liballoc_alloc hhdm_offset fuel ctx pages m ≡ none
  unfolding liballoc_alloc vma_alloc
  liballoc_alloc-hangs fuel last r rs pages (link, there, run) w0 w8 w24 large =
      rw
        (
          ne→== ctx 0 (omega (arith, context.held.0.ne_zero)),
          ne→== _ _ context.top_there,
          context.at_table,
          ne→== _ _ context.table_there,
          link,
          ne→== _ _ there,
          find_gap-hangs m.memory ctx pages (omega arith) fuel r rs last w0 w8 w24 context.top_there
              run large,
        )
        refl
