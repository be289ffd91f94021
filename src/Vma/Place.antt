-- ===== src/Vma/Place.antt =====
-- `vma_alloc` in an address space: where the new region stands, and what of it is mapped.
use nekonix.Base.{
  ℕ, ◌+◌, ◌/◌, ◌^◌, ◌≤◌, ◌<◌, ◌≡◌, ◌≢◌, ◌∙◌, refl, some, List, [], ◌∷◌, arith, length, u64, ◌==◌,
  if◌then◌else◌, ne→==,
}
use nekonix.Pmm.{Machine, page_size, request_page, align_up, div_round_up}
use nekonix.Pmm.Pages.{free_list}
use nekonix.Vmm.{map, virt_to_phys}
use nekonix.Vmm.Entry.{IsFlags}
use nekonix.Vmm.Tree.{page_number}
use nekonix.Vmm.Held.{Keeps}
use nekonix.Vmm.Space.{IsSpace, IsHeld, IsPhys, virt_to_phys-map, map-IsSpace}
use nekonix.Vmm.Client.{request_page-IsStep}
use nekonix.Vma.Regions.{AreRegions, find_gap-last, run-end, run-other}
use nekonix.Vma.Insert.{memset_zero-off, fill-off, other_page, hang}
use nekonix.Vma.{
  fill, memset_zero, vma_alloc, insert_behind, append_behind, region_end, start, size, flags, next,
  root, pagemap, map_pages, populate,
}

one_page : (n : ℕ) → 0 < n → n ≤ 4096 → align_up n page_size / page_size ≡ 1
unfolding align_up div_round_up
one_page n low high = omega arith

module _ {hhdm_offset table : ℕ} {m : Machine} (space : IsSpace hhdm_offset table m) where
  -- A region of 1 to 4096 units, in a page that is held, gets one page: its address is mapped to a frame,
  -- and no other translation changes.
  pub populate_lem :
      {ctx_page region_page kind begin wanted : ℕ}
      → IsHeld space ctx_page
      → IsHeld space region_page
      → IsFlags kind
      → 4 ≤ length (free_list m)
      → pagemap m.memory (ctx_page + hhdm_offset) ≡ table
      → start m.memory (region_page + hhdm_offset) ≡ begin
      → size m.memory (region_page + hhdm_offset) ≡ wanted
      → flags m.memory (region_page + hhdm_offset) ≡ kind
      → begin < 2 ^ 64
      → 0 < wanted
      → wanted ≤ 4096
      → (m' : Machine) × (frame : ℕ) × (space' : IsSpace hhdm_offset table m') × ((q : ℕ)
          → IsHeld space q
          → IsHeld space' q × Keeps hhdm_offset q m.memory m'.memory)
        × (populate hhdm_offset (ctx_page + hhdm_offset) (region_page + hhdm_offset) m
            ≡ (begin, m'))
        × (frame ≢ 0)
        × ((v : ℕ)
            → virt_to_phys hhdm_offset m'.memory table v ≡ (
                if page_number v == page_number begin
                then frame
                else virt_to_phys hhdm_offset m.memory table v))
  unfolding populate map_pages
  populate_lem {ctx_page} {region_page} {kind} {begin} {wanted} held_ctx held_region fl room at_ctx
        at_start at_size at_kind fits low high =
      let region = region_page + hhdm_offset in
      let (page, m1) = request_page hhdm_offset m in
      let (step, own, above, keeps) = request_page-IsStep space (omega arith) in
      let region_same = (keeps region_page held_region).1 in
      let same_table : pagemap m1.memory (ctx_page + hhdm_offset) ≡ table =
        (keeps ctx_page held_ctx).1 _ (omega arith) ∙ at_ctx in
      let same_start : start m1.memory region ≡ begin =
        region_same region (omega arith) ∙ at_start in
      let same_kind : flags m1.memory region ≡ kind =
        region_same (region + 16) (omega arith) ∙ at_kind in
      let phys : IsPhys page = record {
        page_aligned = own.0.page_aligned;
        fits = own.0.fits_entry;
      } in
      let room' : 3 ≤ length (free_list m1) = omega (arith, step.enough) in
      let m2 = map hhdm_offset table begin page kind m1 in
      let (space2, enough, kept) = map-IsSpace step.space' room' fl begin phys in
      let still : start m2.memory region ≡ begin =
        (kept region_page (step.held region_page held_region)).1 region (omega arith)
        ∙ same_start in
      let virt : u64 (begin + 0) ≡ begin = omega arith in
      (
        m2,
        page,
        space2,
        λ q h. (
          (kept q (step.held q h)).0,
          λ a on. (kept q (step.held q h)).1 a on ∙ (keeps q h).1 a on,
        ),
        rw
            (
              at_size,
              one_page wanted low high,
              same_table,
              same_start,
              same_kind,
              ne→== page 0 own.0.ne_zero,
              virt,
              still,
            )
            refl,
        own.0.ne_zero,
        λ v. virt_to_phys-map step.space' room' fl begin phys v ∙ rw (step.virt v) refl,
      )

-- A context of the heap, in a page that is held, beside the page tables that it names.
pub record IsContext (hhdm_offset table : ℕ) (m : Machine) (ctx_page : ℕ) : Type 0 where
  pub space : IsSpace hhdm_offset table m
  pub held : IsHeld space ctx_page
  pub table_there : table ≢ 0
  pub top_there : root m.memory (ctx_page + hhdm_offset) ≢ 0
  pub at_table : pagemap m.memory (ctx_page + hhdm_offset) ≡ table

module _ {hhdm_offset table ctx_page : ℕ} {m : Machine}
    (context : IsContext hhdm_offset table m ctx_page) where
  abbrev ctx : ℕ
  ctx = ctx_page + hhdm_offset

  abbrev top : ℕ
  top = root m.memory ctx

  -- After the search the new region is hung behind the last one and gets its pages.
  pub vma_alloc-hang :
      (fuel : ℕ) {last : ℕ} (rs : List ℕ) (wanted kind : ℕ)
      → AreRegions m.memory top rs last
      → m.memory 0 ≡ 0
      → (last_page : ℕ) → IsHeld context.space last_page
      → last ≡ last_page + hhdm_offset
      → length rs < fuel
      → 1 ≤ length (free_list m)
      → 0 < wanted
      → wanted ≤ region_end m.memory last
      → let (page, m1) = request_page hhdm_offset m in
        vma_alloc hhdm_offset fuel ctx wanted kind m
        ≡ some (
            populate hhdm_offset ctx
              (page + hhdm_offset)
              (hang last (page + hhdm_offset) 0 wanted kind m1))
  unfolding vma_alloc insert_behind append_behind
  vma_alloc-hang fuel {last} [] wanted kind (end, e) null_page last_page held at enough room low
        fits =
      let (page, m1) = request_page hhdm_offset m in
      let (step, own, above, keeps) = request_page-IsStep context.space room in
      let other = (keeps ctx_page context.held).0 in
      let same : root (memset_zero (page + hhdm_offset) 40 m1).memory ctx ≡ last =
        memset_zero-off hhdm_offset page m1 (ctx + 8) (
          other_page hhdm_offset ctx_page page (ctx + 8) context.held.0.page_aligned
            own.0.page_aligned other (omega arith))
        ∙ (keeps ctx_page context.held).1 (ctx + 8) (omega arith)
        ∙ e in
      rw
        (
          above,
          ne→== ctx 0 (omega (arith, context.held.0.ne_zero)),
          ne→== _ _ context.top_there,
          context.at_table,
          ne→== _ _ context.table_there,
          end,
          ne→== (page + hhdm_offset) 0 (omega (arith, own.0.ne_zero)),
          same,
        )
        refl
  vma_alloc-hang fuel {last} (r ∷ rs) wanted kind (link, there, run) null_page last_page held at
        enough room low fits =
      let (page, m1) = request_page hhdm_offset m in
      let (step, own, above, keeps) = request_page-IsStep context.space room in
      let other = (keeps last_page held).0 in
      let new_region = page + hhdm_offset in
      let cleared = memset_zero new_region 40 m1 in
      let off =
        other_page hhdm_offset last_page page (last + 24) held.0.page_aligned own.0.page_aligned
          other (omega arith) in
      let end : next
            (fill new_region (region_end cleared.memory last) wanted kind last cleared).memory last
          ≡ 0 =
        fill-off hhdm_offset page (region_end cleared.memory last) wanted kind last cleared
          (last + 24) off
        ∙ memset_zero-off hhdm_offset page m1 (last + 24) off
        ∙ (keeps last_page held).1 (last + 24) (omega arith)
        ∙ run-end m.memory top r rs last run in
      rw
        (
          ne→== ctx 0 (omega (arith, context.held.0.ne_zero)),
          ne→== _ _ context.top_there,
          context.at_table,
          ne→== _ _ context.table_there,
          link,
          ne→== _ _ there,
          find_gap-last m.memory ctx wanted low fuel r rs last null_page run (omega arith) fits,
          above,
          ne→== (page + hhdm_offset) 0 (omega (arith, own.0.ne_zero)),
          ne→== last _ (run-other m.memory top r rs last run),
          end,
        )
        refl
