-- ===== src/Vma.antt =====
-- The regions of a page map, kernel/src/mm/vma.c, and the calls of them in
-- kernel/src/mm/liballoc/liballoc_wrappers.c. A context and its regions stand in the words of the
-- machine's memory, each in a page of its own. The kernel maps the first pages of memory where they
-- are, so that a field of the null pointer is the word at the offset of that field.
pub mod Regions
pub mod Insert
pub mod Place
pub mod Fresh
pub mod Extend
pub mod Heap
mod Tests
use nekonix.Base.{
  ℕ, zero, suc, ◌+◌, ◌-◌, ◌*◌, ◌/◌, ◌%◌, ◌^◌, ◌≡◌, Bool, true, false, Option, none, some, ltb, leb,
  ◌==◌, if◌then◌else◌, u64, sub_u64, bit_or,
}
use nekonix.Pmm.{
  Machine, Memory, page_size, clear, higher_half, physical, request_page, free_page, align_up,
}
use nekonix.Vmm.{map, unmap, virt_to_phys, write}

-- The fields of `vma_region_t`, by their places in the memory.
abbrev pub start : Memory → ℕ → ℕ
start m region = m region

abbrev pub size : Memory → ℕ → ℕ
size m region = m (region + 8)

abbrev pub flags : Memory → ℕ → ℕ
flags m region = m (region + 16)

abbrev pub next : Memory → ℕ → ℕ
next m region = m (region + 24)

abbrev pub prev : Memory → ℕ → ℕ
prev m region = m (region + 32)

-- The fields of `vma_context_t`.
abbrev pub pagemap : Memory → ℕ → ℕ
pagemap m ctx = m ctx

abbrev pub root : Memory → ℕ → ℕ
root m ctx = m (ctx + 8)

-- `memset(p, 0, n)`
unfoldable pub memset_zero : ℕ → ℕ → Machine → Machine
memset_zero p n m = record m { memory = clear m.memory p n }

-- The end of a region, as the code computes it.
abbrev pub region_end : Memory → ℕ → ℕ
region_end m region = u64 (start m region + size m region * page_size)

-- `while (last_region->next != NULL) last_region = last_region->next;`
unfoldable pub last_region : ℕ → ℕ → Memory → Option ℕ
last_region zero region m = none
last_region (suc fuel) region m =
    let rest = last_region fuel (next m region) m in
    if next m region == 0 then some region else rest

-- The loop that looks for a region with a gap behind it: such a region, or the root if there is none.
unfoldable pub find_gap : ℕ → ℕ → ℕ → ℕ → Memory → Option ℕ
find_gap zero ctx region wanted m = none
find_gap (suc fuel) ctx region wanted m =
    let rest = find_gap fuel ctx (next m region) wanted m in
    if region == root m ctx
    then some region
    else if leb wanted (sub_u64 (region_end m region) (start m (next m region)))
    then some region
    else rest

-- The fields of a region that is hung behind another one.
unfoldable pub fill : ℕ → ℕ → ℕ → ℕ → ℕ → Machine → Machine
fill region begin wanted kind before m =
    write (region + 32) before
      (write (region + 16) kind (write (region + 8) wanted (write region begin m)))

module _ (hhdm_offset : ℕ) where
  unfoldable pub vma_create_context : ℕ → Machine → ℕ × Machine
  unfolding memset_zero
  vma_create_context table m =
      let (page1, m1) = request_page hhdm_offset m in
      let ctx = higher_half hhdm_offset page1 in
      let (page2, m2) = request_page hhdm_offset (memset_zero ctx 16 m1) in
      let region = higher_half hhdm_offset page2 in
      let m3 = memset_zero region 40 (write (ctx + 8) region m2) in
      (ctx, write (region + 8) 1 (write region 0 (write ctx table m3)))

  -- `for (i = 0; i < pages; i++)`: the answer is whether there were pages enough.
  unfoldable pub map_pages : ℕ → ℕ → ℕ → ℕ → Machine → Bool × Machine
  map_pages zero i ctx region m = (true, m)
  map_pages (suc pages) i ctx region m =
      let (page, m1) = request_page hhdm_offset m in
      let virt = u64 (start m1.memory region + i * page_size) in
      let more =
        map_pages pages (i + 1) ctx region
          (map hhdm_offset (pagemap m1.memory ctx) virt page (flags m1.memory region) m1) in
      if page == 0 then (false, m1) else more

  -- The pages of a region, and its address if there were enough.
  unfoldable pub populate : ℕ → ℕ → Machine → ℕ × Machine
  populate ctx region m =
      let pages = align_up (size m.memory region) page_size / page_size in
      let (complete, m') = map_pages pages 0 ctx region m in
      if complete then (start m'.memory region, m') else (0, m')

  -- The new region behind one with a gap, in front of the next one, whose `prev` stays.
  unfoldable pub insert_behind : ℕ → ℕ → ℕ → ℕ → ℕ → Machine → Machine
  unfolding memset_zero fill
  insert_behind region new_region wanted kind ctx m =
      let m1 = memset_zero new_region 40 m in
      let m2 = fill new_region (region_end m1.memory region) wanted kind region m1 in
      write (region + 24) new_region (write (new_region + 24) (next m2.memory region) m2)

  -- The new region at the end of the list.
  unfoldable pub append_behind : ℕ → ℕ → ℕ → ℕ → Machine → Machine
  unfolding fill
  append_behind last new_region wanted kind m =
      write (last + 24) new_region
        (write (new_region + 24) 0 (fill new_region (region_end m.memory last) wanted kind last m))

  -- The address of a region of `wanted` units, or 0; a page of the higher half is never 0.
  unfoldable pub vma_alloc : ℕ → ℕ → ℕ → ℕ → Machine → Option (ℕ × Machine)
  unfolding memset_zero insert_behind append_behind populate
  vma_alloc fuel ctx wanted kind m =
      let first = next m.memory (root m.memory ctx) in
      let (page, m1) = request_page hhdm_offset m in
      let new_region = higher_half hhdm_offset page in
      let cleared = memset_zero new_region 40 m1 in
      if ctx == 0
      then some (0, m)
      else if root m.memory ctx == 0
      then some (0, m)
      else if pagemap m.memory ctx == 0
      then some (0, m)
      else if first == 0
      then (if new_region == 0
          then some (0, m1)
          else some (
              populate ctx new_region
                (append_behind (root cleared.memory ctx) new_region wanted kind cleared)))
      else elim (find_gap fuel ctx first wanted m.memory) [
        | none ↦ none
        | some region ↦
            if new_region == 0
            then some (0, m1)
            else if region == root m.memory ctx
            then elim (last_region fuel (root cleared.memory ctx) cleared.memory) [
              | none ↦ none
              | some last ↦
                  some (populate ctx new_region (append_behind last new_region wanted kind cleared))
            ]
            else some (populate ctx new_region (insert_behind region new_region wanted kind ctx m1))
      ]

  -- The region that begins at an address, or the null pointer.
  unfoldable pub find_region : ℕ → ℕ → ℕ → Memory → Option ℕ
  find_region zero address region m = none
  find_region (suc fuel) address region m =
      let rest = find_region fuel address (next m region) m in
      if region == 0 then some 0 else if start m region == address then some region else rest

  -- `for (i = 0; i < region->size; i++)`: each page of the region is given back and unmapped.
  unfoldable pub unmap_pages : ℕ → ℕ → ℕ → ℕ → Machine → Machine
  unmap_pages zero i ctx region m = m
  unmap_pages (suc pages) i ctx region m =
      let virt = u64 (start m.memory region + i * page_size) in
      let m1 = free_page (virt_to_phys hhdm_offset m.memory (pagemap m.memory ctx) virt) m in
      unmap_pages pages (i + 1) ctx region (unmap hhdm_offset (pagemap m1.memory ctx) virt m1)

  unfoldable pub vma_free : ℕ → ℕ → ℕ → Machine → Option Machine
  vma_free fuel ctx address m =
      if ctx == 0 then some m else elim (find_region fuel address (root m.memory ctx) m.memory) [
        | none ↦ none
        | some region ↦
            let before = prev m.memory region in
            let behind = next m.memory region in
            let m1 = unmap_pages (size m.memory region) 0 ctx region m in
            let m2 = if before == 0 then m1 else write (before + 24) behind m1 in
            let m3 = if behind == 0 then m2 else write (behind + 32) before m2 in
            let m4 = if region == root m3.memory ctx then write (ctx + 8) behind m3 else m3 in
            if region == 0 then some m else some (free_page (physical hhdm_offset region) m4)
      ]

  -- `while (region != NULL)`: the pages of the regions go back.
  unfoldable pub free_regions : ℕ → ℕ → Machine → Option Machine
  free_regions zero region m = none
  free_regions (suc fuel) region m =
      let rest =
        free_regions fuel (next m.memory region) (free_page (physical hhdm_offset region) m) in
      if region == 0 then some m else rest

  unfoldable pub vma_destroy_context : ℕ → ℕ → Machine → Option Machine
  vma_destroy_context fuel ctx m = elim (free_regions fuel (root m.memory ctx) m) [
    | none ↦ none
    | some m' ↦ some (free_page (physical hhdm_offset ctx) m')
  ]

  -- The heap asks for pages, present and writable, and passes their number on.
  unfoldable pub liballoc_alloc : ℕ → ℕ → ℕ → Machine → Option (ℕ × Machine)
  liballoc_alloc fuel ctx pages m = vma_alloc fuel ctx pages (bit_or 1 2) m

  unfoldable pub liballoc_free : ℕ → ℕ → ℕ → ℕ → Machine → Option Machine
  liballoc_free fuel ctx address pages m = vma_free fuel ctx address m
