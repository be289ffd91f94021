-- ===== src/Vmm.antt =====
-- The four-level page tables, kernel/src/mm/vmm.c. A table is an array of 512 words at an address
-- of the higher half; the machine's memory is read and written by such addresses.
pub mod Entry
pub mod Tree
pub mod Grow
pub mod Frames
pub mod Held
pub mod Ensure
pub mod Map
pub mod Space
pub mod Client
pub mod Init
pub mod Range
pub mod Unmap
mod Tests
use nekonix.Base.{
  ℕ, zero, suc, ◌+◌, ◌-◌, ◌*◌, ◌/◌, ◌%◌, ◌^◌, ◌≡◌, Bool, true, false, not, ◌&&◌, Option, none, some,
  List, [], ◌∷◌, ltb, leb, ◌==◌, if◌then◌else◌, u64, sub_u64, bit_and, bit_or,
}
use nekonix.Pmm.{
  Machine, Memory, store, page_size, clear, request_page, free_page, higher_half, align_up,
  align_down,
}

abbrev pub present : ℕ
present = 1

abbrev pub writable : ℕ
writable = 2

abbrev pub no_execute : ℕ
no_execute = 2 ^ 63

abbrev pub address_mask : ℕ
address_mask = 0x000FFFFFFFFFF000

-- `(virt & (u64)0x1ff << shift) >> shift`
unfoldable pub index : ℕ → ℕ → ℕ
index shift virt = bit_and virt (0x1ff * 2 ^ shift) / 2 ^ shift

-- The address of `table[i]`.
unfoldable pub slot : ℕ → ℕ → ℕ
slot table i = u64 (table + 8 * i)

unfoldable pub is_present : ℕ → Bool
is_present entry = not (bit_and entry present == 0)

unfoldable pub entry_address : ℕ → ℕ
entry_address entry = bit_and entry address_mask

-- `table[i] = v`
unfoldable pub write : ℕ → ℕ → Machine → Machine
write a v m = record m { memory = store m.memory a v }

module _ (hhdm_offset : ℕ) where
  -- The table that an entry leads to.
  unfoldable pub table_of : ℕ → ℕ
  table_of entry = higher_half hhdm_offset (entry_address entry)

  unfoldable pub virt_to_phys : Memory → ℕ → ℕ → ℕ
  virt_to_phys m pagemap virt =
      let e4 = m (slot pagemap (index 39 virt)) in
      let e3 = m (slot (table_of e4) (index 30 virt)) in
      let e2 = m (slot (table_of e3) (index 21 virt)) in
      let e1 = m (slot (table_of e2) (index 12 virt)) in
      if not (is_present e4)
      then 0
      else if not (is_present e3)
      then 0
      else if not (is_present e2)
      then 0
      else entry_address e1

  -- `if (!(table[i] & 1)) table[i] = pmm_request_page() | flags;`
  unfoldable pub ensure : ℕ → ℕ → ℕ → Machine → Machine
  ensure table i flags m =
      let (page, m') = request_page hhdm_offset m in
      if is_present (m.memory (slot table i))
      then m
      else write (slot table i) (bit_or page flags) m'

  unfoldable pub map : ℕ → ℕ → ℕ → ℕ → Machine → Machine
  map pagemap virt phys flags m =
      let m4 = ensure pagemap (index 39 virt) flags m in
      let pml3_table = table_of (m4.memory (slot pagemap (index 39 virt))) in
      let m3 = ensure pml3_table (index 30 virt) flags m4 in
      let pml2_table = table_of (m3.memory (slot pml3_table (index 30 virt))) in
      let m2 = ensure pml2_table (index 21 virt) flags m3 in
      let pml1_table = table_of (m2.memory (slot pml2_table (index 21 virt))) in
      write (slot pml1_table (index 12 virt)) (bit_or phys flags) m2

  -- An absent entry on the way is set to 0, and so is the entry of the page at the end.
  unfoldable pub unmap : ℕ → ℕ → Machine → Machine
  unmap pagemap virt m =
      let s4 = slot pagemap (index 39 virt) in
      let s3 = slot (table_of (m.memory s4)) (index 30 virt) in
      let s2 = slot (table_of (m.memory s3)) (index 21 virt) in
      let s1 = slot (table_of (m.memory s2)) (index 12 virt) in
      if not (is_present (m.memory s4))
      then write s4 0 m
      else if not (is_present (m.memory s3))
      then write s3 0 m
      else if not (is_present (m.memory s2))
      then write s2 0 m
      else write s1 0 m

  -- `for (i = 256; i < 512; i++) pagemap[i] = kernel_pagemap[i]`
  unfoldable pub copy_upper : ℕ → ℕ → ℕ → ℕ → Machine → Machine
  copy_upper zero i kernel_pagemap pagemap m = m
  copy_upper (suc n) i kernel_pagemap pagemap m =
      copy_upper n (i + 1) kernel_pagemap pagemap
        (write (slot pagemap i) (m.memory (slot kernel_pagemap i)) m)

  -- The pointer is 0 where the code returns NULL.
  unfoldable pub new_pagemap : ℕ → Machine → ℕ × Machine
  new_pagemap kernel_pagemap m =
      let (page, m') = request_page hhdm_offset m in
      let pagemap = higher_half hhdm_offset page in
      let cleared = record m' { memory = clear m'.memory pagemap page_size } in
      if pagemap == 0 then (0, m') else (pagemap, copy_upper 256 256 kernel_pagemap pagemap cleared)

  -- `for (a = from; a < to; a += PAGE_SIZE) vmm_map(pagemap, a, target a, flags)`
  unfoldable pub map_range : ℕ → ℕ → ℕ → (ℕ → ℕ) → ℕ → ℕ → Machine → Machine
  map_range zero a to target flags pagemap m = m
  map_range (suc rounds) a to target flags pagemap m =
      let more =
        map_range rounds (a + page_size) to target flags pagemap
          (map pagemap a (target a) flags m) in
      if ltb a to then more else m

unfoldable pub destroy_pagemap : ℕ → Machine → Machine
destroy_pagemap pagemap m = free_page pagemap m
