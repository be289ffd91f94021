-- ===== src/Vmm/Init.antt =====
-- The page map of the kernel, vmm_init, and the test pagemap_is_valid of kernel/src/mm/vmm.c. The symbols
-- of the linker and the addresses that the boot loader gives are a parameter; cr3 is left out.
use nekonix.Base.{
  ℕ, zero, suc, ◌+◌, ◌-◌, ◌/◌, ◌%◌, ◌^◌, Bool, true, false, not, ◌==◌, if◌then◌else◌, bit_and,
  bit_or, u64, sub_u64,
}
use nekonix.Pmm.{Machine, Memory, page_size, request_page, higher_half, align_up, align_down, clear}
use nekonix.Vmm.{slot, map, map_range}

abbrev pub present : ℕ
present = 1

abbrev pub writable : ℕ
writable = 2

abbrev pub no_execute : ℕ
no_execute = 2 ^ 63

-- Where the parts of the kernel begin and end, and where it was loaded.
pub record KernelImage : Type 0 where
  pub requests_start : ℕ
  pub requests_end : ℕ
  pub text_start : ℕ
  pub text_end : ℕ
  pub rodata_start : ℕ
  pub rodata_end : ℕ
  pub data_start : ℕ
  pub data_end : ℕ
  pub virt_base : ℕ
  pub phys_base : ℕ

-- `a - __kernel_virt_base + __kernel_phys_base`
unfoldable pub loaded_at : KernelImage → ℕ → ℕ
loaded_at image a = u64 (sub_u64 a image.virt_base + image.phys_base)

module _ (hhdm_offset : ℕ) where
  unfoldable pub map_region : KernelImage → ℕ → ℕ → ℕ → ℕ → Machine → Machine
  map_region image start end flags pagemap m =
      map_range hhdm_offset (align_up end page_size / page_size + 1) (align_down start page_size)
        (align_up end page_size) (loaded_at image) flags pagemap m

  -- The first 4 GiB, at their own addresses and in the higher half.
  unfoldable pub map_direct : ℕ → ℕ → ℕ → Machine → Machine
  map_direct zero a pagemap m = m
  map_direct (suc rounds) a pagemap m =
      let flags = bit_or present writable in
      let m1 = map hhdm_offset pagemap a a flags m in
      let m2 = map hhdm_offset pagemap (higher_half hhdm_offset a) a flags m1 in
      map_direct rounds (a + page_size) pagemap m2

  -- The page map, or 0.
  unfoldable pub vmm_init : KernelImage → Machine → ℕ × Machine
  vmm_init image m =
      let (page, m0) = request_page hhdm_offset m in
      let pagemap = higher_half hhdm_offset page in
      let m1 : Machine = record m0 { memory = clear m0.memory pagemap page_size } in
      let m2 =
        map_region image image.requests_start image.requests_end (bit_or present writable) pagemap
          m1 in
      let m3 = map_region image image.text_start image.text_end present pagemap m2 in
      let m4 =
        map_region image image.rodata_start image.rodata_end (bit_or present no_execute) pagemap
          m3 in
      let m5 =
        map_region image image.data_start image.data_end
          (bit_or present (bit_or writable no_execute)) pagemap m4 in
      let m6 = map_direct (2 ^ 32 / page_size) 0 pagemap m5 in
      if pagemap == 0 then (0, m0) else (pagemap, m6)

-- `for (i = 0; i < 512; i++)`, the entries that are left.
unfoldable pub entries_are_valid : ℕ → ℕ → ℕ → Memory → Bool
entries_are_valid zero i pagemap m = true
entries_are_valid (suc n) i pagemap m =
    let entry = m (slot pagemap i) in
    let rest = entries_are_valid n (i + 1) pagemap m in
    if bit_and entry present == 0
    then rest
    else if not (bit_and entry (2 ^ 64 - 4096) % 4096 == 0)
    then false
    else if bit_and entry writable == 0
    then false
    else rest

unfoldable pub pagemap_is_valid : ℕ → Memory → Bool
pagemap_is_valid pagemap m = if pagemap == 0 then false else entries_are_valid 512 0 pagemap m
