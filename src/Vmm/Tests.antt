-- ===== src/Vmm/Tests.antt =====
-- One address space with an empty root table, and the theorems at it.
use nekonix.Base.{
  ℕ, true, false, ◌+◌, ◌≤◌, ◌≡◌, refl, ◌==◌, if◌then◌else◌, none, some, [], arith, length,
}
use nekonix.Pmm.{Machine, store, clear, request_page, higher_half}
use nekonix.Pmm.Pages.{free_list}
use nekonix.Vmm.{
  index, slot, is_present, entry_address, table_of, write, ensure, map, unmap, virt_to_phys,
}
use nekonix.Vmm.Entry.{IsFlags, is_present_lem}
use nekonix.Vmm.Tree.{Roles, IsTree}
use nekonix.Vmm.Space.{IsSpace, IsHeld, virt_to_phys-map, map-IsSpace}
use nekonix.Vmm.Held.{Keeps}
use nekonix.Vmm.Init.{KernelImage, pagemap_is_valid, entries_are_valid}
use nekonix.Vmm.Unmap.{virt_to_phys-unmap}

abbrev hhdm : ℕ
hhdm = 0xffff_8000_0000_0000

abbrev root_table : ℕ
root_table = hhdm + 0x1000

abbrev three_pages : Machine
three_pages = record {
  stack = record {
    base = hhdm;
    pages = λ i. if i == 0 then 0x2000 else if i == 1 then 0x3000 else 0x4000;
    idx = 3;
    max = 3;
  };
  memory = λ a. 0;
}

abbrev only_root : Roles
only_root t = if t == root_table then some (3, 0) else none

only_root-IsTree : IsTree hhdm (λ a. 0) only_root
only_root-IsTree = record {
  child = λ t k pre i h hi there. absurd (ground (arith, is_present_lem 0));
  aligned = λ t r h. ground arith;
  placed = λ t r h. ground arith;
}

three_pages-IsSpace : IsSpace hhdm root_table three_pages
three_pages-IsSpace = record {
  role = only_root;
  direct_map = refl;
  tree = only_root-IsTree;
  root = refl;
  frames = ground arith;
}

three-IsFlags : IsFlags 3
three-IsFlags = omega arith

map_runs :
    let m = map hhdm root_table 0x40_1000 0x9000 3 three_pages in
    (virt_to_phys hhdm m.memory root_table 0x40_1abc ≡ 0x9000)
    × (virt_to_phys hhdm m.memory root_table 0x40_2000 ≡ 0)
    × (free_list m ≡ [])
unfolding map virt_to_phys ensure write store request_page clear higher_half table_of entry_address
    is_present slot index
map_runs = (refl, refl, refl)

virt_to_phys-map_example :
    virt_to_phys hhdm
      (map hhdm root_table 0x40_1000 0x9000 3 three_pages).memory
      root_table
      0x40_1abc
    ≡ 0x9000
virt_to_phys-map_example =
    virt_to_phys-map three_pages-IsSpace (omega arith) three-IsFlags 0x40_1000 {phys = 0x9000}
      (omega arith) 0x40_1abc

map-IsSpace_example :
    let m' = map hhdm root_table 0x40_1000 0x9000 3 three_pages in
    (space' : IsSpace hhdm root_table m') × (3 ≤ length (free_list m') + 3)
    × ((q : ℕ)
        → IsHeld three_pages-IsSpace q
        → IsHeld space' q × Keeps hhdm q three_pages.memory m'.memory)
map-IsSpace_example =
    map-IsSpace three_pages-IsSpace (omega arith) three-IsFlags 0x40_1000 {phys = 0x9000}
      (omega arith)

virt_to_phys-unmap_example :
    virt_to_phys hhdm (unmap hhdm root_table 0x40_1000 three_pages).memory root_table 0x40_1abc ≡ 0
virt_to_phys-unmap_example = virt_to_phys-unmap three_pages-IsSpace 0x40_1000 0x40_1abc

-- One page of code at the end of the address space.
abbrev small_kernel : KernelImage
small_kernel = record {
  requests_start = 0;
  requests_end = 0;
  text_start = 0xffff_ffff_8000_0010;
  text_end = 0xffff_ffff_8000_0800;
  rodata_start = 0;
  rodata_end = 0;
  data_start = 0;
  data_end = 0;
  virt_base = 0xffff_ffff_8000_0000;
  phys_base = 0x20_0000;
}

is_valid_runs :
    (pagemap_is_valid root_table three_pages.memory ≡ true)
    × (pagemap_is_valid root_table (map hhdm root_table 0x1000 0x9000 1 three_pages).memory ≡ false)
unfolding pagemap_is_valid entries_are_valid map ensure write store request_page clear higher_half
    table_of entry_address is_present slot index
is_valid_runs = (refl, refl)
