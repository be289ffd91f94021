-- ===== src/Elf/Tests.antt =====
-- A small executable with a segment of two pages.
use nekonix.Base.{
  ℕ, ◌+◌, ◌-◌, ◌*◌, ◌≡◌, refl, ◌==◌, if◌then◌else◌, none, some, List, [], ◌∷◌, arith, ltb,
}
use nekonix.Pmm.{store, clear, request_page, higher_half, align_up, align_down, div_round_up}
use nekonix.Pmm.Pages.{free_list}
use nekonix.Strings.{memcpy, memset}
use nekonix.Vmm.{index, slot, is_present, entry_address, table_of, write, ensure, map, virt_to_phys}
use nekonix.Vmm.Entry.{is_present_lem}
use nekonix.Vmm.Tree.{Roles, IsTree}
use nekonix.Vmm.Frames.{Frames}
use nekonix.Vmm.Space.{IsSpace}
use nekonix.Elf.{
  Store, read_le, segment_at, page_flags, request, fill_page, load_pages, load_segment,
  load_segments, elf_load,
}
use nekonix.Elf.Segments.{AreHeldBytes, IsLoading}
use nekonix.Elf.Table.{segments, Covers, AreRead, IsExecutable}
use nekonix.Elf.Program.{elf_load_lem}

abbrev hhdm : ℕ
hhdm = 0xffff_8000_0000_0000

abbrev root_table : ℕ
root_table = hhdm + 0x1000

-- The file stands in the page 0x9000.
abbrev file : ℕ
file = hhdm + 0x9000

abbrev at : List (ℕ × ℕ) → ℕ → ℕ
at [] i = 0
at ((j, b) ∷ rest) i = if j == i then b else at rest i

-- The header, a segment that is not loaded, and one that is: three bytes of the file and zeros.
abbrev file_bytes : List (ℕ × ℕ)
file_bytes =
    (0, 0x7f)
    ∷ (1, 0x45)
    ∷ (2, 0x4c)
    ∷ (3, 0x46)
    ∷ (4, 2)
    ∷ (25, 0x10)
    ∷ (26, 0x40)
    ∷ (32, 64)
    ∷ (56, 2)
    ∷ (64, 2)
    ∷ (120, 1)
    ∷ (124, 5)
    ∷ (129, 1)
    ∷ (137, 0x10)
    ∷ (138, 0x40)
    ∷ (152, 3)
    ∷ (160, 0x88)
    ∷ (161, 0x13)
    ∷ (256, 97)
    ∷ (257, 98)
    ∷ (258, 99)
    ∷ []

abbrev in_memory : Store
in_memory = record {
  machine = record {
    stack = record { base = hhdm; pages = λ i. 0x10000 + 0x1000 * i; idx = 8; max = 8 };
    memory = λ a. 0;
  };
  bytes = λ a. if ltb a file then 1 else at file_bytes (a - file);
}

abbrev only_root : Roles
only_root t = if t == root_table then some (3, 0) else none

only_root-IsTree : IsTree hhdm (λ a. 0) only_root
only_root-IsTree = record {
  child = λ t k pre i h hi there. absurd (ground (arith, is_present_lem 0));
  aligned = λ t r h. ground arith;
  placed = λ t r h. ground arith;
}

free-Frames : Frames hhdm only_root (free_list in_memory.machine)
free-Frames = ground arith

abbrev in_memory-IsSpace : IsSpace hhdm root_table in_memory.machine
in_memory-IsSpace = record {
  role = only_root;
  direct_map = refl;
  tree = only_root-IsTree;
  root = refl;
  frames = free-Frames;
}

file-AreHeldBytes : AreHeldBytes in_memory-IsSpace file 0x200
file-AreHeldBytes k below = (0x9000, ground arith, omega arith)

file-IsExecutable : IsExecutable file 0x200 in_memory.bytes
unfolding read_le segment_at align_up align_down div_round_up
file-IsExecutable = record {
  magic = refl;
  class = refl;
  header = omega arith;
  table = omega arith;
  placed = omega arith;
  loadable = (
    λ type. absurd (omega arith),
    (
      λ type. (
        record { lower = omega arith; file = omega arith; place = omega arith },
        omega arith,
        tt,
      ),
      tt,
    ),
  );
}

elf_load_example :
    let needed = segments 2 (file + 64) in_memory.bytes in
    (s' : Store) × (elf_load hhdm file root_table in_memory ≡ (0x401000, s'))
    × (l : IsLoading in_memory in_memory-IsSpace 8 (Covers needed) s') × AreRead l.space' s'.bytes
        file in_memory.bytes needed
unfolding read_le segment_at align_up align_down div_round_up
elf_load_example =
    elf_load_lem in_memory in_memory-IsSpace file 0x200 file-IsExecutable file-AreHeldBytes
      (omega arith)

load_runs :
    let s' = (elf_load hhdm file root_table in_memory).1 in
    let memory = s'.machine.memory in
    ((elf_load hhdm file root_table in_memory).0 ≡ 0x401000)
    × (virt_to_phys hhdm memory root_table 0x40_1000 ≡ 0x17000)
    × (virt_to_phys hhdm memory root_table 0x40_2000 ≡ 0x13000)
    × (virt_to_phys hhdm memory root_table 0x40_3000 ≡ 0)
    × (s'.bytes (hhdm + 0x17002) ≡ 99)
    × (s'.bytes (hhdm + 0x17003) ≡ 0)
unfolding elf_load load_segments load_segment load_pages request fill_page page_flags memcpy memset
    segment_at read_le align_up align_down div_round_up map virt_to_phys ensure write store
    request_page clear higher_half table_of entry_address is_present slot index
load_runs = (refl, refl, refl, refl, refl, refl)
