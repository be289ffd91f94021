-- ===== src/Scheduler/Launch/Tests.antt =====
-- A file of one segment that is run.
use nekonix.Base.{ℕ, ◌+◌, ◌-◌, ◌*◌, ◌≡◌, refl, List, [], ◌∷◌, ltb, ◌==◌, if◌then◌else◌}
use nekonix.Pmm.{store, clear, request_page, higher_half, align_up, align_down, div_round_up}
use nekonix.Strings.{Bytes, memcpy, memset}
use nekonix.Vfs.{Nodes, directory, file}
use nekonix.Vmm.{
  index, slot, is_present, entry_address, table_of, write, ensure, map, copy_upper, new_pagemap,
}
use nekonix.Elf.{
  read_le, segment_at, page_flags, request, fill_page, load_pages, load_segment, load_segments,
  elf_load,
}
use nekonix.Scheduler.{Kernel, new, zero_frame}
use nekonix.Scheduler.Launch.{Heap}
use nekonix.Scheduler.Launch.Listed.{loading}

abbrev hhdm : ℕ
hhdm = 0xffff_8000_0000_0000

abbrev at : List (ℕ × ℕ) → ℕ → ℕ
at [] i = 0
at ((j, b) ∷ rest) i = if j == i then b else at rest i

-- A header, and one segment of four bytes.
abbrev file_bytes : List (ℕ × ℕ)
file_bytes =
    (0, 0x7f)
    ∷ (1, 0x45)
    ∷ (2, 0x4c)
    ∷ (3, 0x46)
    ∷ (4, 2)
    ∷ (25, 0x10)
    ∷ (26, 0x40)
    ∷ (32, 64)
    ∷ (56, 1)
    ∷ (64, 1)
    ∷ (68, 5)
    ∷ (72, 120)
    ∷ (81, 0x10)
    ∷ (82, 0x40)
    ∷ (96, 4)
    ∷ (104, 16)
    ∷ (120, 97)
    ∷ (121, 98)
    ∷ (122, 99)
    ∷ (123, 100)
    ∷ []

abbrev memory : Bytes
memory a = if ltb a 0x5000 then 1 else at file_bytes (a - 0x5000)

-- The root at 16, and the file "a" at 32.
abbrev nodes : Nodes
nodes p =
    if p == 16
    then record {
      parent = 0;
      next = 0;
      child = 32;
      type = directory;
      permissions = 0x557;
      name = 47 ∷ [];
      size = 0;
      creation_time = 0;
      modification_time = 0;
      uid = 0;
      data' = 0;
    }
    else record {
      parent = 16;
      next = 0;
      child = 0;
      type = file;
      permissions = 0x555;
      name = 97 ∷ [];
      size = 124;
      creation_time = 0;
      modification_time = 0;
      uid = 0;
      data' = 0x5000;
    }

abbrev heap : Heap
heap = record { copy = 8; fd = 9; content = 0x6000 }

abbrev kernel : Kernel
kernel = record {
  processes = λ i. 0;
  process_count = 0;
  current_index = 0;
  tick_count = 0;
  pid_counter = 0;
  table = λ p. record { pid = 0; state = new; pagemap = 0; ctx = zero_frame; name = 0 };
  machine = record {
    stack = record { base = hhdm; pages = λ i. 0x10000 + 0x1000 * i; idx = 8; max = 8 };
    memory = λ a. 0;
  };
  pagemap = hhdm + 0x1000;
}

abbrev copied : Bytes
copied = memcpy 124 0x6000 0x5000 memory

entered : (loading hhdm (hhdm + 0x1000) 0 0x6000 copied kernel).0 ≡ 0x401000
unfolding elf_load load_segments load_segment load_pages request fill_page page_flags memcpy memset
    segment_at read_le align_up align_down div_round_up map ensure write store request_page clear
    higher_half table_of entry_address is_present slot index new_pagemap copy_upper
entered = refl

abbrev free_pages : List ℕ
free_pages = 0x16000 ∷ 0x15000 ∷ 0x14000 ∷ 0x13000 ∷ 0x12000 ∷ 0x11000 ∷ 0x10000 ∷ []
