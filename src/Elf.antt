-- ===== src/Elf.antt =====
-- The loader of executables, kernel/src/proc/elf.c. The file is read byte by byte; the page tables stand
-- in the words of the machine. A page that the loader requests for a segment comes zeroed in both; a page
-- that vmm_map requests for a table comes zeroed in the words only.
pub mod Pages
pub mod Segments
pub mod Rounds
pub mod Table
pub mod Loaded
pub mod Program
mod Tests
use nekonix.Base.{
  ℕ, zero, suc, ◌+◌, ◌-◌, ◌*◌, ◌/◌, ◌%◌, ◌^◌, Bool, true, false, not, ltb, ◌==◌, if◌then◌else◌,
  bit_and, bit_or, u64, sub_u64,
}
use nekonix.Pmm.{Machine, page_size, request_page, higher_half, align_up, align_down, clear}
use nekonix.Vmm.{map}
use nekonix.Strings.{Bytes, memcpy, memset}

-- The machine, and the content of memory byte by byte.
pub record Store : Type 0 where
  pub machine : Machine
  pub bytes : Bytes

-- A number of `n` bytes, the lowest first.
unfoldable pub read_le : ℕ → ℕ → Bytes → ℕ
read_le zero a m = 0
read_le (suc n) a m = m a + 2 ^ 8 * read_le n (a + 1) m

-- The fields of `elf_h_t` that the loader reads.
abbrev pub e_magic : ℕ → Bytes → ℕ
e_magic header m = read_le 4 header m

abbrev pub e_class : ℕ → Bytes → ℕ
e_class header m = m (header + 4)

abbrev pub e_entry : ℕ → Bytes → ℕ
e_entry header m = read_le 8 (header + 24) m

abbrev pub e_phoff : ℕ → Bytes → ℕ
e_phoff header m = read_le 8 (header + 32) m

abbrev pub e_phnum : ℕ → Bytes → ℕ
e_phnum header m = read_le 2 (header + 56) m

-- The fields of `elf_ph_t` that the loader reads.
pub record Segment : Type 0 where
  pub type : ℕ
  pub flags : ℕ
  pub offset : ℕ
  pub vaddr : ℕ
  pub filesz : ℕ
  pub memsz : ℕ

unfoldable pub segment_at : ℕ → Bytes → Segment
segment_at ph m = record {
  type = read_le 4 ph m;
  flags = read_le 4 (ph + 4) m;
  offset = read_le 8 (ph + 8) m;
  vaddr = read_le 8 (ph + 16) m;
  filesz = read_le 8 (ph + 32) m;
  memsz = read_le 8 (ph + 40) m;
}

-- Present, writable on `PF_W`, and not executable without `PF_X`.
unfoldable pub page_flags : ℕ → ℕ
page_flags p_flags =
    let writable = if bit_and p_flags 2 == 0 then 1 else bit_or 1 2 in
    if bit_and p_flags 1 == 0 then bit_or writable (2 ^ 63) else writable

abbrev pub vaddr_start : Segment → ℕ
vaddr_start ph = align_down ph.vaddr page_size

abbrev pub vaddr_end : Segment → ℕ
vaddr_end ph = align_up (u64 (ph.vaddr + ph.memsz)) page_size

module _ (hhdm_offset : ℕ) where
  unfoldable pub request : Store → ℕ × Store
  request s =
      let (page, m) = request_page hhdm_offset s.machine in
      let zeroed = clear s.bytes (higher_half hhdm_offset page) page_size in
      (page, record { machine = m; bytes = if s.machine.stack.idx == 0 then s.bytes else zeroed })

  -- What a page gets: a piece of the file, or zeros behind its end.
  unfoldable pub fill_page : ℕ → ℕ → ℕ → ℕ → Bytes → Bytes
  fill_page file_offset file_end data' phys m =
      let page = higher_half hhdm_offset phys in
      let to_copy =
        if ltb file_end (u64 (file_offset + page_size))
        then sub_u64 file_end file_offset
        else page_size in
      if ltb file_offset file_end
      then memcpy to_copy page (data' + file_offset) m
      else memset page_size page 0 m

  -- `for (addr = …; addr < vaddr_end; addr += PAGE_SIZE)`; the answer is whether the pages sufficed.
  unfoldable pub load_pages : ℕ → ℕ → Segment → ℕ → ℕ → Store → Bool × Store
  load_pages zero addr ph data' pagemap s = (true, s)
  load_pages (suc rounds) addr ph data' pagemap s =
      let (phys, s1) = request s in
      let m2 = map hhdm_offset pagemap addr phys (page_flags ph.flags) s1.machine in
      let file_offset = u64 (ph.offset + sub_u64 addr (vaddr_start ph)) in
      let filled = fill_page file_offset (u64 (ph.offset + ph.filesz)) data' phys s1.bytes in
      let more =
        load_pages rounds (u64 (addr + page_size)) ph data' pagemap
          (record { machine = m2; bytes = filled }) in
      if ltb addr (vaddr_end ph) then (if phys == 0 then (false, s1) else more) else (true, s)

  unfoldable pub load_segment : Segment → ℕ → ℕ → Store → Bool × Store
  load_segment ph data' pagemap s =
      load_pages (vaddr_end ph / page_size + 1) (vaddr_start ph) ph data' pagemap s

  -- `for (i = 0; i < header->e_phnum; i++)`; only a segment of the type PT_LOAD is loaded.
  unfoldable pub load_segments : ℕ → ℕ → ℕ → ℕ → Store → Bool × Store
  load_segments zero ph data' pagemap s = (true, s)
  load_segments (suc count) ph data' pagemap s =
      let segment = segment_at ph s.bytes in
      let (complete, s') = load_segment segment data' pagemap s in
      let next = load_segments count (ph + 56) data' pagemap s' in
      let skipped = load_segments count (ph + 56) data' pagemap s in
      if segment.type == 1 then (if complete then next else (false, s')) else skipped

  -- The entry, or 0.
  unfoldable pub elf_load : ℕ → ℕ → Store → ℕ × Store
  elf_load data' pagemap s =
      let ph = u64 (data' + e_phoff data' s.bytes) in
      let (complete, s') = load_segments (e_phnum data' s.bytes) ph data' pagemap s in
      if not (e_magic data' s.bytes == 0x464C457F)
      then (0, s)
      else if not (e_class data' s.bytes == 2)
      then (0, s)
      else if complete
      then (e_entry data' s'.bytes, s')
      else (0, s')
