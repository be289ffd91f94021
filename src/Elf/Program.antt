-- ===== src/Elf/Program.antt =====
-- A program is found at the addresses of its segments.
use nekonix.Base.{
  ℕ, zero, suc, ◌+◌, ◌*◌, ◌≤◌, ◌≡◌, ◌≢◌, ◌∙◌, inl, inr, Bool, true, false, refl, ap, if◌then◌else◌,
  ◌==◌, ==_iff, Bool-cases, u64, arith, length, List,
}
use nekonix.Pmm.Pages.{free_list}
use nekonix.Strings.{Bytes}
use nekonix.Vmm.Space.{IsSpace}
use nekonix.Elf.{
  Store, Segment, segment_at, load_segment, load_segments, elf_load, e_entry, e_phoff, e_phnum,
}
use nekonix.Elf.Segments.{AreHeldBytes, IsLoading}
use nekonix.Elf.Rounds.{idle, IsLoading-trans, Reads-later, bytes-later, AreHeldBytes-later}
use nekonix.Elf.Table.{
  AreSame, read_le-same, part_of, segment_at-same, segments, pages, pages_needed, Covers,
  AreLoadable, AreRead, IsExecutable,
}
use nekonix.Elf.Loaded.{apart-Covers, AreSame-later, load_segment_lem}

-- What loading a table of segments gives; `bytes` is the memory as the file was put there.
abbrev ProgramLoaded :
    (hhdm_offset pagemap : ℕ) (s : Store)
    → IsSpace hhdm_offset pagemap s.machine
    → Bool × Store
    → ℕ
    → Bytes
    → List Segment
    → Type 0
ProgramLoaded hhdm_offset pagemap s space result source bytes table =
    (s' : Store) × (result ≡ (true, s'))
    × (l : IsLoading s space (4 * pages_needed table) (Covers table) s') × AreRead l.space' s'.bytes
        source bytes table

module _ (hhdm_offset pagemap source size : ℕ) (bytes : Bytes) where
  module _ (count ph : ℕ) (s : Store) where
    abbrev seg : Segment
    seg = segment_at ph bytes

    load_segments-skips :
        AreSame ph 56 bytes s.bytes
        → (seg.type == 1) ≡ false
        → load_segments hhdm_offset (suc count) ph source pagemap s
          ≡ load_segments hhdm_offset count (ph + 56) source pagemap s
    unfolding load_segments
    load_segments-skips same skip = rw (segment_at-same ph bytes s.bytes same, skip)

    load_segments-loads :
        (s' : Store)
        → AreSame ph 56 bytes s.bytes
        → (seg.type == 1) ≡ true
        → load_segment hhdm_offset seg source pagemap s ≡ (true, s')
        → load_segments hhdm_offset (suc count) ph source pagemap s
          ≡ load_segments hhdm_offset count (ph + 56) source pagemap s'
    unfolding load_segments
    load_segments-loads s' same loads done = rw (segment_at-same ph bytes s.bytes same, loads, done)

    -- The first segment of the table, and then the rest.
    loaded_first :
        (space : IsSpace hhdm_offset pagemap s.machine)
        → AreHeldBytes space source size
        → AreHeldBytes space ph (56 * suc count)
        → AreSame source size bytes s.bytes
        → AreSame ph (56 * suc count) bytes s.bytes
        → AreLoadable size (segments (suc count) ph bytes)
        → 4 * pages_needed (segments (suc count) ph bytes) ≤ length (free_list s.machine)
        → (seg.type == 1) ≡ true
        → ((s' : Store) (space' : IsSpace hhdm_offset pagemap s'.machine)
            → AreHeldBytes space' source size
            → AreHeldBytes space' (ph + 56) (56 * count)
            → AreSame source size bytes s'.bytes
            → AreSame (ph + 56) (56 * count) bytes s'.bytes
            → 4 * pages_needed (segments count (ph + 56) bytes) ≤ length (free_list s'.machine)
            → ProgramLoaded hhdm_offset pagemap s' space'
                (load_segments hhdm_offset count (ph + 56) source pagemap s')
                source
                bytes
                (segments count (ph + 56) bytes))
        → ProgramLoaded hhdm_offset pagemap s space
            (load_segments hhdm_offset (suc count) ph source pagemap s)
            source
            bytes
            (segments (suc count) ph bytes)
    unfolding IsLoading-trans
    loaded_first space file table same_file same_table (good, sound) room loads next =
        let is_load : seg.type ≡ 1 = (==_iff _ _).0 loads in
        let (fits, inside, apart) = good is_load in
        let rest_held : AreHeldBytes space (ph + 56) (56 * count) =
          λ k below. let (q, h, on) = table (56 + k) (omega arith) in (q, h, omega (arith, on)) in
        let rest_same : AreSame (ph + 56) (56 * count) bytes s.bytes = λ k below.
          ap s.bytes (omega arith) ∙ same_table (56 + k) (omega arith) ∙ ap bytes (omega arith) in
        let cost : (if seg.type == 1 then pages seg else 0) ≡ pages seg = rw loads in
        let (s1, done1, l1, reads1) =
          load_segment_lem hhdm_offset pagemap source size bytes seg s space fits inside file
            same_file (omega (arith, cost)) in
        let (s2, done2, l2, reads2) =
          next s1 l1.space' (AreHeldBytes-later l1 source size file)
            (AreHeldBytes-later l1 (ph + 56) (56 * count) rest_held)
            (AreSame-later l1 bytes source size file same_file)
            (AreSame-later l1 bytes (ph + 56) (56 * count) rest_held rest_same)
            (omega (arith, cost, l1.enough)) in
        (
          s2,
          load_segments-loads s1 (λ k below. same_table k (omega arith)) loads done1 ∙ done2,
          IsLoading-trans _ (Covers (segments (suc count) ph bytes)) (omega (arith, cost)) l1 l2
              (λ v on. inl (is_load, on)) (λ v on. inr on),
          (
            λ type v from to.
                Reads-later l2
                  (apart-Covers size seg (segments count (ph + 56) bytes) v fits sound apart from
                    to)
                  (reads1 v from to),
            reads2,
          ),
        )

    -- A segment of another type costs nothing.
    passed_first :
        (space : IsSpace hhdm_offset pagemap s.machine)
        → (seg.type == 1) ≡ false
        → AreSame ph (56 * suc count) bytes s.bytes
        → ProgramLoaded hhdm_offset pagemap s space
            (load_segments hhdm_offset count (ph + 56) source pagemap s)
            source
            bytes
            (segments count (ph + 56) bytes)
        → ProgramLoaded hhdm_offset pagemap s space
            (load_segments hhdm_offset (suc count) ph source pagemap s)
            source
            bytes
            (segments (suc count) ph bytes)
    unfolding IsLoading-trans idle
    passed_first space skip same (s', done, l, reads) =
        let other : seg.type ≢ 1 = λ e. cc (skip, (==_iff _ _).1 e) in
        (
          s',
          load_segments-skips (λ k below. same k (omega arith)) skip ∙ done,
          IsLoading-trans _ (Covers (segments (suc count) ph bytes)) (rw skip (omega arith))
              (idle s space (Covers (segments count (ph + 56) bytes))) l (λ v on. inr on)
              (λ v on. inr on),
          (λ type. absurd (other type), reads),
        )

  load_segments_lem :
      (count ph : ℕ) (s : Store) (space : IsSpace hhdm_offset pagemap s.machine)
      → AreLoadable size (segments count ph bytes)
      → AreHeldBytes space source size
      → AreHeldBytes space ph (56 * count)
      → AreSame source size bytes s.bytes
      → AreSame ph (56 * count) bytes s.bytes
      → 4 * pages_needed (segments count ph bytes) ≤ length (free_list s.machine)
      → ProgramLoaded hhdm_offset pagemap s space
          (load_segments hhdm_offset count ph source pagemap s)
          source
          bytes
          (segments count ph bytes)
  unfolding load_segments idle
  load_segments_lem zero ph s space sound file table same_file same_table room =
      (s, refl, idle s space _, tt)
  load_segments_lem (suc count) ph s space (good, sound) file table same_file same_table room =
      let rest_held : AreHeldBytes space (ph + 56) (56 * count) =
        λ k below. let (q, h, on) = table (56 + k) (omega arith) in (q, h, omega (arith, on)) in
      let rest_same : AreSame (ph + 56) (56 * count) bytes s.bytes = λ k below.
        ap s.bytes (omega arith) ∙ same_table (56 + k) (omega arith) ∙ ap bytes (omega arith) in
      elim (Bool-cases ((segment_at ph bytes).type == 1)) [
        | inl loads ↦
            loaded_first count ph s space file table same_file same_table (good, sound) room loads
              λ s' space'. load_segments_lem count (ph + 56) s' space' sound
        | inr skip ↦ passed_first count ph s space skip same_table (
            load_segments_lem count (ph + 56) s space sound file rest_held same_file rest_same
              (omega (arith, rw skip at room)))
      ]

module _ {hhdm_offset pagemap : ℕ} (s : Store) (space : IsSpace hhdm_offset pagemap s.machine)
    (source size : ℕ) where
  -- The table of the file that is loaded.
  abbrev table : List Segment
  table = segments (e_phnum source s.bytes) (source + e_phoff source s.bytes) s.bytes

  -- A file with a sound header, whose loadable segments lie within the file and apart from one another
  -- in the lower half, is loaded if it stands in held pages and four pages are free for each page of a
  -- segment. The answer is the entry; every address on the pages of a loaded segment is read through
  -- the page map as the file from p_offset on, counted from the first page's start, with zeros behind
  -- the part of the file. What is held and the translation of all other pages stay.
  pub elf_load_lem :
      IsExecutable source size s.bytes
      → AreHeldBytes space source size
      → 4 * pages_needed table ≤ length (free_list s.machine)
      → (s' : Store) × (elf_load hhdm_offset source pagemap s ≡ (e_entry source s.bytes, s'))
        × (l : IsLoading s space (4 * pages_needed table) (Covers table) s') × AreRead l.space'
            s'.bytes source s.bytes table
  unfolding elf_load
  elf_load_lem sound held room =
      let phnum = e_phnum source s.bytes in
      let phoff = e_phoff source s.bytes in
      let (s', done, l, reads) =
        load_segments_lem hhdm_offset pagemap source size s.bytes phnum (source + phoff) s space
          sound.loadable held
          (λ k below.
            let (q, h, on) = held (phoff + k) (omega (arith, sound)) in (q, h, omega (arith, on)))
          (λ k below. refl) (λ k below. refl) room in
      let place : u64 (source + phoff) ≡ source + phoff = omega (arith, sound) in
      let entry : e_entry source s'.bytes ≡ e_entry source s.bytes =
        read_le-same 8 (source + 24) s.bytes s'.bytes (
          part_of source size 24 8 s.bytes s'.bytes (omega (arith, sound))
            (bytes-later l source size held)) in
      (
        s',
        rw ((==_iff _ _).1 sound.magic, (==_iff _ _).1 sound.class, place, done, entry),
        l,
        reads,
      )
