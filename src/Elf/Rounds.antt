-- ===== src/Elf/Rounds.antt =====
-- The loop over the pages of a segment.
use nekonix.Base.{
  ℕ, zero, suc, ◌+◌, ◌-◌, ◌*◌, ◌/◌, ◌%◌, ◌^◌, ◌≤◌, ◌<◌, ◌≡◌, ◌≢◌, ◌∙◌, inl, inr, refl, true, ltb,
  lt→ltb, le→ltb, ltb→lt, ltb→ge, ne→==, Bool-cases, if◌then◌else◌, u64, arith, tests, length,
}
use nekonix.Pmm.{Machine}
use nekonix.Pmm.Pages.{free_list}
use nekonix.Strings.{Bytes}
use nekonix.Vmm.Tree.{page_number}
use nekonix.Vmm.Space.{IsSpace}
use nekonix.Elf.{Store, Segment, vaddr_start, vaddr_end, request, load_pages}
use nekonix.Elf.Segments.{
  Reads, AreHeldBytes, IsLoading, file_offset, file_end, page_loaded, page_loaded-IsLoading,
  request_lem,
}

-- The byte that a segment has at the address `v`: of the file, or 0 behind its part.
abbrev pub image : Segment → ℕ → Bytes → ℕ → ℕ
image ph source bytes v =
    let i = ph.offset + (v - vaddr_start ph) in
    if ltb i (ph.offset + ph.filesz) then bytes (source + i) else 0

-- The image depends on the segment's part of the file only.
pub image-same :
    (ph : Segment) (source v : ℕ) (m m' : Bytes)
    → ((k : ℕ) → k < ph.offset + ph.filesz → m' (source + k) ≡ m (source + k))
    → image ph source m' v ≡ image ph source m v
image-same ph source v m m' same =
    let i = ph.offset + (v - vaddr_start ph) in
    elim (Bool-cases (ltb i (ph.offset + ph.filesz))) [
      | inl more ↦ rw more (same i (ltb→lt _ _ more))
      | inr past ↦ rw past
    ]

-- The numbers of a segment stay in their range, and it lies in the lower half.
pub record Fits (ph : Segment) : Type 0 where
  pub lower : ph.vaddr + ph.memsz ≤ 2 ^ 47
  pub file : ph.offset + ph.filesz < 2 ^ 63
  pub place : ph.offset + (vaddr_end ph - vaddr_start ph) < 2 ^ 63

-- The pages from `addr` on, `n` of them.
abbrev pub Within : ℕ → ℕ → ℕ → Type 0
Within addr n v = (addr / 4096 ≤ page_number v) × (page_number v < addr / 4096 + n)

module _ {hhdm_offset pagemap : ℕ} {s s' : Store} {space : IsSpace hhdm_offset pagemap s.machine}
    {cost : ℕ} {Mine : ℕ → Type 0} (l : IsLoading s space cost Mine s') where
  pub AreHeldBytes-later : (from n : ℕ) → AreHeldBytes space from n → AreHeldBytes l.space' from n
  AreHeldBytes-later from n file k below = let (q, h, on) = file k below in (q, (l.held q h).0, on)

  pub bytes-later :
      (from n : ℕ)
      → AreHeldBytes space from n
      → (k : ℕ) → k < n
      → s'.bytes (from + k) ≡ s.bytes (from + k)
  bytes-later from n file k below = let (q, h, on) = file k below in (l.held q h).1 _ on

  -- A byte that is read stays, if its page is not one of the step's.
  pub Reads-later : {v b : ℕ} → ¬ Mine v → Reads space s.bytes v b → Reads l.space' s'.bytes v b
  Reads-later other (q, h, at, byte) =
      (q, (l.held q h).0, l.others _ other ∙ at, (l.held q h).1 _ (omega arith) ∙ byte)

  pub image-later :
      (ph : Segment) (source v : ℕ)
      → AreHeldBytes space source (ph.offset + ph.filesz)
      → image ph source s'.bytes v ≡ image ph source s.bytes v
  image-later ph source v file =
      image-same ph source v s.bytes s'.bytes (bytes-later source (ph.offset + ph.filesz) file)

-- What the loop gives: all pages from `addr` on.
abbrev pub PagesLoaded :
    (hhdm_offset pagemap : ℕ) (s : Store)
    → IsSpace hhdm_offset pagemap s.machine
    → Segment
    → ℕ
    → ℕ
    → ℕ
    → ℕ
    → Type 0
PagesLoaded hhdm_offset pagemap s space ph source rounds addr n =
    (s' : Store) × (load_pages hhdm_offset rounds addr ph source pagemap s ≡ (true, s'))
    × (l : IsLoading s space (4 * n) (Within addr n) s') × ((v : ℕ)
        → addr ≤ v
        → v < addr + 4096 * n
        → Reads l.space' s'.bytes v (image ph source s.bytes v))

-- The same byte at the same address, both written another way.
Reads-eq :
    {hhdm_offset pagemap : ℕ} {m : Machine} (space : IsSpace hhdm_offset pagemap m) (bytes : Bytes)
    (v v' b b' : ℕ)
    → v ≡ v'
    → b ≡ b'
    → Reads space bytes v b
    → Reads space bytes v' b'
Reads-eq space bytes v v' b b' same same' r = rw (← same, ← same') r

-- A step that changes nothing.
unfoldable pub idle :
    {hhdm_offset pagemap : ℕ} (s : Store) (space : IsSpace hhdm_offset pagemap s.machine)
    (Mine : ℕ → Type 0)
    → IsLoading s space 0 Mine s
idle s space Mine = record {
  space' = space;
  enough = omega arith;
  held = λ q h. (h, λ a on. refl);
  others = λ v other. refl;
}

-- Two steps, one after the other.
unfoldable pub IsLoading-trans :
    {hhdm_offset pagemap : ℕ} {s s1 s2 : Store} {space : IsSpace hhdm_offset pagemap s.machine}
    {a b : ℕ} {First Second : ℕ → Type 0} (cost : ℕ) (Mine : ℕ → Type 0)
    → a + b ≤ cost
    → (l : IsLoading s space a First s1) → IsLoading s1 l.space' b Second s2
    → ((v : ℕ) → First v → Mine v)
    → ((v : ℕ) → Second v → Mine v)
    → IsLoading s space cost Mine s2
IsLoading-trans cost Mine costs l l' first second = record {
  space' = l'.space';
  enough = omega (arith, l.enough, l'.enough);
  held = λ q h.
      let (h1, same1) = l.held q h in
      let (h2, same2) = l'.held q h1 in (h2, λ a on. same2 a on ∙ same1 a on);
  others = λ v other.
      l'.others v (λ mine. other (second v mine)) ∙ l.others v (λ mine. other (first v mine));
}

module _ (hhdm_offset pagemap : ℕ) (ph : Segment) (source : ℕ) (fits : Fits ph)
    (lower : vaddr_end ph ≤ 2 ^ 47) where
  load_pages-round :
      (rounds addr : ℕ) (s : Store)
      → addr < vaddr_end ph
      → addr + 4096 < 2 ^ 64
      → (request hhdm_offset s).0 ≢ 0
      → load_pages hhdm_offset (suc rounds) addr ph source pagemap s
        ≡ load_pages hhdm_offset rounds
            (addr + 4096)
            ph
            source
            pagemap
            (page_loaded hhdm_offset pagemap s ph source addr)
  unfolding load_pages
  load_pages-round rounds addr s more low given =
      let next : u64 (addr + 4096) ≡ addr + 4096 = omega arith in
      rw (lt→ltb _ _ more, ne→== _ _ given, next)

  no_pages :
      (rounds addr : ℕ) (s : Store) (space : IsSpace hhdm_offset pagemap s.machine)
      → vaddr_end ph ≤ addr
      → PagesLoaded hhdm_offset pagemap s space ph source rounds addr 0
  unfolding load_pages
  no_pages zero addr s space past = (s, refl, idle s space _, λ v low high. absurd (omega arith))
  no_pages (suc rounds) addr s space past =
      (s, rw (le→ltb _ _ past), idle s space _, λ v low high. absurd (omega arith))

  module _ (n rounds addr : ℕ) (s : Store) {space : IsSpace hhdm_offset pagemap s.machine}
      (aligned : addr % 4096 ≡ 0) (start : vaddr_start ph ≤ addr)
      (end : vaddr_end ph ≡ addr + 4096 * suc n)
      (l : IsLoading s space 4
        (λ v. page_number v ≡ page_number addr)
        (page_loaded hhdm_offset pagemap s ph source addr)) where
    abbrev loaded : Store
    loaded = page_loaded hhdm_offset pagemap s ph source addr

    first_page :
        ((k : ℕ)
          → k < 4096
          → page_number (addr + k) ≡ page_number addr
          → Reads l.space' loaded.bytes (addr + k) (
              if ltb (file_offset ph addr + k) (file_end ph)
              then s.bytes (source + (file_offset ph addr + k))
              else 0))
        → (v : ℕ) → addr ≤ v
        → v < addr + 4096
        → Reads l.space' loaded.bytes v (image ph source s.bytes v)
    first_page reads v from to =
        let at : addr + (v - addr) ≡ v = omega arith in
        let place : file_offset ph addr + (v - addr) ≡ ph.offset + (v - vaddr_start ph) =
          omega (arith, fits) in
        let past : file_end ph ≡ ph.offset + ph.filesz = omega (arith, fits) in
        Reads-eq l.space' loaded.bytes (addr + (v - addr)) v _ (image ph source s.bytes v) at
          (rw (place, past)) (reads (v - addr) (omega arith) (omega (arith, fits)))

    next_page :
        (request hhdm_offset s).0 ≢ 0
        → AreHeldBytes space source (ph.offset + ph.filesz)
        → ((v : ℕ)
            → addr ≤ v
            → v < addr + 4096
            → Reads l.space' loaded.bytes v (image ph source s.bytes v))
        → PagesLoaded hhdm_offset pagemap loaded l.space' ph source rounds (addr + 4096) n
        → PagesLoaded hhdm_offset pagemap s space ph source (suc rounds) addr (suc n)
    unfolding IsLoading-trans
    next_page given file first (s', done, rest, later) = (
      s',
      load_pages-round rounds addr s (omega arith) (omega (arith, fits)) given ∙ done,
      IsLoading-trans (4 * suc n) (Within addr (suc n)) (omega arith) l rest
          (λ v same. omega (arith, same, fits)) (λ v other. omega (arith, other)),
      λ v from to. elim (Bool-cases (ltb v (addr + 4096))) [
        | inl here ↦
            Reads-later rest (λ other. omega (tests, here, other, fits))
              (first v from (ltb→lt _ _ here))
        | inr there ↦
            let (q, h, at, byte) = later v (ltb→ge _ _ there) (omega arith) in
            (q, h, at, byte ∙ image-later l ph source v file)
      ],
    )

  pub load_pages_lem :
      (n rounds addr : ℕ) (s : Store) (space : IsSpace hhdm_offset pagemap s.machine)
      → addr % 4096 ≡ 0
      → vaddr_start ph ≤ addr
      → vaddr_end ph ≡ addr + 4096 * n
      → n ≤ rounds
      → 4 * n ≤ length (free_list s.machine)
      → AreHeldBytes space source (ph.offset + ph.filesz)
      → PagesLoaded hhdm_offset pagemap s space ph source rounds addr n
  load_pages_lem zero rounds addr s space aligned start end enough room file =
      no_pages rounds addr s space (omega arith)
  load_pages_lem (suc n) zero addr s space aligned start end enough room file = absurd (omega arith)
  load_pages_lem (suc n) (suc rounds) addr s space aligned start end enough room file =
      let at_offset : file_offset ph addr ≡ ph.offset + (addr - vaddr_start ph) =
        omega (arith, fits) in
      let at_end : file_end ph ≡ ph.offset + ph.filesz = omega (arith, fits) in
      let (step, own, above, zeroed, keeps) = request_lem s space (omega arith) in
      let (l, reads) =
        page_loaded-IsLoading s space (omega arith) ph source addr
          (λ k below.
            let (q, h, on) = file (file_offset ph addr + k) (omega arith) in
            (q, h, omega (arith, on)))
          aligned (omega (arith, fits)) in
      next_page n rounds addr s aligned start end l own.0.ne_zero file
        (first_page n rounds addr s {space = space} aligned start end l reads)
        (load_pages_lem n rounds (addr + 4096) (page_loaded hhdm_offset pagemap s ph source addr)
          l.space' (omega arith) (omega arith) (omega arith) (omega arith) (omega (arith, l.enough))
          (AreHeldBytes-later l source _ file))
