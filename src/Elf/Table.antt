-- ===== src/Elf/Table.antt =====
-- The segments that an executable lists, and what a loadable file is.
use nekonix.Base.{
  ℕ, zero, suc, ◌+◌, ◌-◌, ◌*◌, ◌/◌, ◌%◌, ◌^◌, ◌≤◌, ◌<◌, ◌≡◌, ◌∙◌, ◌⊎◌, if◌then◌else◌, ◌==◌, List,
  [], ◌∷◌, refl, ap, arith,
}
use nekonix.Pmm.{Machine, align_up, align_down, div_round_up}
use nekonix.Strings.{Bytes}
use nekonix.Vmm.Space.{IsSpace}
use nekonix.Elf.{
  Segment, read_le, segment_at, vaddr_start, vaddr_end, e_magic, e_class, e_phoff, e_phnum,
}
use nekonix.Elf.Segments.{Reads}
use nekonix.Elf.Rounds.{Fits, Within, image}

-- `n` bytes at `a` are the same.
abbrev pub AreSame : ℕ → ℕ → Bytes → Bytes → Type 0
AreSame a n m m' = (k : ℕ) → k < n → m' (a + k) ≡ m (a + k)

pub read_le-same : (n a : ℕ) (m m' : Bytes) → AreSame a n m m' → read_le n a m' ≡ read_le n a m
unfolding read_le
read_le-same zero a m m' same = refl
read_le-same (suc n) a m m' same =
    let first : m' a ≡ m a = ap m' (omega arith) ∙ same 0 (omega arith) ∙ ap m (omega arith) in
    let rest : AreSame (a + 1) n m m' =
      λ k below. ap m' (omega arith) ∙ same (k + 1) (omega arith) ∙ ap m (omega arith) in
    rw (first, read_le-same n (a + 1) m m' rest)

pub part_of : (a n i l : ℕ) (m m' : Bytes) → i + l ≤ n → AreSame a n m m' → AreSame (a + i) l m m'
part_of a n i l m m' fits same k below =
    ap m' (omega arith) ∙ same (i + k) (omega arith) ∙ ap m (omega arith)

pub segment_at-same :
    (ph : ℕ) (m m' : Bytes) → AreSame ph 56 m m' → segment_at ph m' ≡ segment_at ph m
unfolding segment_at
segment_at-same ph m m' same =
    let field = λ (i l : ℕ) (fits : i + l ≤ 56).
      read_le-same l (ph + i) m m' (part_of ph 56 i l m m' fits same) in
    rw (
      read_le-same 4 ph m m' (λ k below. same k (omega arith)),
      field 4 4 (omega arith),
      field 8 8 (omega arith),
      field 16 8 (omega arith),
      field 32 8 (omega arith),
      field 40 8 (omega arith),
    )

-- The table of segments at `ph`.
abbrev pub segments : ℕ → ℕ → Bytes → List Segment
segments zero ph m = []
segments (suc count) ph m = segment_at ph m ∷ segments count (ph + 56) m

abbrev pub pages : Segment → ℕ
pages ph = (vaddr_end ph - vaddr_start ph) / 4096

abbrev pub pages_needed : List Segment → ℕ
pages_needed [] = 0
pages_needed (ph ∷ rest) = (if ph.type == 1 then pages ph else 0) + pages_needed rest

-- The pages of the segments that are loaded.
abbrev pub Covers : List Segment → ℕ → Type 0
Covers [] v = ⊥
Covers (ph ∷ rest) v = ((ph.type ≡ 1) × Within (vaddr_start ph) (pages ph) v) ⊎ Covers rest v

abbrev pub AreApart : Segment → List Segment → Type 0
AreApart ph [] = Unit {0}
AreApart ph (other ∷ rest) =
    (other.type ≡ 1 → (vaddr_end ph ≤ vaddr_start other) ⊎ (vaddr_end other ≤ vaddr_start ph))
    × AreApart ph rest

-- Each segment that is loaded stays in its ranges and in the `size` bytes of the file, and on its own pages.
abbrev pub AreLoadable : ℕ → List Segment → Type 0
AreLoadable size [] = Unit {0}
AreLoadable size (ph ∷ rest) =
    (ph.type ≡ 1 → Fits ph × (ph.offset + ph.filesz ≤ size) × AreApart ph rest)
    × AreLoadable size rest

-- Each segment that is loaded is read at its addresses, as the file at `source` had it in `bytes`.
abbrev pub AreRead :
    {hhdm_offset pagemap : ℕ} {m : Machine}
    → IsSpace hhdm_offset pagemap m
    → Bytes
    → ℕ
    → Bytes
    → List Segment
    → Type 0
AreRead space now source bytes [] = Unit {0}
AreRead space now source bytes (ph ∷ rest) =
    (ph.type ≡ 1
      → (v : ℕ) → vaddr_start ph ≤ v
      → v < vaddr_end ph
      → Reads space now v (image ph source bytes v))
    × AreRead space now source bytes rest

-- A file of `size` bytes at `source` with a sound header and table.
pub record IsExecutable (source size : ℕ) (m : Bytes) : Type 0 where
  pub magic : e_magic source m ≡ 0x464C457F
  pub class : e_class source m ≡ 2
  pub header : 64 ≤ size
  pub table : e_phoff source m + 56 * e_phnum source m ≤ size
  pub placed : source + size < 2 ^ 64
  pub loadable : AreLoadable size (segments (e_phnum source m) (source + e_phoff source m) m)

-- The pages of a segment, counted from its first.
pub vaddr_end_lem :
    (ph : Segment)
    → Fits ph
    → (vaddr_start ph % 4096 ≡ 0)
      × (vaddr_start ph ≤ ph.vaddr)
      × (ph.vaddr + ph.memsz ≤ vaddr_end ph)
      × (vaddr_end ph ≡ vaddr_start ph + 4096 * pages ph)
      × (vaddr_end ph ≤ 2 ^ 47)
unfolding align_up align_down div_round_up
vaddr_end_lem ph fits = omega (arith, fits)
