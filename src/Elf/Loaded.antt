-- ===== src/Elf/Loaded.antt =====
-- One segment of a program.
use nekonix.Base.{
  ℕ, ◌+◌, ◌*◌, ◌/◌, ◌≤◌, ◌<◌, ◌≡◌, ◌∙◌, inl, inr, true, arith, length, List, [], ◌∷◌,
}
use nekonix.Pmm.{page_size}
use nekonix.Pmm.Pages.{free_list}
use nekonix.Strings.{Bytes}
use nekonix.Vmm.Space.{IsSpace}
use nekonix.Elf.{Store, Segment, vaddr_start, vaddr_end, load_segment}
use nekonix.Elf.Segments.{Reads, AreHeldBytes, IsLoading}
use nekonix.Elf.Rounds.{Fits, Within, load_pages_lem, bytes-later, image, image-same}
use nekonix.Elf.Table.{AreSame, pages, Covers, AreApart, AreLoadable, vaddr_end_lem}

-- An address of a segment is on none of the pages of those that are apart from it.
pub apart-Covers :
    (size : ℕ) (ph : Segment) (table : List Segment) (v : ℕ)
    → Fits ph
    → AreLoadable size table
    → AreApart ph table
    → vaddr_start ph ≤ v
    → v < vaddr_end ph
    → ¬ Covers table v
apart-Covers size ph [] v fits _ _ from to on = elim on [ ]
apart-Covers size ph (other ∷ rest) v fits (good, sound) (apart, aparts) from to (inr later) =
    apart-Covers size ph rest v fits sound aparts from to later
apart-Covers size ph (other ∷ rest) v fits (good, sound) (apart, aparts) from to
      (inl (loaded, on)) =
    let fits' = (good loaded).0 in
    omega (arith, vaddr_end_lem ph fits, vaddr_end_lem other fits', apart loaded, on)

-- The memory that is the same as `bytes` stays so.
pub AreSame-later :
    {hhdm_offset pagemap : ℕ} {s s' : Store} {space : IsSpace hhdm_offset pagemap s.machine}
    {cost : ℕ} {Mine : ℕ → Type 0} (l : IsLoading s space cost Mine s') (bytes : Bytes) (a n : ℕ)
    → AreHeldBytes space a n
    → AreSame a n bytes s.bytes
    → AreSame a n bytes s'.bytes
AreSame-later l bytes a n held same k below = bytes-later l a n held k below ∙ same k below

module _ (hhdm_offset pagemap source size : ℕ) (bytes : Bytes) where
  -- One segment.
  pub load_segment_lem :
      (ph : Segment) (s : Store) (space : IsSpace hhdm_offset pagemap s.machine)
      → Fits ph
      → ph.offset + ph.filesz ≤ size
      → AreHeldBytes space source size
      → AreSame source size bytes s.bytes
      → 4 * pages ph ≤ length (free_list s.machine)
      → (s' : Store) × (load_segment hhdm_offset ph source pagemap s ≡ (true, s'))
        × (l : IsLoading s space (4 * pages ph) (Within (vaddr_start ph) (pages ph)) s') × ((v : ℕ)
            → vaddr_start ph ≤ v
            → v < vaddr_end ph
            → Reads l.space' s'.bytes v (image ph source bytes v))
  unfolding load_segment
  load_segment_lem ph s space fits inside held same room =
      let ends = vaddr_end_lem ph fits in
      let (s', done, l, reads) =
        load_pages_lem hhdm_offset pagemap ph source fits (omega (arith, ends)) (pages ph)
          (vaddr_end ph / page_size + 1) (vaddr_start ph) s space (omega (arith, ends))
          (omega arith) (omega (arith, ends)) (omega (arith, ends)) room
          (λ k below. held k (omega arith)) in
      (
        s',
        done,
        l,
        λ v from to.
            rw (← image-same ph source v bytes s.bytes (λ k below. same k (omega arith)))
              (reads v from (omega (arith, ends))),
      )
