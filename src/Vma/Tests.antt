-- ===== src/Vma/Tests.antt =====
-- A context with two regions, and requests of the heap in it.
use nekonix.Base.{
  ℕ, ◌+◌, ◌*◌, ◌≡◌, ◌≢◌, ◌<◌, ◌==◌, if◌then◌else◌, ltb, lt→ltb, refl, true, none, some, [], ◌∷◌,
  arith,
}
use nekonix.Pmm.{Machine, Memory, store}
use nekonix.Pmm.Pages.{free_list}
use nekonix.Vmm.{slot, is_present, virt_to_phys}
use nekonix.Vmm.Entry.{is_present_lem, slot_lem}
use nekonix.Vmm.Tree.{Roles, IsTree, page_number}
use nekonix.Vmm.Frames.{Frames}
use nekonix.Vmm.Space.{IsSpace, IsHeld}
use nekonix.Vma.{start, size, root, liballoc_alloc, find_gap}
use nekonix.Vma.Regions.{AreRegions}
use nekonix.Vma.Place.{IsContext}
use nekonix.Vma.Extend.{AreHeld}
use nekonix.Vma.Heap.{liballoc_alloc-maps_one, liballoc_alloc-AreRegions, liballoc_alloc-hangs}

abbrev hhdm : ℕ
hhdm = 0xffff_8000_0000_0000

abbrev table : ℕ
table = hhdm + 0x1000

abbrev context : ℕ
context = hhdm + 0x8000

abbrev top : ℕ
top = hhdm + 0x9000

abbrev first : ℕ
first = hhdm + 0xa000

-- The words of the context and of its regions.
abbrev words : Memory
words a =
    if ltb a context
    then 0
    else if a == context
    then table
    else if a == context + 8
    then top
    else if a == top + 8
    then 1
    else if a == top + 24
    then first
    else if a == first
    then 4096
    else if a == first + 8
    then 1
    else if a == first + 32
    then top
    else 0

abbrev two_regions : Machine
two_regions = record {
  stack = record { base = hhdm; pages = λ i. 0x2000 + 0x1000 * i; idx = 5; max = 5 };
  memory = words;
}

abbrev only_root : Roles
only_root t = if t == table then some (3, 0) else none

low_words : (i : ℕ) → i < 512 → words (slot table i) ≡ 0
low_words i low =
    rw (lt→ltb (slot table i) context (omega (arith, slot_lem table i (omega arith) low))) refl

only_root-IsTree : IsTree hhdm words only_root
only_root-IsTree = record {
  child = λ t k pre i h hi there.
      let root_only : t ≡ table = ground arith in
      let none_there : is_present 0 ≡ true = rw (low_words i hi) at (rw root_only at there) in
      absurd (ground (arith, is_present_lem 0));
  aligned = λ t r h. ground arith;
  placed = λ t r h. ground arith;
}

Frames-free : Frames hhdm only_root (free_list two_regions)
Frames-free = ground arith

abbrev two_regions-IsSpace : IsSpace hhdm table two_regions
two_regions-IsSpace = record {
  role = only_root;
  direct_map = refl;
  tree = only_root-IsTree;
  root = refl;
  frames = Frames-free;
}

context-IsHeld : IsHeld two_regions-IsSpace 0x8000
context-IsHeld = ground arith

abbrev two_regions-IsContext : IsContext hhdm table two_regions 0x8000
two_regions-IsContext = record {
  space = two_regions-IsSpace;
  held = context-IsHeld;
  table_there = omega arith;
  top_there = omega arith;
  at_table = refl;
}

regions : AreRegions words top (first ∷ []) first
regions = (refl, omega arith, (refl, omega arith, refl))

regions-AreHeld : AreHeld two_regions-IsSpace (top ∷ first ∷ [])
regions-AreHeld = ((0x9000, ground arith, refl), ((0xa000, ground arith, refl), tt))

-- Three pages.
liballoc_alloc-maps_one_example :
    (m' : Machine) × (frame : ℕ) × (liballoc_alloc hhdm 2 context 3 two_regions ≡ some (0x2000, m'))
    × (frame ≢ 0)
    × ((v : ℕ)
        → virt_to_phys hhdm m'.memory table v ≡ (
            if page_number v == page_number 0x2000 then frame else virt_to_phys hhdm words table v))
liballoc_alloc-maps_one_example =
    liballoc_alloc-maps_one two_regions-IsContext 2 first (first ∷ []) 3 regions regions-AreHeld
      refl (omega arith) (omega arith) (omega arith) (omega arith) (omega arith)

liballoc_alloc-AreRegions_example :
    (m' : Machine) × (new_region : ℕ) × (liballoc_alloc hhdm 2 context 3 two_regions
      ≡ some (0x2000, m'))
    × (context' : IsContext hhdm table m' 0x8000) × AreRegions m'.memory top
        (first ∷ new_region ∷ [])
        new_region
    × AreHeld context'.space (top ∷ first ∷ new_region ∷ [])
    × (root m'.memory context ≡ top)
    × (start m'.memory new_region ≡ 0x2000)
    × (size m'.memory new_region ≡ 3)
liballoc_alloc-AreRegions_example =
    liballoc_alloc-AreRegions two_regions-IsContext 2 first (first ∷ []) 3 regions regions-AreHeld
      refl (omega arith) (omega arith) (omega arith) (omega arith) (omega arith)

liballoc_alloc-hangs_example : liballoc_alloc hhdm 1000000 context 0x2001 two_regions ≡ none
liballoc_alloc-hangs_example =
    liballoc_alloc-hangs two_regions-IsContext 1000000 first first [] 0x2001 regions refl refl refl
      (omega arith)

-- A third region that begins at 1 MB, behind a gap, and a request for 4096 pages: it is placed in the gap.
abbrev gap_words : Memory
gap_words =
    store (store (store words (hhdm + 0xb000) 0x10_0000) (hhdm + 0xb008) 1) (first + 24)
      (hhdm + 0xb000)

gap_taken : find_gap 1 context first 4096 gap_words ≡ some first
unfolding find_gap store
gap_taken = refl
