-- ===== src/Vmm/Space.antt =====
-- Address spaces: a tree of page tables beside enough free pages, as `vmm_map` finds and leaves it.
use nekonix.Base.{
  ℕ, ◌+◌, ◌%◌, ◌^◌, ◌≤◌, ◌<◌, ◌≡◌, ◌≢◌, ◌∙◌, ◌==◌, if◌then◌else◌, some, arith, Bool-cases, inl, inr,
  length, ==_iff,
}
use nekonix.Pmm.{Machine, Memory}
use nekonix.Pmm.Pages.{free_list}
use nekonix.Vmm.{index, write, map, virt_to_phys}
use nekonix.Vmm.Entry.{index_lem, IsFlags}
use nekonix.Vmm.Tree.{Roles, page_number, IsTree}
use nekonix.Vmm.Frames.{Frames}
use nekonix.Vmm.Held.{Held, Keeps}
use nekonix.Vmm.Map

-- The tables under `pagemap` form a tree in the direct map, apart from the free pages.
pub record IsSpace (hhdm_offset pagemap : ℕ) (m : Machine) : Type 0 where
  pub role : Roles
  pub direct_map : hhdm_offset % 4096 ≡ 0
  pub tree : IsTree hhdm_offset m.memory role
  pub root : role pagemap ≡ some (3, 0)
  pub frames : Frames hhdm_offset role (free_list m)

-- A page that a client holds beside an address space.
abbrev pub IsHeld :
    {hhdm_offset pagemap : ℕ} {m : Machine} → IsSpace hhdm_offset pagemap m → ℕ → Type 0
IsHeld {hhdm_offset} {m} space q = Held hhdm_offset space.role (free_list m) q

-- A page frame that an entry can hold.
pub record IsPhys (phys : ℕ) : Type 0 where
  pub page_aligned : phys % 4096 ≡ 0
  pub fits : phys < 2 ^ 52

pub virt_to_phys_page :
    (hhdm : ℕ) (m : Memory) (pagemap v w : ℕ)
    → page_number v ≡ page_number w
    → virt_to_phys hhdm m pagemap v ≡ virt_to_phys hhdm m pagemap w
unfolding virt_to_phys
virt_to_phys_page hhdm m pagemap v w e =
    let e4 : index 39 v ≡ index 39 w = omega (arith, index_lem 39 v, index_lem 39 w) in
    let e3 : index 30 v ≡ index 30 w = omega (arith, index_lem 30 v, index_lem 30 w) in
    let e2 : index 21 v ≡ index 21 w = omega (arith, index_lem 21 v, index_lem 21 w) in
    let e1 : index 12 v ≡ index 12 w = omega (arith, index_lem 12 v, index_lem 12 w) in
    rw (e4, e3, e2, e1)

module _ {hhdm_offset pagemap : ℕ} {m : Machine} (space : IsSpace hhdm_offset pagemap m)
    (room : 3 ≤ length (free_list m)) {flags : ℕ} (fl : IsFlags flags) (virt : ℕ) {phys : ℕ}
    (frame : IsPhys phys) where
  abbrev mapped : Machine
  mapped =
      Map.mapped hhdm_offset space.direct_map m space.role space.tree space.frames room pagemap
        flags fl space.root virt phys frame.page_aligned frame.fits

  map_lem : map hhdm_offset pagemap virt phys flags m ≡ mapped
  map_lem =
      Map.map-mapped hhdm_offset space.direct_map m space.role space.tree space.frames room pagemap
        flags fl space.root virt phys frame.page_aligned frame.fits

  translate_self : virt_to_phys hhdm_offset mapped.memory pagemap virt ≡ phys
  unfolding write
  translate_self =
      Map.mapped_self hhdm_offset space.direct_map m space.role space.tree space.frames room pagemap
        flags fl space.root virt phys frame.page_aligned frame.fits

  translate_other :
      (virt' : ℕ)
      → page_number virt' ≢ page_number virt
      → virt_to_phys hhdm_offset mapped.memory pagemap virt'
        ≡ virt_to_phys hhdm_offset m.memory pagemap virt'
  unfolding write
  translate_other =
      Map.mapped_other hhdm_offset space.direct_map m space.role space.tree space.frames room
        pagemap flags fl space.root virt phys frame.page_aligned frame.fits

  -- In an address space, with three free pages at hand and flags that are present and touch no
  -- address bit, mapping a page makes its addresses translate to the given frame, and leaves the
  -- translation of every other address as it was.
  pub virt_to_phys-map :
      (virt' : ℕ)
      → virt_to_phys hhdm_offset (map hhdm_offset pagemap virt phys flags m).memory pagemap virt'
        ≡ (if page_number virt' == page_number virt
            then phys
            else virt_to_phys hhdm_offset m.memory pagemap virt')
  virt_to_phys-map virt' = rw map_lem (elim (Bool-cases (page_number virt' == page_number virt)) [
    | inl e ↦ rw e (
        virt_to_phys_page hhdm_offset mapped.memory pagemap virt' virt ((==_iff _ _).0 e)
        ∙ translate_self)
    | inr ne ↦ rw ne (translate_other virt' (ground arith))
  ])

  -- What `vmm_map` leaves is an address space again, it has taken three free pages at most, and a page
  -- that is held (no table and not free) is held afterwards, with the same content.
  pub map-IsSpace :
      let m' = map hhdm_offset pagemap virt phys flags m in
      (space' : IsSpace hhdm_offset pagemap m') × (length (free_list m) ≤ length (free_list m') + 3)
      × ((q : ℕ) → IsHeld space q → IsHeld space' q × Keeps hhdm_offset q m.memory m'.memory)
  unfolding write
  map-IsSpace =
      let (role', tree, root, frames, enough, held) =
        Map.mapped-Roles hhdm_offset space.direct_map m space.role space.tree space.frames room
          pagemap flags fl space.root virt phys frame.page_aligned frame.fits in
      rw map_lem (
        record {
          role = role';
          direct_map = space.direct_map;
          tree = tree;
          root = root;
          frames = frames;
        },
        enough,
        held,
      )
