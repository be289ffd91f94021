-- ===== src/Vmm/Map.antt =====
-- `vmm_map` updates the translation of one page and of no other.
use nekonix.Base.{
  ℕ, zero, suc, ◌+◌, ◌*◌, ◌%◌, ◌^◌, ◌≤◌, ◌<◌, ◌≡◌, ◌≢◌, ◌∙◌, sym, ap, refl, true, some, arith,
  Bool-cases, inl, inr, length, bit_or,
}
use nekonix.Pmm.{Machine, Memory, store}
use nekonix.Pmm.Pages.{free_list}
use nekonix.Vmm.{index, slot, is_present, entry_address, table_of, write, ensure, map, virt_to_phys}
use nekonix.Vmm.Entry.{IsFlags, or_flags-address}
use nekonix.Vmm.Tree.{
  Roles, shift, leaf_page, leaf_page_root, page_number, IsTree, walk, index-lt, slot_injective,
  virt_to_phys-walk,
}
use nekonix.Vmm.Grow.{other_level}
use nekonix.Vmm.Frames.{Frames}
use nekonix.Vmm.Held.{Held, Keeps, other_slot}
use nekonix.Vmm.Ensure.{Ensured, ensure_lem}

module _ (hhdm_offset : ℕ) where
  pub store_other : (m : Memory) (a b v : ℕ) → b ≢ a → store m a v b ≡ m b
  unfolding store
  store_other m a b v ne = ground arith

  pub store_self : (m : Memory) (a v : ℕ) → store m a v a ≡ v
  unfolding store
  store_self m a v = ground arith

  pub walk_down :
      (m : Memory) (l u virt e : ℕ)
      → m (slot u (index (shift (suc l)) virt)) ≡ e
      → is_present e ≡ true
      → walk hhdm_offset m (suc l) u virt ≡ walk hhdm_offset m l (table_of hhdm_offset e) virt
  unfolding walk
  walk_down m l u virt e at there = rw (at, there)

  -- A write to entry `i` of the lowest table `t` is seen on the page of that entry only.
  module _ {m : Memory} {role : Roles} (tree : IsTree hhdm_offset m role) {t i pre : ℕ}
      (at : role t ≡ some (0, pre)) (in_range : i < 512) (v : ℕ) where
    pub walk-leaf :
        (l u p virt : ℕ)
        → role u ≡ some (l, p)
        → leaf_page l p virt ≢ pre * 512 + i
        → walk hhdm_offset (store m (slot t i) v) l u virt ≡ walk hhdm_offset m l u virt
    unfolding walk
    walk-leaf zero u p virt h ne = rw (
        store_other m (slot t i) (slot u (index 12 virt)) v λ e.
          let same = slot_injective hhdm_offset tree u t _ i h at (index-lt 12 virt) in_range e in
          ground (arith, ap role same.0))
    walk-leaf (suc l) u p virt h ne =
        rw
          (store_other m (slot t i) (slot u (index (shift (suc l)) virt)) v
            λ e. other_level hhdm_offset tree (index-lt _ virt) in_range h at (omega arith) e)
          (elim (Bool-cases (is_present (m (slot u (index (shift (suc l)) virt))))) [
            | inl there ↦
                rw there (walk-leaf l _ _ virt (tree.child u l p _ h (index-lt _ virt) there) ne)
            | inr gone ↦ rw gone
          ])

  module _ (hhdm_aligned : hhdm_offset % 4096 ≡ 0) (m : Machine) (role : Roles)
      (tree : IsTree hhdm_offset m.memory role) (frames : Frames hhdm_offset role (free_list m))
      (room : 3 ≤ length (free_list m)) (pagemap flags : ℕ) (fl : IsFlags flags)
      (root : role pagemap ≡ some (3, 0)) (virt phys : ℕ) (phys_aligned : phys % 4096 ≡ 0)
      (phys_fits : phys < 2 ^ 52) where
    abbrev pub i4 : ℕ
    i4 = index 39 virt

    abbrev pub i3 : ℕ
    i3 = index 30 virt

    abbrev pub i2 : ℕ
    i2 = index 21 virt

    abbrev pub i1 : ℕ
    i1 = index 12 virt

    abbrev pub m4 : Machine
    m4 = ensure hhdm_offset pagemap i4 flags m

    grow4 : Ensured hhdm_offset m role pagemap i4 2 0 m4
    grow4 = ensure_lem hhdm_offset hhdm_aligned tree frames fl root (index-lt 39 virt) (omega arith)

    abbrev pub t3 : ℕ
    t3 = table_of hhdm_offset (m4.memory (slot pagemap i4))

    abbrev pub m3 : Machine
    m3 = ensure hhdm_offset t3 i3 flags m4

    grow3 : Ensured hhdm_offset m4 grow4.role' t3 i3 1 (0 * 512 + i4) m3
    grow3 =
        ensure_lem hhdm_offset hhdm_aligned grow4.tree grow4.frames fl grow4.child
          (index-lt 30 virt) (omega (arith, grow4.enough))

    abbrev pub t2 : ℕ
    t2 = table_of hhdm_offset (m3.memory (slot t3 i3))

    abbrev pub m2 : Machine
    m2 = ensure hhdm_offset t2 i2 flags m3

    grow2 : Ensured hhdm_offset m3 grow3.role' t2 i2 0 ((0 * 512 + i4) * 512 + i3) m2
    grow2 =
        ensure_lem hhdm_offset hhdm_aligned grow3.tree grow3.frames fl grow3.child
          (index-lt 21 virt) (omega (arith, grow4.enough, grow3.enough))

    abbrev pub t1 : ℕ
    t1 = table_of hhdm_offset (m2.memory (slot t2 i2))

    -- The machine that `vmm_map` leaves.
    abbrev pub mapped : Machine
    mapped = write (slot t1 i1) (bit_or phys flags) m2

    abbrev pub memory : Memory
    memory = store m2.memory (slot t1 i1) (bit_or phys flags)

    -- The roles of the upper tables at the end.
    root_role : grow2.role' pagemap ≡ some (3, 0)
    root_role = grow2.keeps _ _ (grow3.keeps _ _ (grow4.keeps _ _ root))

    t3_role : grow2.role' t3 ≡ some (2, 0 * 512 + i4)
    t3_role = grow2.keeps _ _ (grow3.keeps _ _ grow4.child)

    t2_role : grow2.role' t2 ≡ some (1, (0 * 512 + i4) * 512 + i3)
    t2_role = grow2.keeps _ _ grow3.child

    off_leaf :
        (u j k p : ℕ)
        → grow2.role' u ≡ some (suc k, p)
        → j < 512
        → memory (slot u j) ≡ m2.memory (slot u j)
    off_leaf u j k p h hj =
        store_other m2.memory (slot t1 i1) (slot u j) (bit_or phys flags)
          (other_level hhdm_offset grow2.tree hj (index-lt 12 virt) h grow2.child (omega arith))

    at_root : memory (slot pagemap i4) ≡ m4.memory (slot pagemap i4)
    at_root =
        off_leaf pagemap i4 2 0 root_role (index-lt 39 virt)
        ∙ grow2.same pagemap i4 _ (grow3.keeps _ _ (grow4.keeps _ _ root)) (index-lt 39 virt) (
            other_level hhdm_offset grow3.tree (index-lt 39 virt) (index-lt 21 virt)
              (grow3.keeps _ _ (grow4.keeps _ _ root)) grow3.child (omega arith))
        ∙ grow3.same pagemap i4 _ (grow4.keeps _ _ root) (index-lt 39 virt) (
            other_level hhdm_offset grow4.tree (index-lt 39 virt) (index-lt 30 virt)
              (grow4.keeps _ _ root) grow4.child (omega arith))

    at_t3 : memory (slot t3 i3) ≡ m3.memory (slot t3 i3)
    at_t3 =
        off_leaf t3 i3 1 _ t3_role (index-lt 30 virt)
        ∙ grow2.same t3 i3 _ (grow3.keeps _ _ grow4.child) (index-lt 30 virt) (
            other_level hhdm_offset grow3.tree (index-lt 30 virt) (index-lt 21 virt)
              (grow3.keeps _ _ grow4.child) grow3.child (omega arith))

    at_t2 : memory (slot t2 i2) ≡ m2.memory (slot t2 i2)
    at_t2 = off_leaf t2 i2 0 _ t2_role (index-lt 21 virt)

    walk_mapped : walk hhdm_offset memory 3 pagemap virt ≡ phys
    walk_mapped =
        walk_down memory 2 pagemap virt _ at_root grow4.there
        ∙ walk_down memory 1 t3 virt _ at_t3 grow3.there
        ∙ walk_down memory 0 t2 virt _ at_t2 grow2.there
        ∙ unfold walk in
          ap entry_address (store_self m2.memory (slot t1 i1) (bit_or phys flags))
          ∙ or_flags-address fl phys phys_aligned phys_fits

    pub map-mapped : map hhdm_offset pagemap virt phys flags m ≡ mapped
    unfolding map
    map-mapped = refl

    pub mapped_self : virt_to_phys hhdm_offset memory pagemap virt ≡ phys
    mapped_self = virt_to_phys-walk hhdm_offset memory pagemap virt ∙ walk_mapped

    pub mapped_other :
        (virt' : ℕ)
        → page_number virt' ≢ page_number virt
        → virt_to_phys hhdm_offset memory pagemap virt'
          ≡ virt_to_phys hhdm_offset m.memory pagemap virt'
    mapped_other virt' ne =
        virt_to_phys-walk hhdm_offset memory pagemap virt'
        ∙ walk-leaf grow2.tree grow2.child (index-lt 12 virt) (bit_or phys flags) 3 pagemap 0 virt'
            root_role (λ e. ne (sym (leaf_page_root virt') ∙ e ∙ leaf_page_root virt))
        ∙ grow2.walks 3 pagemap 0 virt' (grow3.keeps _ _ (grow4.keeps _ _ root))
        ∙ grow3.walks 3 pagemap 0 virt' (grow4.keeps _ _ root)
        ∙ grow4.walks 3 pagemap 0 virt' root
        ∙ sym (virt_to_phys-walk hhdm_offset m.memory pagemap virt')

    mapped-IsTree : IsTree hhdm_offset memory grow2.role'
    mapped-IsTree = record {
      child = λ u k p j h hj there.
          let same = off_leaf u j k p h hj in
          rw same (grow2.tree.child u k p j h hj (rw same at there));
      aligned = grow2.tree.aligned;
      placed = grow2.tree.placed;
    }

    -- A page that a client holds stays held, with its content.
    mapped-Held :
        (q : ℕ)
        → Held hhdm_offset role (free_list m) q
        → Held hhdm_offset grow2.role' (free_list mapped) q
          × Keeps hhdm_offset q m.memory mapped.memory
    unfolding write
    mapped-Held q h =
        let (h4, same4) = grow4.held q h in
        let (h3, same3) = grow3.held q h4 in
        let (h2, same2) = grow2.held q h3 in
        (
          h2,
          λ a on.
              store_other m2.memory (slot t1 i1) a (bit_or phys flags)
                (other_slot hhdm_aligned grow2.tree h2.0 t1 i1 a grow2.child (index-lt 12 virt) on)
              ∙ same2 a on
              ∙ same3 a on
              ∙ same4 a on,
        )

    -- The tables that are there afterwards, the pages that are still free, and those
    -- that are held.
    pub mapped-Roles :
        (role' : Roles) × IsTree hhdm_offset memory role'
        × (role' pagemap ≡ some (3, 0))
        × Frames hhdm_offset role' (free_list mapped)
        × (length (free_list m) ≤ length (free_list mapped) + 3)
        × ((q : ℕ)
            → Held hhdm_offset role (free_list m) q
            → Held hhdm_offset role' (free_list mapped) q
              × Keeps hhdm_offset q m.memory mapped.memory)
    unfolding write
    mapped-Roles = (
      grow2.role',
      mapped-IsTree,
      root_role,
      grow2.frames,
      omega (arith, grow4.enough, grow3.enough, grow2.enough),
      mapped-Held,
    )
