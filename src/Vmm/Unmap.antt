-- ===== src/Vmm/Unmap.antt =====
-- `vmm_unmap`: one entry is set to zero, and one page loses its translation.
use nekonix.Base.{
  ℕ, zero, suc, ◌+◌, ◌*◌, ◌<◌, ◌≡◌, ◌≢◌, ◌∙◌, sym, ap, true, false, ◌==◌, if◌then◌else◌, some,
  arith, Bool-cases, inl, inr, ==_iff,
}
use nekonix.Pmm.{Machine, Memory, store}
use nekonix.Vmm.{index, slot, is_present, entry_address, table_of, write, unmap, virt_to_phys}
use nekonix.Vmm.Entry.{is_present_lem, entry_address_lem}
use nekonix.Vmm.Tree.{
  Role, Roles, shift, leaf_page_root, page_number, IsTree, walk, index-lt, virt_to_phys-walk,
}
use nekonix.Vmm.Grow.{other_level}
use nekonix.Vmm.Map.{store_self, store_other, walk-leaf, walk_down}
use nekonix.Vmm.Space.{IsSpace, virt_to_phys_page}

absent_zero : is_present 0 ≡ false
absent_zero = is_present_lem 0

module _ {hhdm_offset : ℕ} {m : Memory} {role : Roles} (tree : IsTree hhdm_offset m role) {t i : ℕ}
    {r : Role} (at : role t ≡ some r) (in_range : i < 512) where
  -- An entry of a tree that is set to zero leaves a tree.
  zeroed-IsTree : IsTree hhdm_offset (store m (slot t i) 0) role
  zeroed-IsTree = record {
    child = λ u k p j h hj there. elim (Bool-cases (slot u j == slot t i)) [
      | inl e ↦ absurd (not_there u j ((==_iff _ _).0 e) there)
      | inr ne ↦
          let same = store_other hhdm_offset m (slot t i) (slot u j) 0 (ground arith) in
          rw same (tree.child u k p j h hj (rw same at there))
    ];
    aligned = tree.aligned;
    placed = tree.placed;
  }
    where
      not_there :
          (u j : ℕ) → slot u j ≡ slot t i → ¬ (is_present (store m (slot t i) 0 (slot u j)) ≡ true)
      not_there u j e there =
          let at_zero : is_present 0 ≡ true =
            rw (e, store_self hhdm_offset m (slot t i) 0) at there in
          ground (arith, absent_zero)

module _ {hhdm_offset : ℕ} {m : Memory} {role : Roles} (tree : IsTree hhdm_offset m role)
    {t i k pre : ℕ} (at : role t ≡ some (suc k, pre)) (in_range : i < 512)
    (absent : is_present (m (slot t i)) ≡ false) where
  -- An absent entry above the leaves that is set to zero changes no translation.
  walk-zeroed :
      (l u p virt : ℕ)
      → role u ≡ some (l, p)
      → walk hhdm_offset (store m (slot t i) 0) l u virt ≡ walk hhdm_offset m l u virt
  unfolding walk
  walk-zeroed zero u p virt h = rw (
      store_other hhdm_offset m (slot t i) (slot u (index 12 virt)) 0
        (other_level hhdm_offset tree (index-lt 12 virt) in_range h at (omega arith)))
  walk-zeroed (suc l) u p virt h =
      elim (Bool-cases (slot u (index (shift (suc l)) virt) == slot t i)) [
        | inl e ↦ rw ((==_iff _ _).0 e, store_self hhdm_offset m (slot t i) 0, absent, absent_zero)
        | inr ne ↦
            rw
              (store_other hhdm_offset m (slot t i) (slot u (index (shift (suc l)) virt)) 0
                (ground arith))
              (elim (Bool-cases (is_present (m (slot u (index (shift (suc l)) virt))))) [
                | inl there ↦
                    rw there (walk-zeroed l _ _ virt (tree.child u l p _ h (index-lt _ virt) there))
                | inr gone ↦ rw gone
              ])
      ]

-- What a step of `vmm_unmap` does to the memory.
record IsUnmapped (hhdm_offset pagemap virt : ℕ) (m g : Memory) (role : Roles) : Type 0 where
  tree : IsTree hhdm_offset g role
  self : walk hhdm_offset g 3 pagemap virt ≡ 0
  other :
      (virt' : ℕ)
      → page_number virt' ≢ page_number virt
      → walk hhdm_offset g 3 pagemap virt' ≡ walk hhdm_offset m 3 pagemap virt'

module _ {hhdm_offset pagemap : ℕ} {m : Memory} {role : Roles} (tree : IsTree hhdm_offset m role)
    (root : role pagemap ≡ some (3, 0)) (virt : ℕ) where
  abbrev s4 : ℕ
  s4 = slot pagemap (index 39 virt)

  abbrev t3 : ℕ
  t3 = table_of hhdm_offset (m s4)

  abbrev s3 : ℕ
  s3 = slot t3 (index 30 virt)

  abbrev t2 : ℕ
  t2 = table_of hhdm_offset (m s3)

  abbrev s2 : ℕ
  s2 = slot t2 (index 21 virt)

  abbrev t1 : ℕ
  t1 = table_of hhdm_offset (m s2)

  at_absent :
      {t i k pre : ℕ}
      → role t ≡ some (suc k, pre)
      → i < 512
      → is_present (m (slot t i)) ≡ false
      → walk hhdm_offset m 3 pagemap virt ≡ 0
      → IsUnmapped hhdm_offset pagemap virt m (store m (slot t i) 0) role
  at_absent at hi absent z = record {
    tree = zeroed-IsTree tree at hi;
    self = walk-zeroed tree at hi absent 3 pagemap 0 virt root ∙ z;
    other = λ virt' ne. walk-zeroed tree at hi absent 3 pagemap 0 virt' root;
  }

  module _ (there4 : is_present (m s4) ≡ true) where
    role3 : role t3 ≡ some (2, 0 * 512 + index 39 virt)
    role3 = tree.child pagemap 2 0 _ root (index-lt 39 virt) there4

    module _ (there3 : is_present (m s3) ≡ true) where
      role2 : role t2 ≡ some (1, (0 * 512 + index 39 virt) * 512 + index 30 virt)
      role2 = tree.child t3 1 _ _ role3 (index-lt 30 virt) there3

      at_leaf :
          is_present (m s2) ≡ true
          → IsUnmapped hhdm_offset pagemap virt m (store m (slot t1 (index 12 virt)) 0) role
      at_leaf there2 =
          let role1 = tree.child t2 0 _ _ role2 (index-lt 21 virt) there2 in
          let kept : (u j k p : ℕ)
              → role u ≡ some (suc k, p)
              → j < 512
              → store m (slot t1 (index 12 virt)) 0 (slot u j) ≡ m (slot u j) =
            λ u j k p h hj.
              store_other hhdm_offset m _ _ 0
                (other_level hhdm_offset tree hj (index-lt 12 virt) h role1 (omega arith)) in
          record {
            tree = zeroed-IsTree tree role1 (index-lt 12 virt);
            self =
                walk_down hhdm_offset _ 2 pagemap virt _
                  (kept pagemap _ _ _ root (index-lt 39 virt)) there4
                ∙ walk_down hhdm_offset _ 1 t3 virt _ (kept t3 _ _ _ role3 (index-lt 30 virt))
                    there3
                ∙ walk_down hhdm_offset _ 0 t2 virt _ (kept t2 _ _ _ role2 (index-lt 21 virt))
                    there2
                ∙ unfold walk in
                  ap entry_address (store_self hhdm_offset m (slot t1 (index 12 virt)) 0)
                  ∙ omega (arith, entry_address_lem 0);
            other = λ virt' ne.
                walk-leaf hhdm_offset tree role1 (index-lt 12 virt) 0 3 pagemap 0 virt' root
                  (λ e. ne (sym (leaf_page_root virt') ∙ e ∙ leaf_page_root virt));
          }

  gone4 : is_present (m s4) ≡ false → walk hhdm_offset m 3 pagemap virt ≡ 0
  unfolding walk
  gone4 e = rw e

  gone3 :
      is_present (m s4) ≡ true → is_present (m s3) ≡ false → walk hhdm_offset m 3 pagemap virt ≡ 0
  unfolding walk
  gone3 e f = rw (e, f)

  gone2 :
      is_present (m s4) ≡ true
      → is_present (m s3) ≡ true
      → is_present (m s2) ≡ false
      → walk hhdm_offset m 3 pagemap virt ≡ 0
  unfolding walk
  gone2 e f g = rw (e, f, g)

unmap-IsUnmapped :
    {hhdm_offset pagemap : ℕ} (m : Machine) {role : Roles} (tree : IsTree hhdm_offset m.memory role)
    → role pagemap ≡ some (3, 0)
    → (virt : ℕ)
    → IsUnmapped hhdm_offset pagemap virt m.memory (unmap hhdm_offset pagemap virt m).memory role
unfolding unmap write
unmap-IsUnmapped m tree root virt = elim (Bool-cases (is_present (m.memory (s4 tree root virt)))) [
  | inr e4 ↦ rw e4 (at_absent tree root virt root (index-lt 39 virt) e4 (gone4 tree root virt e4))
  | inl e4 ↦ elim (Bool-cases (is_present (m.memory (s3 tree root virt)))) [
    | inr e3 ↦
        rw (e4, e3)
          (at_absent tree root virt (role3 tree root virt e4) (index-lt 30 virt) e3
            (gone3 tree root virt e4 e3))
    | inl e3 ↦ elim (Bool-cases (is_present (m.memory (s2 tree root virt)))) [
      | inr e2 ↦
          rw (e4, e3, e2)
            (at_absent tree root virt (role2 tree root virt e4 e3) (index-lt 21 virt) e2
              (gone2 tree root virt e4 e3 e2))
      | inl e2 ↦ rw (e4, e3, e2) (at_leaf tree root virt e4 e3 e2)
    ]
  ]
]

stack-unmap : (hhdm pagemap virt : ℕ) (m : Machine) → (unmap hhdm pagemap virt m).stack ≡ m.stack
unfolding unmap write
stack-unmap hhdm pagemap virt m = ground arith

module _ {hhdm_offset pagemap : ℕ} {m : Machine} (space : IsSpace hhdm_offset pagemap m)
    (virt : ℕ) where
  -- In an address space, unmapping a page makes its addresses translate to 0, whether it was
  -- mapped or not, and leaves the translation of every other address as it was.
  pub virt_to_phys-unmap :
      (virt' : ℕ)
      → virt_to_phys hhdm_offset (unmap hhdm_offset pagemap virt m).memory pagemap virt' ≡ (
          if page_number virt' == page_number virt
          then 0
          else virt_to_phys hhdm_offset m.memory pagemap virt')
  virt_to_phys-unmap virt' =
      let done = unmap-IsUnmapped m space.tree space.root virt in
      let g = (unmap hhdm_offset pagemap virt m).memory in
      elim (Bool-cases (page_number virt' == page_number virt)) [
        | inl e ↦ rw e (
            virt_to_phys_page hhdm_offset g pagemap virt' virt ((==_iff _ _).0 e)
            ∙ virt_to_phys-walk hhdm_offset g pagemap virt
            ∙ done.self)
        | inr ne ↦ rw ne (
            virt_to_phys-walk hhdm_offset g pagemap virt'
            ∙ done.other virt' (ground arith)
            ∙ sym (virt_to_phys-walk hhdm_offset m.memory pagemap virt'))
      ]
