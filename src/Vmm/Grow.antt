-- ===== src/Vmm/Grow.antt =====
-- One step of `vmm_map` on the way down: a missing table is taken from the free pages, and no
-- translation changes.
use nekonix.Base.{
  ℕ, zero, suc, ◌<◌, ◌≡◌, ◌≢◌, ap, true, false, ◌==◌, some, arith, Bool-cases, inl, inr, ==_iff,
}
use nekonix.Pmm.{Memory}
use nekonix.Vmm.{index, slot, is_present, entry_address, table_of}
use nekonix.Vmm.Tree.{Role, Roles, shift, walk, index-lt, IsTree, slot_injective}

-- A table that is all zero translates nothing.
walk-zero :
    (hhdm : ℕ) (m : Memory) (k t virt : ℕ)
    → ((i : ℕ) → i < 512 → m (slot t i) ≡ 0)
    → walk hhdm m k t virt ≡ 0
unfolding walk is_present entry_address
walk-zero hhdm m zero t virt z = rw (z (index 12 virt) (index-lt 12 virt))
walk-zero hhdm m (suc k) t virt z =
    rw (z (index (shift (suc k)) virt) (index-lt (shift (suc k)) virt))

module _ (hhdm_offset : ℕ) where
  -- `g` is `m` with the missing entry `i` of `t` leading to a new table that is all zero.
  pub record IsGrown (m g : Memory) (role : Roles) (t i : ℕ) (k pre : ℕ) : Type 0 where
    pub in_role : role t ≡ some (suc k, pre)
    pub in_range : i < 512
    pub was_absent : is_present (m (slot t i)) ≡ false
    pub now_present : is_present (g (slot t i)) ≡ true
    pub empty : (j : ℕ) → j < 512 → g (slot (table_of hhdm_offset (g (slot t i))) j) ≡ 0
    pub same :
        (u j : ℕ) {r : Role}
        → role u ≡ some r
        → j < 512
        → slot u j ≢ slot t i
        → g (slot u j) ≡ m (slot u j)

  pub other_level :
      {m : Memory} {role : Roles} {t u i j k l pre p : ℕ}
      → IsTree hhdm_offset m role
      → j < 512
      → i < 512
      → role u ≡ some (l, p)
      → role t ≡ some (k, pre)
      → l ≢ k
      → ¬ (slot u j ≡ slot t i)
  other_level {role} {t} {u} {i} {j} tree hj hi hu ht ne e =
      let (same, _) = slot_injective hhdm_offset tree u t j i hu ht hj hi e in
      ground (arith, ap role same)

  at_slot :
      {m g : Memory} {role : Roles} {t i k pre : ℕ}
      → IsTree hhdm_offset m role
      → IsGrown m g role t i k pre
      → (l u p virt : ℕ) → role u ≡ some (suc l, p)
      → slot u (index (shift (suc l)) virt) ≡ slot t i
      → walk hhdm_offset g (suc l) u virt ≡ walk hhdm_offset m (suc l) u virt
  unfolding walk
  at_slot {g} tree grown l u p virt here e =
      rw (e, grown.now_present, grown.was_absent) (walk-zero hhdm_offset g l _ virt grown.empty)

  pub walk-IsGrown :
      {m g : Memory} {role : Roles} {t i k pre : ℕ}
      → IsTree hhdm_offset m role
      → IsGrown m g role t i k pre
      → (l u p virt : ℕ) → role u ≡ some (l, p)
      → walk hhdm_offset g l u virt ≡ walk hhdm_offset m l u virt
  unfolding walk
  walk-IsGrown {t} {i} tree grown zero u p virt here = ap entry_address (
      grown.same u (index 12 virt) here (index-lt 12 virt)
        λ e. other_level tree (index-lt 12 virt) grown.in_range here grown.in_role (omega arith) e)
  walk-IsGrown {m} {t} {i} tree grown (suc l) u p virt here =
      elim (Bool-cases (slot u (index (shift (suc l)) virt) == slot t i)) [
        | inl e ↦ at_slot tree grown l u p virt here ((==_iff _ _).0 e)
        | inr n ↦
            let same =
              grown.same u (index (shift (suc l)) virt) here (index-lt _ virt)
                (λ e. ground arith) in
            rw same (elim (Bool-cases (is_present (m (slot u (index (shift (suc l)) virt))))) [
              | inl there ↦ rw there (
                  walk-IsGrown tree grown l _ _ virt
                    (tree.child u l p _ here (index-lt _ virt) there))
              | inr gone ↦ rw gone
            ])
      ]
