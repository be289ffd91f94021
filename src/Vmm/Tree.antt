-- ===== src/Vmm/Tree.antt =====
-- Page tables as a tree: the walk that translates an address, level by level, and the invariant
-- that no table is reached in two ways.
use nekonix.Base.{
  ℕ, zero, suc, ◌+◌, ◌*◌, ◌/◌, ◌%◌, ◌^◌, ◌≤◌, ◌<◌, ◌≡◌, true, if◌then◌else◌, Option, some, arith,
}
use nekonix.Pmm.{Memory}
use nekonix.Vmm.{index, slot, is_present, entry_address, table_of, virt_to_phys}
use nekonix.Vmm.Entry.{index_lem, slot_lem}

-- What a table is for: how many levels of tables stand below it, and the indices that lead to it.
abbrev pub Role : Type 0
Role = ℕ × ℕ

abbrev pub Roles : Type 0
Roles = ℕ → Option Role

-- The lowest address bit of the index that is used with `k` levels below.
abbrev pub shift : ℕ → ℕ
shift zero = 12
shift (suc k) = shift k + 9

-- The page number that is reached with index prefix `pre` and `k` levels below.
abbrev pub leaf_page : ℕ → ℕ → ℕ → ℕ
leaf_page zero pre virt = pre * 512 + index (shift zero) virt
leaf_page (suc k) pre virt = leaf_page k (pre * 512 + index (shift (suc k)) virt) virt

abbrev pub page_number : ℕ → ℕ
page_number virt = virt / 2 ^ 12 % 2 ^ 36

pub leaf_page_root : (virt : ℕ) → leaf_page 3 0 virt ≡ page_number virt
leaf_page_root virt =
    omega (arith, index_lem 12 virt, index_lem 21 virt, index_lem 30 virt, index_lem 39 virt)

pub index-lt : (k virt : ℕ) → index k virt < 512
index-lt k virt = omega (arith, index_lem k virt)

module _ (hhdm_offset : ℕ) where
  unfoldable pub walk : Memory → ℕ → ℕ → ℕ → ℕ
  walk m zero t virt = entry_address (m (slot t (index (shift zero) virt)))
  walk m (suc k) t virt =
      let e = m (slot t (index (shift (suc k)) virt)) in
      let rest = walk m k (table_of hhdm_offset e) virt in if is_present e then rest else 0

  pub virt_to_phys-walk :
      (m : Memory) (pagemap virt : ℕ)
      → virt_to_phys hhdm_offset m pagemap virt ≡ walk m 3 pagemap virt
  unfolding virt_to_phys walk
  virt_to_phys-walk m pagemap virt = ground arith

  pub record IsTree (m : Memory) (role : Roles) : Type 0 where
    pub child :
        (t k pre i : ℕ)
        → role t ≡ some (suc k, pre)
        → i < 512
        → is_present (m (slot t i)) ≡ true
        → role (table_of hhdm_offset (m (slot t i))) ≡ some (k, pre * 512 + i)
    pub aligned : (t : ℕ) (r : Role) → role t ≡ some r → t % 4096 ≡ 0
    pub placed : (t : ℕ) (r : Role) → role t ≡ some r → t + 4096 ≤ 2 ^ 64

  -- Slots of tables that have a role are the same only if table and index are.
  pub slot_injective :
      {m : Memory} {role : Roles} (tree : IsTree m role) (t u i j : ℕ) {r s : Role}
      → role t ≡ some r
      → role u ≡ some s
      → i < 512
      → j < 512
      → slot t i ≡ slot u j
      → (t ≡ u) × (i ≡ j)
  slot_injective tree t u i j hr hs hi hj e = omega (
    arith,
    tree.aligned t _ hr,
    tree.aligned u _ hs,
    tree.placed t _ hr,
    tree.placed u _ hs,
    slot_lem t i (tree.placed t _ hr) hi,
    slot_lem u j (tree.placed u _ hs) hj,
  )
