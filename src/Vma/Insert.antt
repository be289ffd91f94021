-- ===== src/Vma/Insert.antt =====
-- The new region of `vma_alloc`, hung behind another one.
use nekonix.Base.{ℕ, ◌+◌, ◌%◌, ◌≡◌, ◌≢◌, ap, arith}
use nekonix.Pmm.{Machine, clear, store}
use nekonix.Vmm.{write}
use nekonix.Vmm.Held.{OnPage}
use nekonix.Vmm.Space.{IsSpace, IsHeld}
use nekonix.Vmm.Client.{IsStep, change-IsStep, follow}
use nekonix.Vma.{start, size, flags, next, prev, memset_zero, region_end, fill}

-- What `insert_behind` and `append_behind` have in common: `behind` is what follows the new region.
abbrev filled : ℕ → ℕ → ℕ → ℕ → ℕ → Machine → Machine
filled last new_region behind wanted kind m =
    let cleared = memset_zero new_region 40 m in
    write (new_region + 24) behind
      (fill new_region (region_end cleared.memory last) wanted kind last cleared)

abbrev pub hang : ℕ → ℕ → ℕ → ℕ → ℕ → Machine → Machine
hang last new_region behind wanted kind m =
    write (last + 24) new_region (filled last new_region behind wanted kind m)

pub memset_zero-off :
    (hhdm_offset q : ℕ) (m : Machine) (a : ℕ)
    → ¬ OnPage hhdm_offset q a
    → (memset_zero (q + hhdm_offset) 40 m).memory a ≡ m.memory a
unfolding memset_zero clear
memset_zero-off hhdm_offset q m a off = ground (arith, off)

pub fill-off :
    (hhdm_offset q begin wanted kind before : ℕ) (m : Machine) (a : ℕ)
    → ¬ OnPage hhdm_offset q a
    → (fill (q + hhdm_offset) begin wanted kind before m).memory a ≡ m.memory a
unfolding fill write store
fill-off hhdm_offset q begin wanted kind before m a off = ground (arith, off)

-- Different pages have no address in common.
pub other_page :
    (hhdm_offset p q a : ℕ)
    → p % 4096 ≡ 0
    → q % 4096 ≡ 0
    → p ≢ q
    → OnPage hhdm_offset p a
    → ¬ OnPage hhdm_offset q a
other_page hhdm_offset p q a ap aq ne on on' = ne (omega arith)

module _ {hhdm_offset table : ℕ} {m : Machine} (space : IsSpace hhdm_offset table m)
    {last_page new_page : ℕ} (held_last : IsHeld space last_page) (held_new : IsHeld space new_page)
    (other : last_page ≢ new_page) (behind wanted kind : ℕ) where
  abbrev pub last : ℕ
  last = last_page + hhdm_offset

  abbrev pub new_region : ℕ
  new_region = new_page + hhdm_offset

  abbrev pub hung : Machine
  hung = hang last new_region behind wanted kind m

  pub hang-IsStep : IsStep space 0 hung
  unfolding write memset_zero fill store clear
  hang-IsStep =
      let m' = filled last new_region behind wanted kind m in
      let first : IsStep space 0 m' =
        change-IsStep space {n = m'.memory} held_new (λ a off. ground (arith, off)) in
      follow first (
        change-IsStep first.space' {n = hung.memory} (first.held last_page held_last)
          (λ a off. ground (arith, off)))

  pub hang-fields :
      (start hung.memory new_region ≡ region_end m.memory last)
      × (size hung.memory new_region ≡ wanted)
      × (flags hung.memory new_region ≡ kind)
      × (next hung.memory new_region ≡ behind)
      × (prev hung.memory new_region ≡ last)
      × (next hung.memory last ≡ new_region)
  unfolding write memset_zero fill store clear
  hang-fields =
      let apart_last = held_last.0.page_aligned in
      let apart_new = held_new.0.page_aligned in
      let same : region_end (clear m.memory new_region 40) last ≡ region_end m.memory last =
        ground arith in
      (ground (arith, same), ground arith, ground arith, ground arith, ground arith, ground arith)

  -- The other words of the pages that are held stay.
  pub hang-same :
      (a : ℕ) → a ≢ last + 24 → ¬ OnPage hhdm_offset new_page a → hung.memory a ≡ m.memory a
  unfolding write memset_zero fill store clear
  hang-same a ne off = ground (arith, ne, off)
