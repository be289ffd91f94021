-- ===== src/Vmm/Held.antt =====
-- Pages that a client of `pmm_request_page` holds: neither tables of a page map nor free.
use nekonix.Base.{ℕ, ◌+◌, ◌%◌, ◌≤◌, ◌<◌, ◌≡◌, ◌≢◌, some, List, arith, ap}
use nekonix.Pmm.{Memory, clear, page_size}
use nekonix.Vmm.{slot}
use nekonix.Vmm.Entry.{slot_lem}
use nekonix.Vmm.Tree.{Role, Roles, IsTree}
use nekonix.Vmm.Frames.{IsFrame, Absent}

abbrev pub Held : ℕ → Roles → List ℕ → ℕ → Type 0
Held hhdm_offset role free q = IsFrame hhdm_offset role q × Absent q free

-- The addresses of a page in the direct map, and memories that agree on them.
abbrev pub OnPage : ℕ → ℕ → ℕ → Type 0
OnPage hhdm_offset q a = (q + hhdm_offset ≤ a) × (a < q + hhdm_offset + 4096)

abbrev pub Keeps : ℕ → ℕ → Memory → Memory → Type 0
Keeps hhdm_offset q m n = (a : ℕ) → OnPage hhdm_offset q a → n a ≡ m a

module _ {hhdm_offset : ℕ} (hhdm_aligned : hhdm_offset % 4096 ≡ 0) {m : Memory} {role : Roles}
    (tree : IsTree hhdm_offset m role) {q : ℕ} (frame : IsFrame hhdm_offset role q) where
  pub other_slot :
      (t i a : ℕ) {r : Role} → role t ≡ some r → i < 512 → OnPage hhdm_offset q a → a ≢ slot t i
  other_slot t i a h hi on e =
      let ne : t ≢ q + hhdm_offset = λ same. ground (arith, frame.unused, ap role same) in
      ne (
        omega (
          arith,
          hhdm_aligned,
          frame.page_aligned,
          frame.mapped,
          tree.aligned t _ h,
          tree.placed t _ h,
          slot_lem t i (tree.placed t _ h) hi,
        ))

  pub clear-Keeps :
      {p : ℕ}
      → IsFrame hhdm_offset role p
      → q ≢ p
      → Keeps hhdm_offset q m (clear m (p + hhdm_offset) page_size)
  unfolding clear
  clear-Keeps other ne a on =
      ground (arith, ne, hhdm_aligned, frame.page_aligned, other.page_aligned)
