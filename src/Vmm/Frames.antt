-- ===== src/Vmm/Frames.antt =====
-- The free pages that new tables are taken from, and the tree with one table more.
use nekonix.Base.{
  ℕ, suc, ◌+◌, ◌*◌, ◌%◌, ◌^◌, ◌≤◌, ◌<◌, ◌≡◌, ◌≢◌, ◌∙◌, ap, true, false, ◌==◌, if◌then◌else◌, none,
  some, List, [], ◌∷◌, arith, Bool-cases, inl, inr, ◌⊎◌, ==_iff, bit_or,
}
use nekonix.Pmm.{Memory, store, clear, page_size, higher_half}
use nekonix.Vmm.{slot, is_present, table_of}
use nekonix.Vmm.Entry.{slot_lem, IsFlags, or_flags-present, or_flags-address, is_present_lem}
use nekonix.Vmm.Tree.{Role, Roles, IsTree, slot_injective}
use nekonix.Vmm.Grow.{IsGrown}

-- The roles with the table at `f` added.
abbrev pub add_role : Roles → ℕ → Role → Roles
add_role role f r u = if u == f then some r else role u

-- A page of the kernel's direct map that is no table.
pub record IsFrame (hhdm_offset : ℕ) (role : Roles) (p : ℕ) : Type 0 where
  pub ne_zero : p ≢ 0
  pub page_aligned : p % 4096 ≡ 0
  pub fits_entry : p < 2 ^ 52
  pub mapped : p + hhdm_offset + 4096 ≤ 2 ^ 64
  pub unused : role (p + hhdm_offset) ≡ none

abbrev pub Absent : ℕ → List ℕ → Type 0
Absent p [] = Unit {0}
Absent p (q ∷ qs) = (p ≢ q) × Absent p qs

abbrev pub Frames : ℕ → Roles → List ℕ → Type 0
Frames hhdm_offset role [] = Unit {0}
Frames hhdm_offset role (p ∷ ps) =
    IsFrame hhdm_offset role p × Absent p ps × Frames hhdm_offset role ps

pub Frames-add_role :
    (hhdm p : ℕ) (role : Roles) (r : Role) (ps : List ℕ)
    → Absent p ps
    → Frames hhdm role ps
    → Frames hhdm (add_role role (p + hhdm) r) ps
Frames-add_role hhdm p role r [] a f = tt
Frames-add_role hhdm p role r (q ∷ qs) (ne, a) (frame, b, f) = (
  record {
    ne_zero = frame.ne_zero;
    page_aligned = frame.page_aligned;
    fits_entry = frame.fits_entry;
    mapped = frame.mapped;
    unused = ground (arith, frame.unused, ne);
  },
  b,
  Frames-add_role hhdm p role r qs a f,
)

module _ {hhdm_offset : ℕ} (hhdm_aligned : hhdm_offset % 4096 ≡ 0) {m : Memory} {role : Roles}
    (tree : IsTree hhdm_offset m role) {p : ℕ} (frame : IsFrame hhdm_offset role p) where
  -- The address of the new table.
  abbrev f : ℕ
  f = p + hhdm_offset

  pub higher_half-frame : higher_half hhdm_offset p ≡ f
  unfolding higher_half
  higher_half-frame = omega (arith, frame.mapped)

  other_table : (u : ℕ) {r : Role} → role u ≡ some r → u ≢ f
  other_table u h e = ground (arith, frame.unused, ap role e)

  slot_apart : (u i j : ℕ) {r : Role} → role u ≡ some r → i < 512 → j < 512 → slot f j ≢ slot u i
  slot_apart u i j h hi hj e = other_table u h (
      omega (
        arith,
        frame.page_aligned,
        frame.mapped,
        tree.aligned u _ h,
        tree.placed u _ h,
        slot_lem u i (tree.placed u _ h) hi,
        slot_lem f j frame.mapped hj,
      ))

  clear-same :
      (u j : ℕ) {r : Role}
      → role u ≡ some r
      → j < 512
      → clear m f page_size (slot u j) ≡ m (slot u j)
  unfolding clear
  clear-same u j h hj =
      let apart = other_table u h in
      ground (
        arith,
        apart,
        hhdm_aligned,
        frame.page_aligned,
        frame.mapped,
        tree.aligned u _ h,
        tree.placed u _ h,
        slot_lem u j (tree.placed u _ h) hj,
      )

  clear-empty : (j : ℕ) → j < 512 → clear m f page_size (slot f j) ≡ 0
  unfolding clear
  clear-empty j hj = ground (arith, frame.mapped, slot_lem f j frame.mapped hj)

  module _ {t i k pre flags : ℕ} (fl : IsFlags flags) (at : role t ≡ some (suc k, pre))
      (in_range : i < 512) (absent : is_present (m (slot t i)) ≡ false) where
    abbrev pub grown_memory : Memory
    grown_memory = store (clear m f page_size) (slot t i) (bit_or p flags)

    at_slot : grown_memory (slot t i) ≡ bit_or p flags
    unfolding store
    at_slot = ground arith

    pub table_of-grown : table_of hhdm_offset (grown_memory (slot t i)) ≡ f
    unfolding table_of
    table_of-grown =
        rw (at_slot, or_flags-address fl p frame.page_aligned frame.fits_entry) higher_half-frame

    pub off_slot : (a : ℕ) → a ≢ slot t i → grown_memory a ≡ clear m f page_size a
    unfolding store
    off_slot a ne = ground arith

    grown-empty : (j : ℕ) → j < 512 → grown_memory (slot f j) ≡ 0
    grown-empty j hj = off_slot (slot f j) (slot_apart t i j at in_range hj) ∙ clear-empty j hj

    grown-same :
        (u j : ℕ) {r : Role}
        → role u ≡ some r
        → j < 512
        → slot u j ≢ slot t i
        → grown_memory (slot u j) ≡ m (slot u j)
    grown-same u j h hj ne = off_slot (slot u j) ne ∙ clear-same u j h hj

    pub grown_memory-IsGrown : IsGrown hhdm_offset m grown_memory role t i k pre
    grown_memory-IsGrown = record {
      in_role = at;
      in_range = in_range;
      was_absent = absent;
      now_present = rw at_slot (or_flags-present fl p frame.page_aligned);
      empty = λ j hj. rw table_of-grown (grown-empty j hj);
      same = grown-same;
    }

    abbrev pub grown_role : Roles
    grown_role = add_role role f (k, pre * 512 + i)

    pub kept : (u : ℕ) (r : Role) → role u ≡ some r → grown_role u ≡ some r
    kept u r h = ground (arith, other_table u h)

    old_or_new : (u : ℕ) (r : Role) → grown_role u ≡ some r → (u ≡ f) ⊎ (role u ≡ some r)
    old_or_new u r h = ground arith

    pub child_new :
        grown_role (table_of hhdm_offset (grown_memory (slot t i))) ≡ some (k, pre * 512 + i)
    child_new = rw table_of-grown (ground arith)

    new_empty : (j : ℕ) → j < 512 → ¬ (is_present (grown_memory (slot f j)) ≡ true)
    new_empty j hj there =
        let none_there : is_present 0 ≡ true = rw (grown-empty j hj) at there in
        ground (arith, is_present_lem 0)

    child_old :
        (u l q j : ℕ)
        → role u ≡ some (suc l, q)
        → j < 512
        → is_present (grown_memory (slot u j)) ≡ true
        → grown_role (table_of hhdm_offset (grown_memory (slot u j))) ≡ some (l, q * 512 + j)
    child_old u l q j h hj there = elim (Bool-cases (slot u j == slot t i)) [
      | inl e ↦
          let same = slot_injective hhdm_offset tree u t j i h at hj in_range ((==_iff _ _).0 e) in
          rw ((==_iff _ _).0 e) (child_new ∙ ground (arith, same, ap role same.0))
      | inr ne ↦
          let same = grown-same u j h hj (ground arith) in
          rw same (kept _ _ (tree.child u l q j h hj (rw same at there)))
    ]

    pub grown_memory-IsTree : IsTree hhdm_offset grown_memory grown_role
    grown_memory-IsTree = record {
      child = λ u l q j h hj there. elim (old_or_new u _ h) [
        | inl e ↦ absurd (new_empty j hj (rw e at there))
        | inr old ↦ child_old u l q j old hj there
      ];
      aligned = λ u r h. elim (old_or_new u r h) [
        | inl e ↦ omega (arith, frame.page_aligned)
        | inr old ↦ tree.aligned u r old
      ];
      placed = λ u r h. elim (old_or_new u r h) [
        | inl e ↦ omega (arith, frame.mapped)
        | inr old ↦ tree.placed u r old
      ];
    }
