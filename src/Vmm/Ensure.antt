-- ===== src/Vmm/Ensure.antt =====
-- `ensure`: after it the entry leads to a table, and every translation is what it was.
use nekonix.Base.{
  ℕ, suc, ◌∙◌, ◌+◌, ◌-◌, ◌*◌, ◌%◌, ◌≤◌, ◌<◌, ◌≡◌, ◌≢◌, ap, refl, true, false, some, ◌∷◌, arith,
  Bool-cases, inl, inr, length,
}
use nekonix.Pmm.{Machine, PageStack, clear, page_size, request_page, higher_half}
use nekonix.Pmm.Pages.{free_list, view, view-pop, length-view}
use nekonix.Vmm.{slot, is_present, table_of, write, ensure}
use nekonix.Vmm.Entry.{IsFlags}
use nekonix.Vmm.Tree.{Role, Roles, IsTree, walk}
use nekonix.Vmm.Grow.{walk-IsGrown}
use nekonix.Vmm.Held.{Held, Keeps, other_slot, clear-Keeps}
use nekonix.Vmm.Frames.{
  Absent, off_slot, Frames, Frames-add_role, grown_role, grown_memory-IsGrown, grown_memory-IsTree,
  higher_half-frame, kept, child_new,
}

-- The machine after a page is taken, and after an entry is set to a new table.
abbrev pub taken : Machine → PageStack
taken m = record m.stack { idx = m.stack.idx - 1 }

module _ (hhdm_offset : ℕ) where
  -- What `ensure` at entry `i` of `t` leaves: tables `role'` in machine `n`.
  pub record Ensured (m : Machine) (role : Roles) (t i k pre : ℕ) (n : Machine) : Type 0 where
    pub role' : Roles
    pub tree : IsTree hhdm_offset n.memory role'
    pub frames : Frames hhdm_offset role' (free_list n)
    pub enough : length (free_list m) ≤ length (free_list n) + 1
    pub keeps : (u : ℕ) (r : Role) → role u ≡ some r → role' u ≡ some r
    pub same :
        (u j : ℕ) (r : Role)
        → role u ≡ some r
        → j < 512
        → slot u j ≢ slot t i
        → n.memory (slot u j) ≡ m.memory (slot u j)
    pub there : is_present (n.memory (slot t i)) ≡ true
    pub child : role' (table_of hhdm_offset (n.memory (slot t i))) ≡ some (k, pre * 512 + i)
    pub walks :
        (l u p virt : ℕ)
        → role u ≡ some (l, p)
        → walk hhdm_offset n.memory l u virt ≡ walk hhdm_offset m.memory l u virt
    pub held :
        (q : ℕ)
        → Held hhdm_offset role (free_list m) q
        → Held hhdm_offset role' (free_list n) q × Keeps hhdm_offset q m.memory n.memory

  pub request_page-some :
      (m : Machine)
      → m.stack.idx ≢ 0
      → request_page hhdm_offset m ≡ (
        m.stack.pages (m.stack.idx - 1),
        record {
          stack = taken m;
          memory =
              clear m.memory (higher_half hhdm_offset (m.stack.pages (m.stack.idx - 1))) page_size;
        },
      )
  unfolding request_page
  request_page-some m ne = ground arith

  module _ (hhdm_aligned : hhdm_offset % 4096 ≡ 0) {m : Machine} {role : Roles}
      (tree : IsTree hhdm_offset m.memory role) (frames : Frames hhdm_offset role (free_list m))
      {t i k pre flags : ℕ} (fl : IsFlags flags) (at : role t ≡ some (suc k, pre))
      (in_range : i < 512) where
    ensure_present :
        is_present (m.memory (slot t i)) ≡ true
        → Ensured m role t i k pre (ensure hhdm_offset t i flags m)
    unfolding ensure
    ensure_present there = rw there (record {
      role' = role;
      tree = tree;
      frames = frames;
      enough = omega arith;
      keeps = λ u r h. h;
      same = λ u j r h hj ne. refl;
      there = there;
      child = tree.child t k pre i at in_range there;
      walks = λ l u p virt h. refl;
      held = λ q h. (h, λ a on. refl);
    })

    ensure_absent :
        m.stack.idx ≢ 0
        → is_present (m.memory (slot t i)) ≡ false
        → Ensured m role t i k pre (ensure hhdm_offset t i flags m)
    unfolding ensure write
    ensure_absent ne absent =
        let popped = view-pop m.stack.pages m.stack.idx ne in
        let fs : Frames hhdm_offset role
            (m.stack.pages (m.stack.idx - 1) ∷ view m.stack.pages (m.stack.idx - 1)) =
          rw popped at frames in
        let (frame, others, rest) = fs in
        let grown = grown_memory-IsGrown hhdm_aligned tree frame fl at in_range absent in
        rw (request_page-some m ne, absent, higher_half-frame hhdm_aligned tree frame)
          (record {
            role' = grown_role hhdm_aligned tree frame fl at in_range absent;
            tree = grown_memory-IsTree hhdm_aligned tree frame fl at in_range absent;
            frames = Frames-add_role hhdm_offset _ role _ _ others rest;
            enough = omega (arith, ap length popped);
            keeps = kept hhdm_aligned tree frame fl at in_range absent;
            same = λ u j r h hj n. grown.same u j h hj n;
            there = grown.now_present;
            child = child_new hhdm_aligned tree frame fl at in_range absent;
            walks = λ l u p virt h. walk-IsGrown hhdm_offset tree grown l u p virt h;
            held = λ q h.
                let (own, away) = h in
                let (ne, rest') : Absent q
                    (m.stack.pages (m.stack.idx - 1) ∷ view m.stack.pages (m.stack.idx - 1)) =
                  rw popped at away in
                (
                  (
                    record {
                      ne_zero = own.ne_zero;
                      page_aligned = own.page_aligned;
                      fits_entry = own.fits_entry;
                      mapped = own.mapped;
                      unused = ground (arith, own.unused, ne);
                    },
                    rest',
                  ),
                  λ a on.
                      off_slot hhdm_aligned tree frame fl at in_range absent a
                        (other_slot hhdm_aligned tree own t i a at in_range on)
                      ∙ clear-Keeps hhdm_aligned tree own frame ne a on,
                );
          })

    -- With a free page at hand the entry leads to a table of the next level afterwards.
    pub ensure_lem :
        0 < length (free_list m) → Ensured m role t i k pre (ensure hhdm_offset t i flags m)
    ensure_lem room = elim (Bool-cases (is_present (m.memory (slot t i)))) [
      | inl there ↦ ensure_present there
      | inr absent ↦ ensure_absent (omega (arith, length-view m.stack.pages m.stack.idx)) absent
    ]
