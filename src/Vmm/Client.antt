-- ===== src/Vmm/Client.antt =====
-- What a client does with pages of its own, beside an address space: it requests a page, and changes
-- the content of a page that it holds. No translation changes.
use nekonix.Base.{
  ℕ, zero, suc, ◌+◌, ◌-◌, ◌%◌, ◌<◌, ◌≡◌, ◌≢◌, ◌∙◌, sym, refl, some, ◌∷◌, arith, ap, Bool-cases, inl,
  inr, length,
}
use nekonix.Pmm.{Machine, Memory, clear, page_size, request_page, higher_half}
use nekonix.Pmm.Pages.{free_list, view, view-pop, length-view}
use nekonix.Vmm.{index, slot, is_present, virt_to_phys}
use nekonix.Vmm.Tree.{Role, Roles, IsTree, walk, index-lt, shift, virt_to_phys-walk}
use nekonix.Vmm.Frames.{IsFrame, Absent, Frames, higher_half-frame}
use nekonix.Vmm.Held.{OnPage, Keeps, other_slot, clear-Keeps}
use nekonix.Vmm.Ensure.{request_page-some}
use nekonix.Vmm.Space.{IsSpace, IsHeld}

-- Memories that agree off a page.
abbrev pub AgreeOff : ℕ → ℕ → Memory → Memory → Type 0
AgreeOff hhdm_offset q m n = (a : ℕ) → ¬ OnPage hhdm_offset q a → n a ≡ m a

module _ {hhdm_offset : ℕ} (hhdm_aligned : hhdm_offset % 4096 ≡ 0) {m n : Memory} {role : Roles}
    (tree : IsTree hhdm_offset m role) {q : ℕ} (frame : IsFrame hhdm_offset role q)
    (agree : AgreeOff hhdm_offset q m n) where
  slot_same : (u j : ℕ) {r : Role} → role u ≡ some r → j < 512 → n (slot u j) ≡ m (slot u j)
  slot_same u j h hj =
      agree (slot u j) λ on. other_slot hhdm_aligned tree frame u j (slot u j) h hj on refl

  agree-IsTree : IsTree hhdm_offset n role
  agree-IsTree = record {
    child = λ t k pre i h hi there.
        let same = slot_same t i h hi in rw same (tree.child t k pre i h hi (rw same at there));
    aligned = tree.aligned;
    placed = tree.placed;
  }

  walk-agree :
      (l u p virt : ℕ)
      → role u ≡ some (l, p)
      → walk hhdm_offset n l u virt ≡ walk hhdm_offset m l u virt
  unfolding walk
  walk-agree zero u p virt h = rw (slot_same u (index 12 virt) h (index-lt 12 virt))
  walk-agree (suc l) u p virt h =
      rw (slot_same u (index (shift (suc l)) virt) h (index-lt _ virt))
        (elim (Bool-cases (is_present (m (slot u (index (shift (suc l)) virt))))) [
          | inl there ↦
              rw there (walk-agree l _ _ virt (tree.child u l p _ h (index-lt _ virt) there))
          | inr gone ↦ rw gone
        ])

-- An address space after a step of a client that takes `cost` pages.
pub record IsStep {hhdm_offset pagemap : ℕ} {m : Machine} (space : IsSpace hhdm_offset pagemap m)
    (cost : ℕ) (n : Machine) : Type 0 where
  pub space' : IsSpace hhdm_offset pagemap n
  pub enough : length (free_list m) ≡ length (free_list n) + cost
  pub held : (q : ℕ) → IsHeld space q → IsHeld space' q
  pub virt :
      (v : ℕ)
      → virt_to_phys hhdm_offset n.memory pagemap v ≡ virt_to_phys hhdm_offset m.memory pagemap v

module _ {hhdm_offset pagemap : ℕ} {m : Machine} (space : IsSpace hhdm_offset pagemap m) where
  pub change-IsStep :
      {q : ℕ} {n : Memory}
      → IsHeld space q
      → AgreeOff hhdm_offset q m.memory n
      → IsStep space 0 (record m { memory = n })
  change-IsStep (own, away) agree = record {
    space' = record {
      role = space.role;
      direct_map = space.direct_map;
      tree = agree-IsTree space.direct_map space.tree own agree;
      root = space.root;
      frames = space.frames;
    };
    enough = omega arith;
    held = λ q' h. h;
    virt = λ v.
        virt_to_phys-walk hhdm_offset _ pagemap v
        ∙ walk-agree space.direct_map space.tree own agree 3 pagemap 0 v space.root
        ∙ sym (virt_to_phys-walk hhdm_offset m.memory pagemap v);
  }

  -- A page that is requested is held afterwards, and is none of those that were held before.
  pub request_page-IsStep :
      0 < length (free_list m)
      → let (p, n) = request_page hhdm_offset m in
        (step : IsStep space 1 n) × IsHeld step.space' p
        × (higher_half hhdm_offset p ≡ p + hhdm_offset)
        × ((q : ℕ) → IsHeld space q → (q ≢ p) × Keeps hhdm_offset q m.memory n.memory)
  unfolding clear
  request_page-IsStep room =
      let ne : m.stack.idx ≢ 0 = omega (arith, length-view m.stack.pages m.stack.idx) in
      let popped = view-pop m.stack.pages m.stack.idx ne in
      let fs : Frames hhdm_offset space.role
          (m.stack.pages (m.stack.idx - 1) ∷ view m.stack.pages (m.stack.idx - 1)) =
        rw popped at space.frames in
      let (frame, others, rest) = fs in
      let agree : AgreeOff hhdm_offset (m.stack.pages (m.stack.idx - 1)) m.memory
          (clear m.memory (m.stack.pages (m.stack.idx - 1) + hhdm_offset) page_size) =
        λ a off. ground (arith, off) in
      rw (request_page-some hhdm_offset m ne, higher_half-frame space.direct_map space.tree frame)
        (
          record {
            space' = record {
              role = space.role;
              direct_map = space.direct_map;
              tree = agree-IsTree space.direct_map space.tree frame agree;
              root = space.root;
              frames = rest;
            };
            enough = omega (arith, ap length popped);
            held = λ q h.
                let (own, away) = h in
                let (n, rest') : Absent q
                    (m.stack.pages (m.stack.idx - 1) ∷ view m.stack.pages (m.stack.idx - 1)) =
                  rw popped at away in
                (own, rest');
            virt = λ v.
                virt_to_phys-walk hhdm_offset _ pagemap v
                ∙ walk-agree space.direct_map space.tree frame agree 3 pagemap 0 v space.root
                ∙ sym (virt_to_phys-walk hhdm_offset m.memory pagemap v);
          },
          (frame, others),
          refl,
          λ q h.
              let (own, away) = h in
              let (n, rest') : Absent q
                  (m.stack.pages (m.stack.idx - 1) ∷ view m.stack.pages (m.stack.idx - 1)) =
                rw popped at away in
              (n, clear-Keeps space.direct_map space.tree own frame n),
        )

-- Two steps, one after the other.
pub follow :
    {hhdm_offset pagemap : ℕ} {m n k : Machine} {space : IsSpace hhdm_offset pagemap m} {c d : ℕ}
    → (first : IsStep space c n) → IsStep first.space' d k
    → IsStep space (c + d) k
follow first second = record {
  space' = second.space';
  enough = omega (arith, first.enough, second.enough);
  held = λ q h. second.held q (first.held q h);
  virt = λ v. second.virt v ∙ first.virt v;
}
