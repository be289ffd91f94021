-- ===== src/Pmm/Pages.antt =====
-- `pmm_request_page` and `pmm_free_page` against the list of free pages, the top of the stack first.
use nekonix.Base.{
  ℕ, zero, suc, ◌+◌, ◌-◌, ◌≤◌, ◌≡◌, refl, ap, ap₂, ◌≢◌, List, [], ◌∷◌, leb, ◌==◌, if◌then◌else◌,
  arith, length,
}
use native.Mathlib.Numerals.{add-one}
use nekonix.Pmm.{Machine, store, push, request_page, free_page}

-- The free pages: the entries below `idx`, the next to be handed out first.
abbrev pub view : (ℕ → ℕ) → ℕ → List ℕ
view pages zero = []
view pages (suc n) = pages n ∷ view pages n

abbrev pub free_list : Machine → List ℕ
free_list m = view m.stack.pages m.stack.idx

pub length-view : (pages : ℕ → ℕ) (n : ℕ) → length (view pages n) ≡ n
length-view pages zero = refl
length-view pages (suc n) = ap suc (length-view pages n)

-- A write at or above the top is not seen.
pub view-store : (pages : ℕ → ℕ) (n i v : ℕ) → n ≤ i → view (store pages i v) n ≡ view pages n
unfolding store
view-store pages zero i v h = refl
view-store pages (suc n) i v h = ap₂ ◌∷◌ (ground arith) (view-store pages n i v (omega arith))

pub view-push : (pages : ℕ → ℕ) (n v : ℕ) → view (store pages n v) (n + 1) ≡ v ∷ view pages n
unfolding store
view-push pages n v = rw add-one (ap₂ ◌∷◌ (ground arith) (view-store pages n n v (omega arith)))

-- A list of at most `max` free pages is what the stack promises.
unfoldable pub pop_list : List ℕ → ℕ × List ℕ
pop_list [] = (0, [])
pop_list (p ∷ ps) = (p, ps)

unfoldable pub push_list : ℕ → List ℕ → ℕ → List ℕ
push_list max ps p = if p == 0 then ps else if leb max (length ps) then ps else p ∷ ps

pub view-pop : (pages : ℕ → ℕ) (n : ℕ) → n ≢ 0 → view pages n ≡ pages (n - 1) ∷ view pages (n - 1)
view-pop pages zero h = absurd (h refl)
view-pop pages (suc n) h = ap (λ k. view pages (suc k)) (omega arith)

-- Requesting a page takes the first page of the free list, or answers the null address and
-- changes nothing if there is none; the capacity and the pointer of the stack stay.
pub request_page_refines :
    (hhdm : ℕ) (m : Machine)
    → let (p, m') = request_page hhdm m in
      ((p, free_list m') ≡ pop_list (free_list m))
      × (m'.stack.max ≡ m.stack.max)
      × (m'.stack.base ≡ m.stack.base)
unfolding request_page pop_list
request_page_refines hhdm m = ground (arith, view-pop m.stack.pages m.stack.idx)

-- Freeing a page puts it in front of the free list, unless it is null or the list is full.
pub free_page_refines :
    (p : ℕ) (m : Machine)
    → let m' = free_page p m in
      (free_list m' ≡ push_list m.stack.max (free_list m) p)
      × (m'.stack.max ≡ m.stack.max)
      × (m'.stack.base ≡ m.stack.base)
unfolding free_page push push_list
free_page_refines p m =
    ground (arith, length-view m.stack.pages m.stack.idx, view-push m.stack.pages m.stack.idx p)
