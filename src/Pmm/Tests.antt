-- ===== src/Pmm/Tests.antt =====
-- A small stack of pages, and the theorems at it.
use mathlib.Core.List.{Nodup, Mem, Pairwise, not-mem-nil, mem-cons}
use mathlib.Core.List.Permᴰ
use mathlib.Core.Logic.Or
use nekonix.Base.{ℕ, ◌≡◌, ◌≢◌, ◌⊎◌, refl, List, [], ◌∷◌, ◌++◌, ◌==◌, if◌then◌else◌, arith}
use nekonix.Pmm.{Machine, request_page, clear, higher_half}
use nekonix.Pmm.Pages.{free_list}
use nekonix.Pmm.Owner.{
  World, Run, here, next, request, IsConserved, Run-IsConserved, request_page-exclusive,
}

abbrev two_pages : Machine
two_pages = record {
  stack = record {
    base = 0x8000;
    pages = λ i. if i == 0 then 0x2000 else 0x3000;
    idx = 2;
    max = 2;
  };
  memory = λ a. 7;
}

abbrev all_pages : List ℕ
all_pages = 0x3000 ∷ 0x2000 ∷ []

abbrev start : World
start = record { machine = two_pages; owned = [] }

start-IsConserved : IsConserved all_pages start
start-IsConserved = record { perm = Permᴰ.refl all_pages; room = refl }

all_nonzero : ¬ Mem 0 all_pages
all_nonzero m =
    Or.elim (λ a b. absurd a) (mem-cons.0 m) (λ e. omega arith)
      λ n. Or.elim (λ a b. absurd a) (mem-cons.0 n) (λ e. omega arith) not-mem-nil

all_distinct : Nodup all_pages
all_distinct =
    Pairwise.cons (λ a m e. Or.elim (λ a b. absurd a) (mem-cons.0 m) (λ f. omega arith) not-mem-nil)
      (Pairwise.cons (λ a m. absurd (not-mem-nil m)) Pairwise.nil)

request_runs :
    let (p, m) = request_page 0x10_0000 two_pages in
    (p ≡ 0x3000) × (free_list m ≡ 0x2000 ∷ []) × (m.memory 0x10_3008 ≡ 0) × (m.memory 0x10_2008 ≡ 7)
unfolding request_page clear higher_half
request_runs = (refl, refl, refl, refl)

-- One page taken and given back.
abbrev taken : World
taken = record { machine = (request_page 0 two_pages).1; owned = 0x3000 ∷ [] }

take_one : Run 0 start taken
unfolding request_page
take_one = next here (request 0x3000 refl (omega arith))

Run-IsConserved_example :
    IsConserved all_pages taken × Nodup (free_list taken.machine ++ taken.owned)
Run-IsConserved_example = Run-IsConserved all_nonzero 0 all_distinct start-IsConserved take_one

request_page-exclusive_example :
    let (p, m) = request_page 0 taken.machine in
    ((p ≡ 0) × (free_list taken.machine ≡ []))
    ⊎ ((p ≢ 0) × Mem p all_pages × (¬ Mem p taken.owned) × (¬ Mem p (free_list m)))
request_page-exclusive_example =
    request_page-exclusive all_nonzero 0 all_distinct start-IsConserved take_one
