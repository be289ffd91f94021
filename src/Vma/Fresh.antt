-- ===== src/Vma/Fresh.antt =====
-- A region that `vma_alloc` has hung behind the last one, before it gets its pages.
use nekonix.Base.{ℕ, ◌+◌, ◌<◌, ◌≡◌, ◌≢◌, ◌∙◌, refl, arith, length}
use nekonix.Pmm.{Machine, request_page}
use nekonix.Pmm.Pages.{free_list}
use nekonix.Vmm.Held.{OnPage}
use nekonix.Vmm.Space.{IsHeld}
use nekonix.Vmm.Client.{IsStep, request_page-IsStep}
use nekonix.Vma.{start, size, flags, next, region_end}
use nekonix.Vma.Insert.{hang, other_page, hang-IsStep, hang-fields, hang-same}
use nekonix.Vma.Place.{IsContext}

-- The region at `page`, behind the one at `last_page`, in the machine `n`.
pub record IsFresh {hhdm_offset table ctx_page : ℕ} {m : Machine}
    (context : IsContext hhdm_offset table m ctx_page) (last_page wanted kind page : ℕ)
    (n : Machine) : Type 0 where
  pub step : IsStep context.space 1 n
  pub own : IsHeld step.space' page
  pub fresh : (q : ℕ) → IsHeld context.space q → q ≢ page
  pub same :
      (q a : ℕ)
      → IsHeld context.space q
      → OnPage hhdm_offset q a
      → a ≢ last_page + hhdm_offset + 24
      → n.memory a ≡ m.memory a
  pub begins : start n.memory (page + hhdm_offset) ≡ region_end m.memory (last_page + hhdm_offset)
  pub sized : size n.memory (page + hhdm_offset) ≡ wanted
  pub of_kind : flags n.memory (page + hhdm_offset) ≡ kind
  pub ended : next n.memory (page + hhdm_offset) ≡ 0
  pub linked : next n.memory (last_page + hhdm_offset) ≡ page + hhdm_offset

pub hang-IsFresh :
    {hhdm_offset table ctx_page : ℕ} {m : Machine}
    (context : IsContext hhdm_offset table m ctx_page) (last_page wanted kind : ℕ)
    → IsHeld context.space last_page
    → 0 < length (free_list m)
    → let (page, m1) = request_page hhdm_offset m in
      IsFresh context last_page wanted kind page
        (hang (last_page + hhdm_offset) (page + hhdm_offset) 0 wanted kind m1)
hang-IsFresh {hhdm_offset} {m} context last_page wanted kind held_last room =
    let (page, m1) = request_page hhdm_offset m in
    let last = last_page + hhdm_offset in
    let (step, own, above, keeps) = request_page-IsStep context.space room in
    let (other, same_last) = keeps last_page held_last in
    let held_last1 = step.held last_page held_last in
    let hung-IsStep = hang-IsStep step.space' held_last1 own other 0 wanted kind in
    let (begins, sized, of_kind, ended, before, linked) =
      hang-fields step.space' held_last1 own other 0 wanted kind in
    let end_same : region_end m1.memory last ≡ region_end m.memory last =
      rw (same_last last (omega arith), same_last (last + 8) (omega arith)) refl in
    record {
      step = record {
        space' = hung-IsStep.space';
        enough = omega (arith, step.enough, hung-IsStep.enough);
        held = λ q h. hung-IsStep.held q (step.held q h);
        virt = λ v. hung-IsStep.virt v ∙ step.virt v;
      };
      own = hung-IsStep.held page own;
      fresh = λ q h. (keeps q h).0;
      same = λ q a h on ne.
          hang-same step.space' held_last1 own other 0 wanted kind a ne
            (other_page hhdm_offset q page a h.0.page_aligned own.0.page_aligned (keeps q h).0 on)
          ∙ (keeps q h).1 a on;
      begins = begins ∙ end_same;
      sized = sized;
      of_kind = of_kind;
      ended = ended;
      linked = linked;
    }
