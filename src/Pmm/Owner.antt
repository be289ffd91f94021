-- ===== src/Pmm/Owner.antt =====
-- Who owns a page: runs of requests and frees by clients that free only what they were given.
use mathlib.Core.List.{
  Permᴰ, Nodup, Mem, mem-append_left, mem-append_right, mem-cons_self, Nodup-cons,
}
use mathlib.Core.List.Permᴰ
use mathlib.Core.List.Perm
use native.Mathlib.Decide.{ℕ_discrete}
use nekonix.Base.{
  ℕ, ◌⊎◌, inl, inr, suc, ◌≡◌, refl, sym, ap, subst, ◌∙◌, ◌≢◌, List, [], ◌∷◌, ◌++◌, arith, length,
  length-append,
}
use nekonix.Pmm.{Machine, request_page, free_page}
use nekonix.Pmm.Pages.{free_list, pop_list, push_list, request_page_refines, free_page_refines}

-- The allocator, and the pages that its clients hold.
pub record World : Type 0 where
  pub machine : Machine
  pub owned : List ℕ

module _ (hhdm_offset : ℕ) where
  -- A request that succeeds, one that is refused, and a free of a page that is held.
  pub data Call (w : World) : World → Type 0 where
    request :
        (p : ℕ)
        → (request_page hhdm_offset w.machine).0 ≡ p
        → p ≢ 0
        → Call w (record { machine = (request_page hhdm_offset w.machine).1; owned = p ∷ w.owned })
    refused :
        (request_page hhdm_offset w.machine).0 ≡ 0
        → Call w (record { machine = (request_page hhdm_offset w.machine).1; owned = w.owned })
    free :
        (p : ℕ) (xs ys : List ℕ)
        → w.owned ≡ xs ++ (p ∷ ys)
        → Call w (record { machine = free_page p w.machine; owned = xs ++ ys })

  pub data Run (w : World) : World → Type 0 where
    here : Run w w
    next : {u v : World} → Run w u → Call u v → Run w v

-- The free pages and the held pages are the pages of `all`, in some order, and the stack has an
-- entry for each of them.
pub record IsConserved (all : List ℕ) (w : World) : Type 0 where
  pub perm : Permᴰ (free_list w.machine ++ w.owned) all
  pub room : w.machine.stack.max ≡ length all

pub length-Permᴰ {ℓ} : {A : Type ℓ} {xs ys : List A} → Permᴰ xs ys → length xs ≡ length ys
length-Permᴰ Permᴰ.nil = refl
length-Permᴰ (Permᴰ.cons e p) = ap suc (length-Permᴰ p)
length-Permᴰ (Permᴰ.swap e f) = refl
length-Permᴰ (Permᴰ.trans p q) = length-Permᴰ p ∙ length-Permᴰ q

module _ {all : List ℕ} (nonzero : ¬ Mem 0 all) where
  held-ne-zero :
      (fs : List ℕ) {owned : List ℕ} (p : ℕ) (xs ys : List ℕ)
      → Permᴰ (fs ++ owned) all
      → owned ≡ xs ++ (p ∷ ys)
      → p ≢ 0
  held-ne-zero fs p xs ys c e z =
      nonzero (Permᴰ.mem c (rw (e, z) (mem-append_right fs (mem-append_right xs mem-cons_self))))

  pop-ok :
      (ps : List ℕ) (owned : List ℕ) (p : ℕ)
      → (pop_list ps).0 ≡ p
      → p ≢ 0
      → Permᴰ ((pop_list ps).1 ++ (p ∷ owned)) (ps ++ owned)
  unfolding pop_list
  pop-ok [] owned p e ne = absurd (ne (sym e))
  pop-ok (q ∷ ps) owned p e ne = rw (← e) (Permᴰ.middle q ps owned)

  pop-empty :
      (ps : List ℕ) (owned : List ℕ) → Permᴰ (ps ++ owned) all → (pop_list ps).0 ≡ 0 → ps ≡ []
  unfolding pop_list
  pop-empty [] owned c e = refl
  pop-empty (q ∷ ps) owned c e = absurd (nonzero (Permᴰ.mem c (rw (← e) mem-cons_self)))

  pop-refused :
      (ps : List ℕ) (owned : List ℕ)
      → Permᴰ (ps ++ owned) all
      → (pop_list ps).0 ≡ 0
      → (pop_list ps).1 ≡ ps
  unfolding pop_list
  pop-refused ps owned c e = rw (pop-empty ps owned c e) refl

  middle_of :
      (fs : List ℕ) (p : ℕ) (xs ys : List ℕ)
      → Permᴰ (fs ++ (xs ++ (p ∷ ys))) (p ∷ (fs ++ (xs ++ ys)))
  middle_of fs p xs ys =
      Permᴰ.trans (Permᴰ.append_left fs (Permᴰ.middle p xs ys)) (Permᴰ.middle p fs (xs ++ ys))

  push-ok :
      (fs : List ℕ) (max p : ℕ) (xs ys : List ℕ)
      → Permᴰ (fs ++ (xs ++ (p ∷ ys))) all
      → max ≡ length all
      → push_list max fs p ≡ p ∷ fs
  unfolding push_list
  push-ok fs max p xs ys c room =
      let ne : p ≢ 0 = held-ne-zero fs p xs ys c refl in
      ground
        (arith, ne, length-Permᴰ c, length-append fs (xs ++ (p ∷ ys)), length-append xs (p ∷ ys))

  module _ (hhdm_offset : ℕ) where
    Call-IsConserved : {v w : World} → IsConserved all v → Call hhdm_offset v w → IsConserved all w
    Call-IsConserved {v} c (request p e ne) =
        let (popped, max, base) = request_page_refines hhdm_offset v.machine in
        record {
          perm =
              Permᴰ.trans
                (rw (ap (λ r. r.1) popped)
                  (pop-ok (free_list v.machine) v.owned p (sym (ap (λ r. r.0) popped) ∙ e) ne))
                c.perm;
          room = max ∙ c.room;
        }
    Call-IsConserved {v} c (refused e) =
        let (popped, max, base) = request_page_refines hhdm_offset v.machine in
        record {
          perm =
              rw
                (
                  ap (λ r. r.1) popped,
                  pop-refused (free_list v.machine) v.owned c.perm (sym (ap (λ r. r.0) popped) ∙ e),
                )
                c.perm;
          room = max ∙ c.room;
        }
    Call-IsConserved {v} c (free p xs ys e) =
        let (pushed, max, base) = free_page_refines p v.machine in
        let fs = free_list v.machine in
        let held : Permᴰ (fs ++ (xs ++ (p ∷ ys))) all = rw e at c.perm in
        record {
          perm =
              rw (pushed, push-ok fs v.machine.stack.max p xs ys held c.room)
                (Permᴰ.trans (Permᴰ.symm (middle_of fs p xs ys)) held);
          room = max ∙ c.room;
        }

    Run-keeps : {v w : World} → IsConserved all v → Run hhdm_offset v w → IsConserved all w
    Run-keeps c here = c
    Run-keeps c (next r s) = Call-IsConserved (Run-keeps c r) s

    -- Where the allocator starts with pages that are distinct and none of which is 0: along every
    -- run of requests and frees, in which a client frees only pages that it holds, the free pages
    -- and the held pages together stay those pages, so none is lost, and they stay distinct, so no
    -- page is both free and held, is free twice or is held twice.
    pub Run-IsConserved :
        {v w : World}
        → Nodup all
        → IsConserved all v
        → Run hhdm_offset v w
        → IsConserved all w × Nodup (free_list w.machine ++ w.owned)
    Run-IsConserved distinct c r =
        let kept = Run-keeps c r in (kept, Perm.nodup ∣ Permᴰ.symm kept.perm ∣₁ distinct)

    handed_out :
        {w : World} {p : ℕ}
        → Nodup all
        → IsConserved all w
        → (request_page hhdm_offset w.machine).0 ≡ p
        → p ≢ 0
        → Mem p all
          × (¬ Mem p w.owned)
          × (¬ Mem p (free_list (request_page hhdm_offset w.machine).1))
    handed_out {w} {p} distinct c e ne =
        let (popped, max, base) = request_page_refines hhdm_offset w.machine in
        let rest = (pop_list (free_list w.machine)).1 in
        let perm : Permᴰ (p ∷ (rest ++ w.owned)) all =
          Permᴰ.trans (Permᴰ.symm (Permᴰ.middle p rest w.owned)) (
            Permᴰ.trans (pop-ok (free_list w.machine) w.owned p (sym (ap (λ r. r.0) popped) ∙ e) ne)
              c.perm) in
        let apart = Nodup-cons.0 (Perm.nodup ∣ Permᴰ.symm perm ∣₁ distinct) in
        (
          Permᴰ.mem perm mem-cons_self,
          λ m. apart.0 (mem-append_right rest m),
          λ m. apart.0 (mem-append_left w.owned (subst (Mem p) (ap (λ r. r.1) popped) m)),
        )

    -- Where the allocator starts with pages that are distinct and none of which is 0: after every
    -- run of requests and frees, a further request answers 0 only when no page is free. Otherwise
    -- the page that it hands out is one of those pages, nobody holds it, and it is no longer among
    -- the free pages once the request has returned.
    pub request_page-exclusive :
        {v w : World}
        → Nodup all
        → IsConserved all v
        → Run hhdm_offset v w
        → let (p, m) = request_page hhdm_offset w.machine in
          ((p ≡ 0) × (free_list w.machine ≡ []))
          ⊎ ((p ≢ 0) × Mem p all × (¬ Mem p w.owned) × (¬ Mem p (free_list m)))
    request_page-exclusive {v} {w} distinct start r =
        let c = Run-keeps start r in
        let popped = (request_page_refines hhdm_offset w.machine).0 in
        elim (ℕ_discrete (request_page hhdm_offset w.machine).0 0) [
          | yes e ↦
              inl
                (e, pop-empty (free_list w.machine) w.owned c.perm (sym (ap (λ r. r.0) popped) ∙ e))
          | no ne ↦
              let (known, unheld, taken) = handed_out distinct c refl ne in
              inr (ne, known, unheld, taken)
        ]

    -- A page that a client holds is never refused when it is freed: it becomes the next free page.
    free_page-accepts :
        {w : World} (p : ℕ) (xs ys : List ℕ)
        → IsConserved all w
        → w.owned ≡ xs ++ (p ∷ ys)
        → free_list (free_page p w.machine) ≡ p ∷ free_list w.machine
    free_page-accepts {w} p xs ys c e =
        (free_page_refines p w.machine).0
        ∙ push-ok (free_list w.machine) w.machine.stack.max p xs ys (rw e at c.perm) c.room
