-- ===== src/Vfs/Remove.antt =====
-- Lemmas on vfs_remove and the children of a node.
use nekonix.Base.{
  ℕ, zero, suc, ◌≡◌, ◌≢◌, ◌<◌, ◌∙◌, ap, sym, refl, List, [], ◌∷◌, ◌++◌, arith, length, some, ==_iff,
}
use nekonix.Vfs.{Nodes, Vnode, done, set_node, unlink, vfs_remove}
use nekonix.Vfs.Children.{
  IsChain, IsChildren, Absent, Distinct, set_node_self, set_node_ne, IsChain-agree, zero-test,
  eq-test,
}

Absent-middle : (p : ℕ) (xs : List ℕ) (n : ℕ) (ys : List ℕ) → Absent p (xs ++ (n ∷ ys)) → p ≢ n
Absent-middle p [] n ys (ne, a) = ne
Absent-middle p (x ∷ xs) n ys (ne, a) = Absent-middle p xs n ys a

Absent-left : (p : ℕ) (xs ys : List ℕ) → Absent p (xs ++ ys) → Absent p xs
Absent-left p [] ys a = tt
Absent-left p (x ∷ xs) ys (ne, a) = (ne, Absent-left p xs ys a)

-- The store when the loop has found the node, from the sibling `prev` in front of `curr`.
record IsUnlinked (fuel parent node prev curr : ℕ) (t : Nodes) (xs ys : List ℕ) : Type 0 where
  u : Nodes
  ends : unlink fuel parent node prev curr t ≡ some (done, u)
  chain : IsChain u (u prev).next (xs ++ ys)
  keep : (p : ℕ) → Absent p (prev ∷ xs) → u p ≡ t p
  child : (p : ℕ) → (u p).child ≡ (t p).child

module _ (parent node : ℕ) (t : Nodes) where
  -- The pointer of the sibling in front now leads past the node.
  abbrev hop : ℕ → ℕ → Nodes
  hop prev curr = set_node t prev (record (t prev) { next = (t curr).next })

  hop-child : (prev curr p : ℕ) → (hop prev curr p).child ≡ (t p).child
  unfolding set_node
  hop-child prev curr p = ground arith

  unlink-IsUnlinked :
      (fuel prev curr : ℕ) (xs ys : List ℕ)
      → prev ≢ 0
      → (t prev).next ≡ curr
      → IsChain t curr (xs ++ (node ∷ ys))
      → Distinct (prev ∷ (xs ++ (node ∷ ys)))
      → length xs < fuel
      → IsUnlinked fuel parent node prev curr t xs ys
  unfolding unlink
  unlink-IsUnlinked zero prev curr xs ys pz n c d h = absurd (omega (arith, h))
  unlink-IsUnlinked (suc fuel) prev curr [] ys pz n (e, nz, c) ((ne, a), (b, d)) h = record {
    u = hop prev curr;
    ends = rw (e, zero-test node nz, zero-test prev pz, (==_iff node node).1 refl) refl;
    chain =
        rw (set_node_self t prev (record (t prev) { next = (t curr).next }), e)
          (IsChain-agree t (hop prev node) prev (t node).next ys
            (λ x ne'. ap (λ (v : Vnode). v.next) (set_node_ne t prev _ ne')) a c);
    keep = λ p b. set_node_ne t prev _ (λ q. b.0 (sym q));
    child = hop-child prev curr;
  }
  unlink-IsUnlinked (suc fuel) prev curr (x ∷ xs) ys pz n (e, xz, c) ((ne, a), (b, d)) h =
      let r = unlink-IsUnlinked fuel x (t x).next xs ys xz refl c (b, d) (omega (arith, h)) in
      record {
        u = r.u;
        ends = rw (e, zero-test x xz, eq-test x node (Absent-middle x xs node ys b)) r.ends;
        chain = (
          ap (λ (v : Vnode). v.next) (r.keep prev (ne, Absent-left prev xs _ a)) ∙ n ∙ e,
          xz,
          r.chain,
        );
        keep = λ p m. r.keep p m.1;
        child = r.child;
      }

IsChain-nonzero :
    (t : Nodes) (p : ℕ) (xs : List ℕ) (n : ℕ) (ys : List ℕ) → IsChain t p (xs ++ (n ∷ ys)) → n ≢ 0
IsChain-nonzero t p [] n ys (e, nz, c) = nz
IsChain-nonzero t p (x ∷ xs) n ys (e, nz, c) = IsChain-nonzero t (t x).next xs n ys c

child-next :
    (t : Nodes) (p c x : ℕ) → (set_node t p (record (t p) { child = c }) x).next ≡ (t x).next
unfolding set_node
child-next t p c x = ground arith

-- The loop from the first child on, where no sibling stands in front.
first-IsUnlinked :
    (fuel parent node : ℕ) (t : Nodes) (xs ys : List ℕ)
    → Distinct (xs ++ (node ∷ ys))
    → length xs < fuel
    → IsChildren t parent (xs ++ (node ∷ ys))
    → (u : Nodes) × (unlink fuel parent node 0 (t parent).child t ≡ some (done, u))
      × IsChildren u parent (xs ++ ys)
unfolding unlink
first-IsUnlinked zero parent node t xs ys d h c = absurd (omega (arith, h))
first-IsUnlinked (suc fuel) parent node t [] ys (a, d) h (e, nz, c) = (
  set_node t parent (record (t parent) { child = (t node).next }),
  rw (e, zero-test node nz, (==_iff node node).1 refl) refl,
  rw (set_node_self t parent (record (t parent) { child = (t node).next })) (
      IsChain-agree t (set_node t parent (record (t parent) { child = (t node).next })) node
        (t node).next ys (λ x ne. child-next t parent (t node).next x) a c),
)
first-IsUnlinked (suc fuel) parent node t (x ∷ xs) ys (a, d) h (e, xz, c) =
    let r =
      unlink-IsUnlinked parent node t fuel x (t x).next xs ys xz refl c (a, d) (omega (arith, h)) in
    (
      r.u,
      rw (e, zero-test x xz, eq-test x node (Absent-middle x xs node ys a)) r.ends,
      (r.child parent ∙ e, xz, r.chain),
    )

-- vfs_remove of a child, with fuel for the children, answers 0 and takes that child out: the others
-- stay in their order.
pub vfs_remove-IsChildren :
    (fuel parent node : ℕ) (t : Nodes) (xs ys : List ℕ)
    → parent ≢ 0
    → Distinct (xs ++ (node ∷ ys))
    → length xs < fuel
    → IsChildren t parent (xs ++ (node ∷ ys))
    → (u : Nodes) × (vfs_remove fuel parent node t ≡ some (done, u))
      × IsChildren u parent (xs ++ ys)
unfolding vfs_remove
vfs_remove-IsChildren fuel parent node t xs ys pz d h c =
    let (u, e, cs) = first-IsUnlinked fuel parent node t xs ys d h c in
    (u, rw (zero-test parent pz, zero-test node (IsChain-nonzero t _ xs node ys c)) e, cs)
