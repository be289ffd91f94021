-- ===== src/Vfs/Insert.antt =====
-- Lemmas on vfs_create and the children of a node.
use nekonix.Base.{
  ℕ, zero, suc, ◌≡◌, ◌≢◌, ◌<◌, ◌∙◌, ap, sym, refl, List, [], ◌∷◌, ◌++◌, arith, length, some,
}
use nekonix.Vfs.{
  Nodes, Vnode, NodeType, done, set_node, last_sibling, vfs_create, attach, fresh_node,
}
use nekonix.Vfs.Children.{
  IsChain, IsChildren, Absent, Distinct, set_node_self, set_node_ne, IsChain-agree, zero-test,
}

-- The node that a walk from the first of some siblings ends at, and the chain when a node is hung
-- behind it.
record IsAppended (fuel : ℕ) (t : Nodes) (node x : ℕ) (xs : List ℕ) : Type 0 where
  end : ℕ
  found : last_sibling fuel t x ≡ some end
  among : (q : ℕ) → Absent q (x ∷ xs) → q ≢ end
  chain : IsChain (set_node t end (record (t end) { next = node })) x (x ∷ (xs ++ (node ∷ [])))

last_sibling-IsAppended :
    (fuel : ℕ) (t : Nodes) (node x : ℕ) (xs : List ℕ)
    → node ≢ 0
    → (t node).next ≡ 0
    → x ≢ 0
    → IsChain t (t x).next xs
    → Absent node (x ∷ xs)
    → Distinct (x ∷ xs)
    → length xs < fuel
    → IsAppended fuel t node x xs
unfolding last_sibling
last_sibling-IsAppended zero t node x xs nz nn xz c a d h = absurd (omega (arith, h))
last_sibling-IsAppended (suc fuel) t node x [] nz nn xz c (ne, a) d h = record {
  end = x;
  found = rw c refl;
  among = λ q b. b.0;
  chain = (
    refl,
    xz,
    (
      ap (λ (v : Vnode). v.next) (set_node_self t x _),
      nz,
      ap (λ (v : Vnode). v.next) (set_node_ne t x _ (λ e. ne (sym e))) ∙ nn,
    ),
  );
}
last_sibling-IsAppended (suc fuel) t node x (y ∷ ys) nz nn xz (e, yz, c) (ne, a) (ax, d) h =
    let r = last_sibling-IsAppended fuel t node y ys nz nn yz c a d (omega (arith, h)) in
    record {
      end = r.end;
      found = rw (e, zero-test y yz) r.found;
      among = λ q b. r.among q b.1;
      chain = (
        refl,
        xz,
        (
          ap (λ (v : Vnode). v.next) (set_node_ne t r.end _ (λ q. r.among x ax (sym q))) ∙ e,
          yz,
          r.chain.2,
        ),
      );
    }

-- A new node in the store, before it is hung anywhere.
module _ (t : Nodes) (node : ℕ) (v : Vnode) (cleared : v.next ≡ 0) where
  made-next : (x : ℕ) → node ≢ x → (set_node t node v x).next ≡ (t x).next
  made-next x ne = ap (λ (w : Vnode). w.next) (set_node_ne t node v ne)

  made-node : (set_node t node v node).next ≡ 0
  made-node = ap (λ (w : Vnode). w.next) (set_node_self t node v) ∙ cleared

module _ (fuel parent node : ℕ) (t : Nodes) (nz : node ≢ 0) (np : node ≢ parent) where
  child-keep :
      (q : ℕ) → (set_node t q (record (t q) { next = node }) parent).child ≡ (t parent).child
  unfolding set_node
  child-keep q = ground (arith, nz)

  name-keep : (q : ℕ) → (set_node t q (record (t q) { next = node }) node).name ≡ (t node).name
  unfolding set_node
  name-keep q = ground (arith, nz)

  attach-IsChildren :
      (xs : List ℕ)
      → (t node).next ≡ 0
      → Absent node xs
      → Distinct xs
      → length xs < fuel
      → IsChildren t parent xs
      → (u : Nodes) × (attach fuel parent node t ≡ some (done, u))
        × IsChildren u parent (xs ++ (node ∷ []))
        × ((u node).name ≡ (t node).name)
  unfolding attach
  attach-IsChildren [] nn a d h c = (
    set_node t parent (record (t parent) { child = node }),
    rw c refl,
    (
      ap (λ (v : Vnode). v.child) (set_node_self t parent _),
      nz,
      ap (λ (v : Vnode). v.next) (set_node_ne t parent _ (λ e. np (sym e))) ∙ nn,
    ),
    ap (λ (v : Vnode). v.name) (set_node_ne t parent _ (λ e. np (sym e))),
  )
  attach-IsChildren (x ∷ xs) nn a d h (e, xz, c) =
      let r = last_sibling-IsAppended fuel t node x xs nz nn xz c a d (omega (arith, h)) in
      (
        set_node t r.end (record (t r.end) { next = node }),
        rw (e, zero-test x xz, r.found) refl,
        (child-keep r.end ∙ e, xz, r.chain.2),
        name-keep r.end,
      )

-- vfs_create with a parent, a name and memory, and fuel for its children, answers 0 and puts the new
-- node, with the name, the type and the permissions, behind the children of the parent.
pub vfs_create-IsChildren :
    (fuel parent : ℕ) (name : List ℕ) (type : NodeType) (perms new_node node copy now : ℕ)
    (t : Nodes) (xs : List ℕ)
    → parent ≢ 0
    → new_node ≢ 0
    → node ≢ 0
    → copy ≢ 0
    → node ≢ parent
    → Absent node xs
    → Distinct xs
    → length xs < fuel
    → IsChildren t parent xs
    → (u : Nodes) × (vfs_create fuel parent (some name) type perms new_node node copy now t
        ≡ some (done, u))
      × IsChildren u parent (xs ++ (node ∷ []))
      × ((u node).name ≡ name)
unfolding vfs_create fresh_node
vfs_create-IsChildren fuel parent name type perms new_node node copy now t xs pz oz nz cz np a d h
      c =
    let v = fresh_node parent name type perms now (t node).modification_time in
    let here = set_node_ne t node v np in
    let chain =
      IsChain-agree t (set_node t node v) node (t parent).child xs (made-next t node v refl) a c in
    let (u, e, cs, n) =
      attach-IsChildren fuel parent node (set_node t node v) nz np xs (made-node t node v refl) a d
        h (rw (ap (λ (w : Vnode). w.child) here) chain) in
    (
      u,
      rw (zero-test parent pz, zero-test new_node oz, zero-test node nz, zero-test copy cz) e,
      cs,
      n ∙ ap (λ (w : Vnode). w.name) (set_node_self t node v),
    )
