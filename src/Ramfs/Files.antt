-- ===== src/Ramfs/Files.antt =====
-- A new node among the children of its directory, and the other nodes.
use nekonix.Base.{ℕ, ◌+◌, ◌≡◌, ◌≢◌, ◌<◌, ◌∙◌, ap, refl, some, List, [], ◌∷◌, ◌++◌, arith, length}
use nekonix.Vfs.{Nodes, Vnode, NodeType, file, done, set_node, attach, fresh_node, vfs_create}
use nekonix.Vfs.Children.{
  IsChain, IsChildren, Absent, Distinct, set_node_self, set_node_ne, zero-test,
}
use nekonix.Vfs.Insert.{vfs_create-IsChildren}
use nekonix.Ramfs.{Ramfs, Fresh, missing, make_node, make_file}

-- What a node is, apart from its place and its times.
abbrev pub content : Vnode → NodeType × ℕ × List ℕ × ℕ × ℕ
content v = (v.type, v.permissions, v.name, v.size, v.data')

set_node-content :
    (t : Nodes) (p : ℕ) (v : Vnode)
    → content v ≡ content (t p)
    → (q : ℕ) → content (set_node t p v q) ≡ content (t q)
unfolding set_node
set_node-content t p v same q = ground (arith, same)

attach-content :
    (fuel parent node : ℕ) (t u : Nodes)
    → attach fuel parent node t ≡ some (done, u)
    → (q : ℕ) → content (u q) ≡ content (t q)
unfolding attach set_node
attach-content fuel parent node t u made q = ground (arith, made)

-- The siblings are found by `next` alone.
IsChain-same :
    (t u : Nodes) (p : ℕ) (xs : List ℕ)
    → ((x : ℕ) → (u x).next ≡ (t x).next)
    → IsChain t p xs
    → IsChain u p xs
IsChain-same t u p [] same chain = chain
IsChain-same t u p (x ∷ xs) same (here, nz, chain) =
    (here, nz, rw (same x) (IsChain-same t u (t x).next xs same chain))

set_node-next :
    (t : Nodes) (p : ℕ) (v : Vnode)
    → v.next ≡ (t p).next
    → (q : ℕ) → (set_node t p v q).next ≡ (t q).next
unfolding set_node
set_node-next t p v same q = ground (arith, same)

set_node-child :
    (t : Nodes) (p : ℕ) (v : Vnode)
    → v.child ≡ (t p).child
    → (q : ℕ) → (set_node t p v q).child ≡ (t q).child
unfolding set_node
set_node-child t p v same q = ground (arith, same)

-- A node whose pointers stay is written.
pub set_node-IsChildren :
    (t : Nodes) (p : ℕ) (v : Vnode) (parent : ℕ) (xs : List ℕ)
    → v.next ≡ (t p).next
    → v.child ≡ (t p).child
    → IsChildren t parent xs
    → IsChildren (set_node t p v) parent xs
set_node-IsChildren t p v parent xs next child chain =
    rw (set_node-child t p v child parent)
      (IsChain-same t (set_node t p v) (t parent).child xs (set_node-next t p v next) chain)

-- vfs_create gives the new node what it is, and leaves the others what they are.
vfs_create-content :
    (fuel parent : ℕ) (name : List ℕ) (type : NodeType) (perms new_node node copy now : ℕ)
    (t u : Nodes)
    → parent ≢ 0
    → new_node ≢ 0
    → node ≢ 0
    → copy ≢ 0
    → vfs_create fuel parent (some name) type perms new_node node copy now t ≡ some (done, u)
    → (content (u node) ≡ (type, perms, name, 0, 0))
      × ((q : ℕ) → node ≢ q → content (u q) ≡ content (t q))
unfolding vfs_create fresh_node
vfs_create-content fuel parent name type perms new_node node copy now t u pz oz nz cz made =
    let v = fresh_node parent name type perms now (t node).modification_time in
    let attached : attach fuel parent node (set_node t node v) ≡ some (done, u) =
      rw (zero-test parent pz, zero-test new_node oz, zero-test node nz, zero-test copy cz) at
        made in
    let same = attach-content fuel parent node (set_node t node v) u attached in
    (
      same node ∙ ap content (set_node_self t node v),
      λ q ne. same q ∙ ap content (set_node_ne t node v ne),
    )

-- What a file in a directory needs: memory for its node, which is none of the nodes there.
pub record IsFresh (new : Fresh) (parent : ℕ) (xs : List ℕ) : Type 0 where
  pub node_given : new.node ≢ 0
  pub copy_given : new.copy ≢ 0
  pub not_parent : new.node ≢ parent
  pub absent : Absent new.node xs

-- A file is made behind the children of its directory; the other nodes stay what they are.
pub record IsMade (t u : Nodes) (parent node perms content_at size : ℕ) (name xs : List ℕ)
    : Type 0 where
  pub children : IsChildren u parent (xs ++ (node ∷ []))
  pub made : content (u node) ≡ (file, perms, name, size, content_at)
  pub others : (q : ℕ) → node ≢ q → content (u q) ≡ content (t q)

-- The node with its second time stamp, its place in the archive and its size.
abbrev filled : Nodes → ℕ → ℕ → ℕ → ℕ → Nodes
filled t node stamped content_at size =
    let marked = set_node t node (record (t node) { creation_time = stamped }) in
    set_node marked node (record (marked node) { data' = content_at; size = size })

filled-IsMade :
    (r t : Nodes) (parent node perms stamped content_at size : ℕ) (name xs : List ℕ)
    → IsChildren t parent (xs ++ (node ∷ []))
    → content (t node) ≡ (file, perms, name, 0, 0)
    → ((q : ℕ) → node ≢ q → content (t q) ≡ content (r q))
    → IsMade r (filled t node stamped content_at size) parent node perms content_at size name xs
filled-IsMade r t parent node perms stamped content_at size name xs chain own others =
    let mark : Vnode = record (t node) { creation_time = stamped } in
    let marked = set_node t node mark in
    let last : Vnode = record (marked node) { data' = content_at; size = size } in
    let same : marked node ≡ mark = set_node_self t node mark in
    record {
      children =
          set_node-IsChildren marked node last parent _ refl refl
            (set_node-IsChildren t node mark parent _ refl refl chain);
      made =
          ap content (set_node_self marked node last)
          ∙ ap (λ (v : Vnode). (v.type, v.permissions, v.name, size, content_at)) same
          ∙ ground (arith, own);
      others = λ q ne.
          ap content (set_node_ne marked node last ne)
          ∙ ap content (set_node_ne t node mark ne)
          ∙ others q ne;
    }

make_file-filled :
    (supply : ℕ → Fresh) (fuel perms content_at size parent : ℕ) (name : List ℕ) (r : Ramfs)
    (t : Nodes)
    → let new = supply r.made in
      vfs_create fuel parent (some name) file perms 1 new.node new.copy new.created r.nodes
        ≡ some (done, t)
      → make_file supply fuel perms content_at size (missing parent name) r
        ≡ some (
          done,
          record r { nodes = filled t new.node new.stamped content_at size; made = r.made + 1 },
        )
unfolding make_file make_node
make_file-filled supply fuel perms content_at size parent name r t made = rw (make_file, made) refl

pub make_file_lem :
    (supply : ℕ → Fresh) (fuel perms content_at size parent : ℕ) (name xs : List ℕ) (r : Ramfs)
    → parent ≢ 0
    → IsFresh (supply r.made) parent xs
    → Distinct xs
    → length xs < fuel
    → IsChildren r.nodes parent xs
    → (u : Nodes) × (make_file supply fuel perms content_at size (missing parent name) r
        ≡ some (done, record r { nodes = u; made = r.made + 1 }))
      × IsMade r.nodes u parent (supply r.made).node perms content_at size name xs
make_file_lem supply fuel perms content_at size parent name xs r pz fresh distinct enough chain =
    let new = supply r.made in
    let one : 1 ≢ 0 = omega arith in
    let (t, e, chain1, named) =
      vfs_create-IsChildren fuel parent name file perms 1 new.node new.copy new.created r.nodes xs
        pz one fresh.node_given fresh.copy_given fresh.not_parent fresh.absent distinct enough
        chain in
    let (own, others) =
      vfs_create-content fuel parent name file perms 1 new.node new.copy new.created r.nodes t pz
        one fresh.node_given fresh.copy_given e in
    (
      filled t new.node new.stamped content_at size,
      make_file-filled supply fuel perms content_at size parent name r t e,
      filled-IsMade r.nodes t parent new.node perms new.stamped content_at size name xs chain1 own
          others,
    )
