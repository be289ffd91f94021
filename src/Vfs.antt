-- ===== src/Vfs.antt =====
-- The tree of the file system, kernel/src/dev/vfs.c. Nodes stand in a store by address; a node has
-- its first child and its next sibling. The addresses that kmalloc and strdup give are arguments, 0
-- where they fail, and so is the time. A walk along siblings has fuel.
pub mod Children
pub mod Insert
pub mod Remove
pub mod Search
pub mod Content
pub mod Paths
pub mod Lookup
mod Walks
mod Tests
use nekonix.Base.{
  ℕ, zero, suc, ◌≡◌, Bool, true, false, ◌&&◌, Option, none, some, List, [], ◌∷◌, ◌==◌,
  if◌then◌else◌,
}

pub data NodeType : Type 0 where
  directory file : NodeType

-- `vnode_t`; the name is the string that its pointer leads to.
pub record Vnode : Type 0 where
  pub parent : ℕ
  pub next : ℕ
  pub child : ℕ
  pub type : NodeType
  pub permissions : ℕ
  pub name : List ℕ
  pub size : ℕ
  pub creation_time : ℕ
  pub modification_time : ℕ
  pub uid : ℕ
  pub data' : ℕ

abbrev pub Nodes : Type 0
Nodes = ℕ → Vnode

-- `*p = v`
unfoldable pub set_node : Nodes → ℕ → Vnode → Nodes
set_node t p v q = if p == q then v else t q

-- `done` is the answer 0, and `failed` 1.
pub data Status : Type 0 where
  done failed : Status

-- `while (current->next) current = current->next;`
unfoldable pub last_sibling : ℕ → Nodes → ℕ → Option ℕ
last_sibling zero t current = none
last_sibling (suc fuel) t current =
    let rest = last_sibling fuel t (t current).next in
    if (t current).next == 0 then some current else rest

-- The node as it is filled in; kmalloc leaves the time of the last change as it was.
unfoldable pub fresh_node : ℕ → List ℕ → NodeType → ℕ → ℕ → ℕ → Vnode
fresh_node parent name type perms now stale = record {
  parent = parent;
  next = 0;
  child = 0;
  type = type;
  permissions = perms;
  name = name;
  size = 0;
  creation_time = now;
  modification_time = stale;
  uid = 0;
  data' = 0;
}

-- The node becomes the first child, or the sibling of the last one.
unfoldable pub attach : ℕ → ℕ → ℕ → Nodes → Option (Status × Nodes)
attach fuel parent node t =
    if (t parent).child == 0
    then some (done, set_node t parent (record (t parent) { child = node }))
    else elim (last_sibling fuel t (t parent).child) [
      | none ↦ none
      | some current ↦ some (done, set_node t current (record (t current) { next = node }))
    ]

-- The parent, the name or the place for the answer may be null; `node` and `copy` are what kmalloc
-- and strdup give.
unfoldable pub vfs_create :
    ℕ → ℕ → Option (List ℕ) → NodeType → ℕ → ℕ → ℕ → ℕ → ℕ → Nodes → Option (Status × Nodes)
unfolding fresh_node
vfs_create fuel parent none type perms new_node node copy now t = some (failed, t)
vfs_create fuel parent (some name) type perms new_node node copy now t =
    let made = set_node t node (fresh_node parent name type perms now (t node).modification_time) in
    if parent == 0
    then some (failed, t)
    else if new_node == 0
    then some (failed, t)
    else if node == 0
    then some (failed, t)
    else if copy == 0
    then some (failed, set_node t node (record (t node) { parent = parent; child = 0; next = 0 }))
    else attach fuel parent node made

-- The loop of `vfs_remove`.
unfoldable pub unlink : ℕ → ℕ → ℕ → ℕ → ℕ → Nodes → Option (Status × Nodes)
unlink zero parent node prev curr t = none
unlink (suc fuel) parent node prev curr t =
    let rest = unlink fuel parent node curr (t curr).next t in
    if curr == 0
    then some (failed, t)
    else if curr == node
    then (if prev == 0
        then some (done, set_node t parent (record (t parent) { child = (t curr).next }))
        else some (done, set_node t prev (record (t prev) { next = (t curr).next })))
    else rest

unfoldable pub vfs_remove : ℕ → ℕ → ℕ → Nodes → Option (Status × Nodes)
vfs_remove fuel parent node t =
    if parent == 0
    then some (failed, t)
    else if node == 0
    then some (failed, t)
    else unlink fuel parent node 0 (t parent).child t

unfoldable pub vfs_chmod : ℕ → ℕ → Nodes → Status × Nodes
vfs_chmod node permissions t =
    if node == 0
    then (failed, t)
    else (done, set_node t node (record (t node) { permissions = permissions }))

unfoldable pub vfs_chown : ℕ → ℕ → Nodes → Status × Nodes
vfs_chown node uid t =
    if node == 0 then (failed, t) else (done, set_node t node (record (t node) { uid = uid }))

-- `strcmp(a, b) == 0`
abbrev pub same_name : List ℕ → List ℕ → Bool
same_name [] [] = true
same_name [] (b ∷ bs) = false
same_name (a ∷ as') [] = false
same_name (a ∷ as') (b ∷ bs) = a == b && same_name as' bs

unfoldable pub search_from : ℕ → List ℕ → ℕ → Nodes → Option ℕ
search_from zero name curr t = none
search_from (suc fuel) name curr t =
    let rest = search_from fuel name (t curr).next t in
    if curr == 0 then some 0 else if same_name (t curr).name name then some curr else rest

-- The null pointer when there is no such child.
unfoldable pub vfs_search_node : ℕ → ℕ → Option (List ℕ) → Nodes → Option ℕ
vfs_search_node fuel parent none t = some 0
vfs_search_node fuel parent (some name) t =
    if parent == 0 then some 0 else search_from fuel name (t parent).child t
