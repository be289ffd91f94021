-- ===== src/Vfs/Walks.antt =====
-- Paths in a small tree, and the theorems on lookups at them.
use nekonix.Base.{ℕ, ◌≡◌, refl, List, [], ◌∷◌, ◌==◌, if◌then◌else◌, arith, some, false}
use nekonix.Vfs.{Nodes, Vnode, directory, same_name, vfs_search_node, search_from}
use nekonix.Vfs.Paths.{
  vfs_lookup, vfs_lookup_parent, vfs_traverse_path, traverse_from, skip_slashes, cut_token,
  vfs_get_path, names_above,
}
use nekonix.Vfs.Lookup.{components, descend, vfs_lookup-descend, vfs_lookup_parent-front}

abbrev dir : ℕ → ℕ → List ℕ → Vnode
dir parent child name = record {
  parent = parent;
  next = 0;
  child = child;
  type = directory;
  permissions = 0x557;
  name = name;
  size = 0;
  creation_time = 0;
  modification_time = 0;
  uid = 0;
  data' = 0;
}

-- "/" at 16, "/a" at 32, "/a/b" at 48 and "/a/b/c" at 64.
abbrev tree : Nodes
tree p =
    if p == 16
    then dir 0 32 (47 ∷ [])
    else if p == 32
    then dir 16 48 (97 ∷ [])
    else if p == 48
    then dir 32 64 (98 ∷ [])
    else if p == 64
    then dir 48 0 (99 ∷ [])
    else dir 0 0 []

-- "//a/b/"
abbrev path : List ℕ
path = 47 ∷ 47 ∷ 97 ∷ 47 ∷ 98 ∷ 47 ∷ []

components-path : components path ≡ (97 ∷ []) ∷ (98 ∷ []) ∷ []
unfolding components
components-path = refl

path_found : vfs_lookup 9 9 16 8 (some path) tree ≡ some 48
unfolding vfs_traverse_path traverse_from skip_slashes cut_token vfs_search_node search_from
path_found = refl

-- The path of "/a/b/c" comes out as "ba/c".
path_of_c : vfs_get_path 9 8 64 tree ≡ some (some (98 ∷ 97 ∷ 47 ∷ 99 ∷ []))
unfolding vfs_get_path names_above
path_of_c = refl

path_other : same_name path (47 ∷ []) ≡ false
path_other = refl

front_other : same_name (47 ∷ 97 ∷ 47 ∷ 99 ∷ []) (47 ∷ []) ≡ false
front_other = refl

vfs_lookup-descend_example :
    vfs_lookup 9 9 16 8 (some path) tree ≡ descend 9 16 (components path) tree
vfs_lookup-descend_example =
    vfs_lookup-descend 9 9 16 8 path tree (omega arith) (omega arith) path_other (omega arith)

-- "/a" and "c"
vfs_lookup_parent-front_example :
    (vfs_lookup_parent 9 9 16 8 8 (some (47 ∷ 97 ∷ 47 ∷ 99 ∷ [])) tree
      ≡ vfs_lookup 9 9 16 8 (some (47 ∷ 97 ∷ [])) tree)
    × (vfs_lookup_parent 9 9 16 8 8 (some (99 ∷ [])) tree
        ≡ vfs_lookup 9 9 16 8 (some (99 ∷ [])) tree)
vfs_lookup_parent-front_example =
    vfs_lookup_parent-front 9 9 16 8 8 (47 ∷ 97 ∷ []) (99 ∷ []) tree (omega arith) (omega arith, tt)
      front_other
