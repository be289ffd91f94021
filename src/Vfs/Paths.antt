-- ===== src/Vfs/Paths.antt =====
-- Paths in the file system: vfs_init, vfs_traverse_path, vfs_lookup, vfs_lookup_parent and vfs_get_path
-- of kernel/src/dev/vfs.c. A path is the list of its bytes. The copy of it that strdup makes is an
-- argument, 0 where that fails.
use nekonix.Base.{ℕ, zero, suc, Option, none, some, List, [], ◌∷◌, ◌++◌, ◌==◌, if◌then◌else◌}
use nekonix.Vfs.{Nodes, directory, set_node, same_name, vfs_search_node}

abbrev pub slash : ℕ
slash = 47

-- `strtok` on a path: the slashes in front of a piece are passed over (strspn), the piece goes up to the
-- next slash (strpbrk), and the rest begins behind that slash.
unfoldable pub skip_slashes : List ℕ → List ℕ
skip_slashes [] = []
skip_slashes (c ∷ cs) = let rest = skip_slashes cs in if c == slash then rest else c ∷ cs

unfoldable pub cut_token : List ℕ → List ℕ × List ℕ
cut_token [] = ([], [])
cut_token (c ∷ cs) =
    let (token, rest) = cut_token cs in if c == slash then ([], cs) else (c ∷ token, rest)

-- `while (token)`; a node that is not there ends the loop with the null pointer.
unfoldable pub traverse_from : ℕ → ℕ → ℕ → List ℕ → Nodes → Option ℕ
unfolding skip_slashes cut_token
traverse_from zero fuel node path t = none
traverse_from (suc rounds) fuel node path t = elim (skip_slashes path) [
  | [] ↦ some node
  | c ∷ cs ↦
      let (token, rest) = cut_token (c ∷ cs) in
      elim (vfs_search_node fuel node (some token) t) [
        | none ↦ none
        | some zero ↦ some 0
        | some (suc child) ↦ traverse_from rounds fuel (suc child) rest t
      ]
]

-- The root is `g_vfs_root`, and a missing path is a null pointer.
unfoldable pub vfs_traverse_path : ℕ → ℕ → ℕ → ℕ → Option (List ℕ) → Nodes → Option ℕ
vfs_traverse_path rounds fuel root copy none t = some 0
vfs_traverse_path rounds fuel root copy (some path) t =
    if root == 0
    then some 0
    else if same_name path (slash ∷ [])
    then some root
    else if copy == 0
    then some 0
    else traverse_from rounds fuel root path t

abbrev pub vfs_lookup : ℕ → ℕ → ℕ → ℕ → Option (List ℕ) → Nodes → Option ℕ
vfs_lookup rounds fuel root copy path t = vfs_traverse_path rounds fuel root copy path t

-- `strrchr(path, '/')`: what stands in front of the last slash.
unfoldable pub before_last_slash : List ℕ → Option (List ℕ)
before_last_slash [] = none
before_last_slash (c ∷ cs) = elim (before_last_slash cs) [
  | some front ↦ some (c ∷ front)
  | none ↦ if c == slash then some [] else none
]

-- The copies are those of vfs_lookup_parent and of vfs_lookup. When the last slash is the first byte the
-- copy becomes the empty string, in which there is no slash.
unfoldable pub vfs_lookup_parent : ℕ → ℕ → ℕ → ℕ → ℕ → Option (List ℕ) → Nodes → Option ℕ
vfs_lookup_parent rounds fuel root copy copy' none t = some 0
vfs_lookup_parent rounds fuel root copy copy' (some path) t =
    if same_name path (slash ∷ [])
    then some 0
    else if copy == 0
    then some 0
    else elim (before_last_slash path) [
      | none ↦ vfs_lookup rounds fuel root copy' (some path) t
      | some front ↦ vfs_lookup rounds fuel root copy' (some front) t
    ]

-- The names of the nodes above, the nearest first, as vfs_get_path writes them.
unfoldable pub names_above : ℕ → ℕ → Nodes → Option (List ℕ)
names_above zero node t = none
names_above (suc fuel) node t =
    let rest = names_above fuel (t node).parent t in
    if node == 0
    then some []
    else elim rest [ none ↦ none | some names ↦ some ((t node).name ++ names) ]

-- `path` is what kmalloc gives; the answer is none for the null pointer.
unfoldable pub vfs_get_path : ℕ → ℕ → ℕ → Nodes → Option (Option (List ℕ))
unfolding names_above
vfs_get_path fuel path node t =
    if node == 0 then some none else elim (names_above fuel (t node).parent t) [
      | none ↦ none
      | some names ↦ if path == 0 then some none else some (some (names ++ (t node).name))
    ]

-- The root of the tree: `node` and `name` are what kmalloc and strdup give. The permissions are those of
-- a directory that its owner may write.
unfoldable pub vfs_init : ℕ → ℕ → Nodes → ℕ × Nodes
unfolding set_node
vfs_init node time t = if node == 0 then (0, t) else (
  node,
  set_node t node (record {
    parent = 0;
    next = 0;
    child = 0;
    type = directory;
    permissions = 0x557;
    name = slash ∷ [];
    size = 0;
    creation_time = time;
    modification_time = (t node).modification_time;
    uid = 0;
    data' = 0;
  }),
)
