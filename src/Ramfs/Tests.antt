-- ===== src/Ramfs/Tests.antt =====
-- An archive with a directory and a file in it.
use nekonix.Base.{
  ℕ, ◌+◌, ◌-◌, ◌≡◌, ◌≢◌, ◌≤◌, ◌<◌, inl, inr, not, bit_and, refl, none, some, List, [], ◌∷◌, ltb,
  ◌==◌, if◌then◌else◌, arith,
}
use nekonix.Strings.{Bytes}
use nekonix.Text.{
  strtol, skip_space, is_space, strtol_base, strtol_loop, next_digit, signed, hex_prefix,
}
use nekonix.Vfs.{
  Nodes, Vnode, directory, done, set_node, vfs_create, vfs_search_node, search_from, attach,
  last_sibling, fresh_node,
}
use nekonix.Vfs.Paths.{skip_slashes, cut_token, vfs_lookup, vfs_traverse_path, traverse_from}
use nekonix.Hvfs.{hvfs_permission_check}
use nekonix.Vfs.Children.{IsChildren}
use nekonix.Ramfs.Files.{content}
use nekonix.Ramfs.Flat.{Item, IsFile, IsArchive, IsSupplied, AreFiles}
use nekonix.Ramfs.Init.{ramfs_init_lem}
use nekonix.Ramfs.Offsets.{parse_loop-hangs}
use nekonix.Ramfs.Modes.{hvfs_permission_check-mode}
use nekonix.Ramfs.{
  Ramfs, Fresh, ramfs_init, ramfs_parse, parse_loop, parse_entry, make_entry, make_file, make_node,
  walk_name, string_at, strip_dot, next_offset, permissions_of,
}

abbrev at : List (ℕ × ℕ) → ℕ → ℕ
at [] i = 0
at ((j, b) ∷ rest) i = if j == i then b else at rest i

-- "./d/" with the mode 755, and "./d/f" with the mode 644 and 3 bytes.
abbrev archive : List (ℕ × ℕ)
archive =
    (0, 46)
    ∷ (1, 47)
    ∷ (2, 100)
    ∷ (3, 47)
    ∷ (100, 55)
    ∷ (101, 53)
    ∷ (102, 53)
    ∷ (124, 48)
    ∷ (156, 53)
    ∷ (512, 46)
    ∷ (513, 47)
    ∷ (514, 100)
    ∷ (515, 47)
    ∷ (516, 102)
    ∷ (612, 54)
    ∷ (613, 52)
    ∷ (614, 52)
    ∷ (636, 51)
    ∷ (668, 48)
    ∷ (1024, 97)
    ∷ (1025, 98)
    ∷ (1026, 99)
    ∷ []

abbrev memory : Bytes
memory a = if ltb a 0x1000 then 0 else at archive (a - 0x1000)

abbrev empty : Vnode
empty = record {
  parent = 0;
  next = 0;
  child = 0;
  type = directory;
  permissions = 0;
  name = [];
  size = 0;
  creation_time = 0;
  modification_time = 0;
  uid = 0;
  data' = 0;
}

abbrev before : Ramfs
before = record { data' = 0; size = 0; nodes = λ p. empty; made = 0 }

abbrev supply : ℕ → Fresh
supply i = record { node = 100 + i; copy = 7; created = 1; stamped = 2 }

abbrev after : Ramfs
after = elim (ramfs_init supply 9 20 0x1000 2048 16 5 memory before) [
  | none ↦ before
  | some (s, r) ↦ r
]

init_runs :
    (vfs_lookup 9 9 16 1 (some (47 ∷ 100 ∷ 47 ∷ 102 ∷ [])) after.nodes ≡ some 101)
    × ((after.nodes 101).data' ≡ 0x1400)
    × ((after.nodes 101).size ≡ 3)
    × ((after.nodes 101).permissions ≡ 0x113)
    × ((after.nodes 100).permissions ≡ 0x557)
unfolding ramfs_init ramfs_parse parse_loop parse_entry make_entry make_file make_node walk_name
    string_at strip_dot next_offset permissions_of strtol skip_space is_space strtol_base
    strtol_loop next_digit signed hex_prefix set_node vfs_create vfs_search_node search_from attach
    last_sibling fresh_node skip_slashes cut_token vfs_traverse_path traverse_from
init_runs = (refl, refl, refl, refl, refl)

-- "a" with the mode 644 and 3 bytes, and "bc" with the mode 7 and none.
abbrev two_entries : List (ℕ × ℕ)
two_entries =
    (0, 97)
    ∷ (100, 54)
    ∷ (101, 52)
    ∷ (102, 52)
    ∷ (124, 51)
    ∷ (156, 48)
    ∷ (512, 104)
    ∷ (513, 105)
    ∷ (514, 33)
    ∷ (1024, 98)
    ∷ (1025, 99)
    ∷ (1124, 55)
    ∷ (1148, 48)
    ∷ (1180, 48)
    ∷ []

abbrev two_files : Bytes
two_files a = if ltb a 0x1000 then 0 else at two_entries (a - 0x1000)

abbrev items : List Item
items =
    record { name = 97 ∷ []; mode = 420; size = 3 }
    ∷ record { name = 98 ∷ 99 ∷ []; mode = 7; size = 0 }
    ∷ []

first-IsFile : IsFile 9 two_files 0x1000 (record { name = 97 ∷ []; mode = 420; size = 3 })
unfolding strtol skip_space is_space strtol_base strtol_loop next_digit signed hex_prefix
first-IsFile = record {
  named = (refl, (λ e. omega (arith, e)), refl);
  short = omega arith;
  plain = (((λ e. omega (arith, e)), tt), refl, refl);
  mode_end = 0x1067;
  mode_read = refl;
  size_end = 0x107d;
  size_read = refl;
  regular = λ e. omega (arith, e);
  mode_fits = omega arith;
  size_fits = omega arith;
}

second-IsFile : IsFile 9 two_files 0x1400 (record { name = 98 ∷ 99 ∷ []; mode = 7; size = 0 })
unfolding strtol skip_space is_space strtol_base strtol_loop next_digit signed hex_prefix
second-IsFile = record {
  named = (refl, (λ e. omega (arith, e)), (refl, (λ e. omega (arith, e)), refl));
  short = omega arith;
  plain = (((λ e. omega (arith, e)), ((λ e. omega (arith, e)), tt)), refl, refl);
  mode_end = 0x1465;
  mode_read = refl;
  size_end = 0x147d;
  size_read = refl;
  regular = λ e. omega (arith, e);
  mode_fits = omega arith;
  size_fits = omega arith;
}

files-IsArchive : IsArchive 9 two_files 0x1000 2048 0 items
files-IsArchive = (omega arith, first-IsFile, (omega arith, second-IsFile, inr refl))

supply-IsSupplied : IsSupplied supply 16 [] 0 2
supply-IsSupplied = record {
  fresh = λ k from to. record {
    node_given = omega arith;
    copy_given = omega arith;
    not_parent = omega arith;
    absent = tt;
  };
  apart = λ j k from lt to. omega arith;
}

ramfs_init_example :
    (u : Nodes) × (ramfs_init supply 9 9 0x1000 2048 16 5 two_files before
      ≡ some (done, record { data' = 0x1000; size = 2048; nodes = u; made = 2 }))
    × IsChildren u 16 (100 ∷ 101 ∷ [])
    × AreFiles supply 0 0x1000 0 u items
    × (content (u 16) ≡ (directory, 0x557, [], 2048, 0))
    × ((q : ℕ)
        → 16 ≢ q
        → ((k : ℕ) → 0 ≤ k → k < 2 → (supply k).node ≢ q)
        → content (u q) ≡ content (before.nodes q))
ramfs_init_example =
    ramfs_init_lem supply 9 0x1000 2048 16 5 two_files before 9 items (omega arith) (omega arith)
      (omega arith) (omega arith) (omega arith) (omega arith) files-IsArchive supply-IsSupplied
      ((refl, tt), (tt, tt))

-- "./" with the size 37777777000 in octal.
abbrev endless_entry : List (ℕ × ℕ)
endless_entry =
    (0, 46)
    ∷ (1, 47)
    ∷ (100, 55)
    ∷ (124, 51)
    ∷ (125, 55)
    ∷ (126, 55)
    ∷ (127, 55)
    ∷ (128, 55)
    ∷ (129, 55)
    ∷ (130, 55)
    ∷ (131, 55)
    ∷ (132, 48)
    ∷ (133, 48)
    ∷ (134, 48)
    ∷ (156, 53)
    ∷ []

abbrev endless : Bytes
endless a = if ltb a 0x1000 then 0 else at endless_entry (a - 0x1000)

abbrev mounted : Ramfs
mounted = record { data' = 0x1000; size = 1024; nodes = λ p. empty; made = 0 }

parse_loop-hangs_example : parse_loop supply 100 20 16 0 endless mounted ≡ none
unfolding strtol skip_space is_space strtol_base strtol_loop next_digit signed hex_prefix strip_dot
parse_loop-hangs_example =
    parse_loop-hangs supply 20 16 0 endless mounted (46 ∷ 47 ∷ []) 100 {size = 0xFFFFFE00}
      {size_end = 0x1087} {mode = 7} {mode_end = 0x1065}
      (refl, (λ e. omega (arith, e)), (refl, (λ e. omega (arith, e)), refl)) (omega arith)
      (λ e. omega (arith, e)) (inl refl) refl refl (omega arith) (omega arith) (omega arith)
      (omega arith)

-- Read by all, and written by the owner.
abbrev shared : Nodes
shared p = record empty { permissions = permissions_of 420 }

hvfs_permission_check-mode_example : hvfs_permission_check 16 7 2 shared ≡ not (bit_and 420 2 == 0)
hvfs_permission_check-mode_example =
    hvfs_permission_check-mode 16 7 2 420 shared (inr (inl refl)) (omega arith) (omega arith) refl
