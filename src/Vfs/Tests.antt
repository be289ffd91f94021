-- ===== src/Vfs/Tests.antt =====
-- A directory with two files, and the theorems at it.
use nekonix.Base.{ℕ, ◌-◌, ◌^◌, ◌≡◌, refl, List, [], ◌∷◌, ◌==◌, if◌then◌else◌, arith, some}
use nekonix.Vfs.{Nodes, Vnode, done, file, vfs_remove}
use nekonix.Vfs.Children.{IsChildren, Distinct}
use nekonix.Vfs.Remove.{vfs_remove-IsChildren}
use nekonix.Strings.{Bytes, memcpy}
use nekonix.Vfs.Content.{vfs_read, vfs_read_overruns}

abbrev vnode : ℕ → ℕ → ℕ → List ℕ → Vnode
vnode parent next child name = record {
  parent = parent;
  next = next;
  child = child;
  type = file;
  permissions = 0x124;
  name = name;
  size = 0;
  creation_time = 0;
  modification_time = 0;
  uid = 0;
  data' = 0;
}

-- "/" at 16, with "a" at 32 and "b" at 48.
abbrev nodes : Nodes
nodes p =
    if p == 16
    then vnode 0 0 32 (47 ∷ [])
    else if p == 32
    then vnode 16 48 0 (97 ∷ [])
    else if p == 48
    then vnode 16 0 0 (98 ∷ [])
    else vnode 0 0 0 []

children : IsChildren nodes 16 (32 ∷ 48 ∷ [])
children = (refl, (λ e. omega (arith, e)), (refl, (λ e. omega (arith, e)), refl))

distinct : Distinct (32 ∷ 48 ∷ [])
distinct = (((λ e. omega (arith, e)), tt), (tt, tt))

vfs_remove-IsChildren_example :
    (u : Nodes) × (vfs_remove 9 16 48 nodes ≡ some (done, u)) × IsChildren u 16 (32 ∷ [])
vfs_remove-IsChildren_example =
    vfs_remove-IsChildren 9 16 48 nodes (32 ∷ []) [] (omega arith) distinct (omega arith) children

-- A file of 4 bytes at 100.
abbrev files : Nodes
files p = record (vnode 16 0 0 (97 ∷ [])) { size = 4; data' = 100 }

abbrev content : Bytes
content a = a

vfs_read_overruns_example :
    vfs_read 32 6 1 200 files content ≡ (2 ^ 32 - 2, memcpy (2 ^ 32 - 2) 200 106 content)
vfs_read_overruns_example =
    vfs_read_overruns 32 6 1 200 files content (omega arith) (omega arith) (omega arith)
      (omega arith)
