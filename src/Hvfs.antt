-- ===== src/Hvfs.antt =====
-- Open files, kernel/src/dev/hvfs.c: the permission check, open, read, write, chmod,
-- chown and close of a descriptor. `fd` is what kmalloc gives for a descriptor. `none` is
-- the use of a null pointer.
pub mod Transfer
pub mod Open
mod Tests
use nekonix.Base.{
  ℕ, zero, suc, List, ◌+◌, ◌*◌, ◌^◌, ◌≡◌, Bool, true, false, not, ◌&&◌, ◌||◌, Option, none, some,
  ltb, leb, ◌==◌, if◌then◌else◌, bit_and, u32, min,
}
use nekonix.Strings.{Bytes, memcpy}
use nekonix.Vfs.{Nodes, NodeType, directory, file, Status, done, failed, vfs_chmod, vfs_chown}
use nekonix.Vfs.Paths.{vfs_lookup}
use nekonix.Vfs.Content.{vfs_write}

-- `FILE`
pub record File : Type 0 where
  pub uid : ℕ
  pub vnode : ℕ
  pub mode : ℕ

-- `refused` is the answer -1, and `count n` the answer whose 32 bits are n.
pub data Answer : Type 0 where
  refused : Answer
  count : ℕ → Answer

-- `node->permissions & perms`
abbrev pub allows : ℕ → ℕ → Bool
allows permissions perms = not (bit_and permissions perms == 0)

unfoldable pub hvfs_permission_check : ℕ → ℕ → ℕ → Nodes → Bool
hvfs_permission_check node uid required t =
    let permissions = (t node).permissions in
    if node == 0
    then false
    else if (t node).uid == uid
    then allows permissions required
      || allows permissions (required * 2 ^ 4)
      || allows permissions (required * 2 ^ 8)
    else allows permissions (required * 2 ^ 8)

abbrev pub is_file : NodeType → Bool
is_file directory = false
is_file file = true

unfoldable pub read : Option File → ℕ → ℕ → Nodes → Bytes → Option (Answer × Bytes)
read none buffer size t m = some (refused, m)
read (some f) buffer size t m =
    let node = t f.vnode in
    let bytes_read = if ltb node.size size then node.size else size in
    if not (f.mode == 0) && not (f.mode == 2)
    then some (refused, m)
    else if f.vnode == 0
    then none
    else if not (is_file node.type)
    then some (refused, m)
    else if not (hvfs_permission_check f.vnode f.uid 1 t)
    then some (refused, m)
    else some (count (u32 bytes_read), memcpy bytes_read buffer node.data' m)

-- `new_data` is what krealloc gives. An answer of vfs_write from 2 ^ 31 on is negative as an int.
unfoldable pub write : Option File → ℕ → ℕ → ℕ → Nodes → Bytes → Option (Answer × Nodes × Bytes)
write none buffer size new_data t m = some (refused, t, m)
write (some f) buffer size new_data t m =
    let (result, u, m') = vfs_write f.vnode 0 (u32 size) buffer new_data t m in
    if not (f.mode == 1) && not (f.mode == 2)
    then some (refused, t, m)
    else if f.vnode == 0
    then none
    else if not (is_file (t f.vnode).type)
    then some (refused, t, m)
    else if not (hvfs_permission_check f.vnode f.uid 2 t)
    then some (refused, t, m)
    else if leb (2 ^ 31) result
    then some (refused, u, m')
    else some (count result, u, m')

abbrev pub create : ℕ
create = 4

-- Whether there is a root, as hvfs_init answers.
unfoldable pub hvfs_init : ℕ → Status
hvfs_init root = if root == 0 then failed else done

-- The descriptor, or none for the null pointer.
unfoldable pub open' : ℕ → ℕ → ℕ → ℕ → ℕ → Option (List ℕ) → ℕ → Nodes → Option (Option File)
open' rounds fuel root copy fd path mode t =
    if fd == 0
    then some none
    else if not (bit_and mode create == 0)
    then some none
    else elim (vfs_lookup rounds fuel root copy path t) [
      | none ↦ none
      | some zero ↦ some none
      | some (suc v) ↦ some (some (record { uid = 0; vnode = suc v; mode = mode }))
    ]

abbrev answer : Status → Answer
answer done = count 0
answer failed = refused

unfoldable pub chmod : Option File → ℕ → Nodes → Answer × Nodes
chmod none permissions t = (refused, t)
chmod (some f) permissions t =
    let (result, u) = vfs_chmod f.vnode permissions t in
    if f.vnode == 0 then (refused, t) else (answer result, u)

unfoldable pub chown : Option File → ℕ → Nodes → Answer × Nodes
chown none uid t = (refused, t)
chown (some f) uid t =
    let (result, u) = vfs_chown f.vnode uid t in
    if f.vnode == 0 then (refused, t) else (answer result, u)

-- The descriptor goes back to the heap.
unfoldable pub close : Option File → Answer
close none = refused
close (some f) = count 0
