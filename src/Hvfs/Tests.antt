-- ===== src/Hvfs/Tests.antt =====
-- An open file of 4 bytes.
use nekonix.Base.{ℕ, List, false, ◌==◌, if◌then◌else◌, ◌≡◌, refl, [], ◌∷◌, arith, some, inr}
use nekonix.Strings.{Bytes}
use nekonix.Strings.Copy.{IsCopied}
use nekonix.Vfs.{Nodes, file, same_name, vfs_search_node, search_from}
use nekonix.Vfs.Lookup.{components, descend}
use nekonix.Hvfs.{File, count, open', read, write, hvfs_permission_check}
use nekonix.Hvfs.Transfer.{IsOpen, write_fails_quietly}
use nekonix.Hvfs.Open.{descriptor, open-read-IsCopied}

abbrev nodes : Nodes
nodes p = record {
  parent = 16;
  next = 0;
  child = 0;
  type = file;
  permissions = 0x003;
  name = 97 ∷ [];
  size = 4;
  creation_time = 0;
  modification_time = 0;
  uid = 0;
  data' = 100;
}

abbrev content : Bytes
content a = a

abbrev opened : File
opened = record { uid = 0; vnode = 32; mode = 2 }

opened-IsOpen : IsOpen opened nodes
unfolding hvfs_permission_check
opened-IsOpen = record {
  both = refl;
  found = omega arith;
  is_file = refl;
  may_read = refl;
  may_write = refl;
}

-- The file "a" below a root at 16.
abbrev tree : Nodes
tree p = if p == 16 then record (nodes 16) { child = 32 } else nodes p

tree-IsOpen : IsOpen (descriptor 32) tree
unfolding hvfs_permission_check
tree-IsOpen = record {
  both = refl;
  found = omega arith;
  is_file = refl;
  may_read = refl;
  may_write = refl;
}

abbrev path : List ℕ
path = 47 ∷ 97 ∷ []

path_leads : descend 9 16 (components path) tree ≡ some 32
unfolding descend components vfs_search_node search_from
path_leads = refl

path_other : same_name path (47 ∷ []) ≡ false
path_other = refl

open-read-IsCopied_example :
    (f : File) × (m' : Bytes) × (open' 9 9 16 8 24 (some path) 2 tree ≡ some (some f))
    × (read (some f) 200 9 tree content ≡ some (count 4, m'))
    × IsCopied 4 200 100 content m'
open-read-IsCopied_example =
    open-read-IsCopied 9 9 16 8 24 path tree 32 200 9 content (omega arith) (omega arith)
      (omega arith) path_other (omega arith) path_leads tree-IsOpen (omega arith)
      (inr (omega arith))

write_fails_quietly_example :
    write (some opened) 200 9 0 nodes content ≡ some (count 1, nodes, content)
write_fails_quietly_example =
    write_fails_quietly opened 200 9 nodes content opened-IsOpen (omega arith) (omega arith)
      (omega arith)
