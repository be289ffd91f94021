-- ===== src/Ramfs/Init.antt =====
-- The archive that the kernel starts with.
use nekonix.Base.{
  ℕ, ◌+◌, ◌^◌, ◌≤◌, ◌<◌, ◌≡◌, ◌≢◌, ◌∙◌, ap, some, List, [], ◌∷◌, arith, length, ne→==,
}
use nekonix.Strings.{Bytes}
use nekonix.Vfs.{Nodes, Vnode, directory, done, set_node}
use nekonix.Vfs.Children.{IsChildren, set_node_self, set_node_ne}
use nekonix.Ramfs.{Ramfs, Fresh, parse_loop, ramfs_parse, ramfs_init}
use nekonix.Ramfs.Files.{content}
use nekonix.Ramfs.Flat.{Item, IsArchive, AreUnnamed, HaveOwnNames, IsSupplied, new_nodes, AreFiles}
use nekonix.Ramfs.Parse.{parse_loop_lem}

AreUnnamed-nil : (t : Nodes) (items : List Item) → AreUnnamed t [] items
AreUnnamed-nil t [] = tt
AreUnnamed-nil t (item ∷ items) = (tt, AreUnnamed-nil t items)

module _ (supply : ℕ → Fresh) (fuel data' size root now : ℕ) (m : Bytes) (r : Ramfs) where
  abbrev emptied : Vnode
  emptied = record (r.nodes root) {
    type = directory;
    size = size;
    permissions = 0x557;
    child = 0;
    next = 0;
    creation_time = now;
  }

  abbrev mounted : Ramfs
  mounted = record {
    data' = data';
    size = size;
    nodes = set_node r.nodes root emptied;
    made = r.made;
  }

  init-parse :
      (rounds : ℕ)
      → data' ≢ 0
      → size ≢ 0
      → root ≢ 0
      → ramfs_init supply rounds fuel data' size root now m r
        ≡ parse_loop supply rounds fuel root 0 m mounted
  unfolding ramfs_init ramfs_parse
  init-parse rounds dz sz rz = rw (ne→== _ _ dz, ne→== _ _ sz, ne→== _ _ rz)

  -- An archive of files in one directory, with names of their own and sizes that leave room on 32 bits,
  -- is read to its end, with memory for the nodes and fuel for the entries and their fields. The
  -- answer is 0; the children of the root are the files, in order, each with the name, the
  -- permissions of the mode, the size, and the bytes behind its entry as its data. The root is an
  -- empty directory before that, and no other node changes but in its pointers and times.
  pub ramfs_init_lem :
      (rounds : ℕ) (items : List Item)
      → data' ≢ 0
      → size ≢ 0
      → root ≢ 0
      → size < 2 ^ 63
      → length items < rounds
      → length items < fuel
      → IsArchive fuel m data' size 0 items
      → IsSupplied supply root [] r.made (length items)
      → HaveOwnNames items
      → (u : Nodes) × (ramfs_init supply rounds fuel data' size root now m r
          ≡ some (
            done,
            record { data' = data'; size = size; nodes = u; made = r.made + length items },
          ))
        × IsChildren u root (new_nodes supply r.made items)
        × AreFiles supply r.made data' 0 u items
        × (content (u root) ≡ (directory, 0x557, (r.nodes root).name, size, (r.nodes root).data'))
        × ((q : ℕ)
            → root ≢ q
            → ((k : ℕ) → r.made ≤ k → k < r.made + length items → (supply k).node ≢ q)
            → content (u q) ≡ content (r.nodes q))
  ramfs_init_lem rounds items dz sz rz low enough room archive supplied own =
      let child : (set_node r.nodes root emptied root).child ≡ 0 =
        ap (λ (v : Vnode). v.child) (set_node_self r.nodes root emptied) in
      let (u, parsed, chain, files, others) =
        parse_loop_lem supply fuel root m rz items rounds 0 [] mounted enough (omega arith) low
          archive supplied own (AreUnnamed-nil mounted.nodes items) tt child in
      (
        u,
        init-parse rounds dz sz rz ∙ parsed,
        chain,
        files,
        others root (λ k from to. (supplied.fresh k from to).not_parent)
            ∙ ap content (set_node_self r.nodes root emptied),
        λ q ne apart. others q apart ∙ ap content (set_node_ne r.nodes root emptied ne),
      )
