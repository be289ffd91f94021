-- ===== src/Ramfs/Entry.antt =====
-- One entry of an archive, and what it leaves to the entries behind it.
use nekonix.Base.{
  ℕ, suc, ◌+◌, ◌^◌, ◌<◌, ◌≡◌, ◌≢◌, ◌∙◌, sym, ap, refl, false, some, List, [], ◌∷◌, ◌++◌, arith,
  length, ne→==, u32,
}
use nekonix.Strings.{Bytes}
use nekonix.Vfs.{NodeType, Nodes, done, same_name}
use nekonix.Vfs.Children.{IsChildren, Absent, Distinct}
use nekonix.Vfs.Search.{vfs_search_node_lem}
use nekonix.Ramfs.{Ramfs, Fresh, permissions_of, make_entry, parse_entry}
use nekonix.Ramfs.Names.{string_at_lem, strip_dot-plain, walk_name-plain}
use nekonix.Ramfs.Files.{IsFresh, IsMade, make_file_lem}
use nekonix.Ramfs.Flat.{
  Item, IsFile, behind, Unnamed, AreUnnamed, IsNewName, IsSupplied, first_named-none, Absent-append,
  next_offset-behind,
}

module _ (supply : ℕ → Fresh) (fuel parent : ℕ) (m : Bytes) (given : parent ≢ 0) where
  -- One entry.
  pub entry_lem :
      (offset : ℕ) (xs : List ℕ) (r : Ramfs) (item : Item)
      → IsFile fuel m (r.data' + offset) item
      → offset < 2 ^ 63
      → IsFresh (supply r.made) parent xs
      → Distinct xs
      → length xs < fuel
      → IsChildren r.nodes parent xs
      → Unnamed r.nodes item.name xs
      → (u : Nodes) × (parse_entry supply fuel parent offset item.size m r
          ≡ some (done, behind offset item.size, record r { nodes = u; made = r.made + 1 }))
        × IsMade r.nodes u parent
            (supply r.made).node
            (permissions_of item.mode)
            (r.data' + offset + 512)
            item.size
            item.name
            xs
  unfolding parse_entry make_entry
  entry_lem offset xs r item is_file low fresh distinct enough chain unnamed =
      let perms = permissions_of item.mode in
      let (u, made, is_made) =
        make_file_lem supply fuel perms (r.data' + offset + 512) item.size parent item.name xs r
          given fresh distinct enough chain in
      let absent =
        vfs_search_node_lem fuel parent item.name r.nodes xs given enough chain
        ∙ ap some (first_named-none r.nodes item.name xs unnamed) in
      let walked =
        walk_name-plain supply fuel fuel perms parent item.name r (omega arith) is_file.plain
          absent in
      let mode : u32 item.mode ≡ item.mode = omega (arith, is_file) in
      (
        u,
        rw
            (
              parse_entry,
              is_file.mode_read,
              string_at_lem fuel (r.data' + offset) item.name m is_file.named is_file.short,
              strip_dot-plain item.name is_file.plain.0,
              is_file.plain.1,
              is_file.plain.2,
              ne→== _ _ is_file.regular,
              make_entry,
              mode,
              walked,
              mode,
              made,
              next_offset-behind item.size offset is_file.size_fits low,
            )
            refl,
        is_made,
      )

-- What the steps on the nodes leave of the hypotheses for the entries that follow.
Unnamed-made :
    {t u : Nodes} {parent node perms content_at size : ℕ} {name xs : List ℕ} (other : List ℕ)
    → IsMade t u parent node perms content_at size name xs
    → same_name name other ≡ false
    → (ys : List ℕ) → Absent node ys
    → Unnamed t other ys
    → Unnamed u other (ys ++ (node ∷ []))
Unnamed-made {name} other made new [] absent unnamed =
    (rw (ap (λ (v : NodeType × ℕ × List ℕ × ℕ × ℕ). v.2) made.made) new, tt)
Unnamed-made other made new (y ∷ ys) (ne, absent) (named, unnamed) = (
  rw (ap (λ (v : NodeType × ℕ × List ℕ × ℕ × ℕ). v.2) (made.others y ne)) named,
  Unnamed-made other made new ys absent unnamed,
)

pub AreUnnamed-made :
    {t u : Nodes} {parent node perms content_at size : ℕ} {xs : List ℕ} (item : Item)
    → IsMade t u parent node perms content_at size item.name xs
    → Absent node xs
    → (items : List Item) → IsNewName item items
    → AreUnnamed t xs items
    → AreUnnamed u (xs ++ (node ∷ [])) items
AreUnnamed-made item made absent [] new unnamed = tt
AreUnnamed-made {xs} item made absent (other ∷ items) (ne, new) (first, rest) = (
  Unnamed-made other.name made ne xs absent first,
  AreUnnamed-made item made absent items new rest,
)

pub IsSupplied-next :
    {supply : ℕ → Fresh} {parent : ℕ} {xs : List ℕ} (first n : ℕ)
    → IsSupplied supply parent xs first (suc n)
    → IsSupplied supply parent (xs ++ ((supply first).node ∷ [])) (first + 1) n
IsSupplied-next {supply} {xs} first n supplied = record {
  fresh = λ k from to.
      let old = supplied.fresh k (omega arith) (omega arith) in
      record {
        node_given = old.node_given;
        copy_given = old.copy_given;
        not_parent = old.not_parent;
        absent =
            Absent-append (supply k).node (supply first).node xs old.absent
              λ e. supplied.apart first k (omega arith) (omega arith) (omega arith) (sym e);
      };
  apart = λ j k from lt to. supplied.apart j k (omega arith) lt (omega arith);
}
