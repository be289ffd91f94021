-- ===== src/Ramfs/Parse.antt =====
-- The loop over an archive of files that stand in one directory.
use nekonix.Base.{
  ℕ, zero, suc, ◌+◌, ◌^◌, ◌≤◌, ◌<◌, ◌≡◌, ◌≢◌, ◌∙◌, inl, inr, sym, ap, refl, false, Option, some,
  List, [], ◌∷◌, ◌++◌, arith, length, ltb, lt→ltb, le→ltb, ne→==, Bool-cases, u32,
}
use nekonix.Strings.{Bytes}
use mathlib.Core.List.{append-nil}
use nekonix.Text.Content.{Holds}
use nekonix.Vfs.{Status, Nodes, done, same_name}
use nekonix.Vfs.Children.{IsChildren, Distinct}
use nekonix.Ramfs.{Ramfs, Fresh, permissions_of, parse_entry, parse_loop}
use nekonix.Ramfs.Files.{content, IsMade}
use nekonix.Ramfs.Flat.{
  Item, IsFile, behind, IsArchive, AreUnnamed, HaveOwnNames, IsSupplied, new_nodes, AreFiles,
  Distinct-append, append-next, length-append_one,
}
use nekonix.Ramfs.Entry.{entry_lem, AreUnnamed-made, IsSupplied-next}

name-given :
    (m : Bytes) (header : ℕ) (name : List ℕ)
    → Holds m header name
    → same_name name [] ≡ false
    → m header ≢ 0
name-given m header [] holds named = cc
name-given m header (c ∷ cs) (here, nz, rest) named = λ e. nz (sym here ∙ e)

-- What the loop gives.
abbrev pub ArchiveParsed :
    (ℕ → Fresh) → ℕ → List ℕ → ℕ → Ramfs → List Item → Option (Status × Ramfs) → Type 0
ArchiveParsed supply parent xs offset r items result =
    (u : Nodes) × (result ≡ some (done, record r { nodes = u; made = r.made + length items }))
    × IsChildren u parent (xs ++ new_nodes supply r.made items)
    × AreFiles supply r.made r.data' offset u items
    × ((q : ℕ)
        → ((k : ℕ) → r.made ≤ k → k < r.made + length items → (supply k).node ≢ q)
        → content (u q) ≡ content (r.nodes q))

module _ (supply : ℕ → Fresh) (fuel parent : ℕ) (m : Bytes) (given : parent ≢ 0) where
  parse_loop-round :
      (rounds offset : ℕ) (r r' : Ramfs) (item : Item)
      → IsFile fuel m (r.data' + offset) item
      → offset < r.size
      → m (r.data' + offset) ≢ 0
      → parse_entry supply fuel parent offset item.size m r
        ≡ some (done, behind offset item.size, r')
      → parse_loop supply (suc rounds) fuel parent offset m r
        ≡ parse_loop supply rounds fuel parent (behind offset item.size) m r'
  unfolding parse_loop
  parse_loop-round rounds offset r r' item is_file more named made =
      let size : u32 item.size ≡ item.size = omega (arith, is_file) in
      rw (lt→ltb _ _ more, ne→== _ _ named, is_file.size_read, size, made)

  -- The end of the archive.
  parsed_none :
      (offset : ℕ) (xs : List ℕ) (r : Ramfs) (result : Option (Status × Ramfs))
      → result ≡ some (done, r)
      → IsChildren r.nodes parent xs
      → ArchiveParsed supply parent xs offset r [] result
  parsed_none offset xs r result end chain = (
    r.nodes,
    end ∙ ap (λ k. some (done, record r { made = k })) (omega arith),
    rw (append-nil xs) chain,
    tt,
    λ q apart. refl,
  )

  -- One entry, and then the rest.
  parsed_next :
      (offset : ℕ) (xs : List ℕ) (r : Ramfs) (u : Nodes) (item : Item) (items : List Item)
      (result : Option (Status × Ramfs))
      → IsSupplied supply parent xs r.made (suc (length items))
      → IsMade r.nodes u parent
          (supply r.made).node
          (permissions_of item.mode)
          (r.data' + offset + 512)
          item.size
          item.name
          xs
      → ArchiveParsed supply parent
          (xs ++ ((supply r.made).node ∷ []))
          (behind offset item.size)
          (record r { nodes = u; made = r.made + 1 })
          items
          result
      → ArchiveParsed supply parent xs offset r (item ∷ items) result
  parsed_next offset xs r u item items result supplied made (u', end, chain, files, others) = (
    u',
    end ∙ ap (λ k. some (done, record r { nodes = u'; made = k })) (omega arith),
    rw (← append-next (supply r.made).node xs (new_nodes supply (r.made + 1) items)) chain,
    (
      others (supply r.made).node (λ k from to e.
            supplied.apart r.made k (omega arith) (omega arith) (omega arith) (sym e))
          ∙ made.made,
      files,
    ),
    λ q apart.
        others q (λ k from to. apart k (omega arith) (omega arith))
        ∙ made.others q (apart r.made (omega arith) (omega arith)),
  )

  pub parse_loop_lem :
      (items : List Item) (rounds offset : ℕ) (xs : List ℕ) (r : Ramfs)
      → length items < rounds
      → length xs + length items < fuel
      → r.size < 2 ^ 63
      → IsArchive fuel m r.data' r.size offset items
      → IsSupplied supply parent xs r.made (length items)
      → HaveOwnNames items
      → AreUnnamed r.nodes xs items
      → Distinct xs
      → IsChildren r.nodes parent xs
      → ArchiveParsed supply parent xs offset r items
          (parse_loop supply rounds fuel parent offset m r)
  unfolding parse_loop
  parse_loop_lem items zero offset xs r enough _ _ _ _ _ _ _ _ = absurd (omega arith)
  parse_loop_lem [] (suc rounds) offset xs r _ _ low (inl past) supplied own unnamed distinct
        chain =
      parsed_none offset xs r _ (rw (le→ltb _ _ past)) chain
  parse_loop_lem [] (suc rounds) offset xs r _ _ low (inr end) supplied own unnamed distinct chain =
      parsed_none offset xs r _
        (elim (Bool-cases (ltb offset r.size)) [ inl more ↦ rw (more, end) | inr past ↦ rw past ])
        chain
  parse_loop_lem (item ∷ items) (suc rounds) offset xs r enough room low (more, is_file, rest)
        supplied (new, own) (first, unnamed) distinct chain =
      let node = (supply r.made).node in
      let fresh = supplied.fresh r.made (omega arith) (omega arith) in
      let (u, made, is_made) =
        entry_lem supply fuel parent m given offset xs r item is_file (omega arith) fresh distinct
          (omega arith) chain first in
      let r' : Ramfs = record r { nodes = u; made = r.made + 1 } in
      let tail =
        parse_loop_lem items rounds (behind offset item.size) (xs ++ (node ∷ [])) r' (omega arith)
          (omega (arith, length-append_one node xs)) low rest
          (IsSupplied-next r.made (length items) supplied) own
          (AreUnnamed-made item is_made fresh.absent items new unnamed)
          (Distinct-append node xs fresh.absent distinct) is_made.children in
      parsed_next offset xs r u item items _ supplied is_made (
        rw
          (parse_loop-round rounds offset r r' item is_file more
            (name-given m (r.data' + offset) item.name is_file.named is_file.plain.1) made)
          tail)
