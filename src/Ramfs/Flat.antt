-- ===== src/Ramfs/Flat.antt =====
-- An archive of files that stand in one directory.
use nekonix.Base.{
  ℕ, ◌+◌, ◌*◌, ◌/◌, ◌^◌, ◌≤◌, ◌<◌, ◌≡◌, ◌≢◌, ◌⊎◌, sym, ap, refl, false, some, List, [], ◌∷◌, ◌++◌,
  arith, length,
}
use nekonix.Strings.{Bytes}
use nekonix.Text.{strtol}
use nekonix.Text.Content.{Holds}
use nekonix.Vfs.{Nodes, file, same_name}
use nekonix.Vfs.Children.{Absent, Distinct}
use nekonix.Vfs.Search.{first_named}
use nekonix.Ramfs.{Fresh, permissions_of, next_offset}
use nekonix.Ramfs.Names.{IsPlain}
use nekonix.Ramfs.Files.{content, IsFresh}

-- A file as its entry describes it.
pub record Item : Type 0 where
  pub name : List ℕ
  pub mode : ℕ
  pub size : ℕ

-- The entry at `header` is one of a file with a name of one component.
pub record IsFile (fuel : ℕ) (m : Bytes) (header : ℕ) (item : Item) : Type 0 where
  pub named : Holds m header item.name
  pub short : length item.name < fuel
  pub plain : IsPlain item.name
  pub mode_end : ℕ
  pub mode_read : strtol fuel (header + 100) 8 m ≡ some (item.mode, mode_end)
  pub size_end : ℕ
  pub size_read : strtol fuel (header + 124) 8 m ≡ some (item.size, size_end)
  pub regular : m (header + 156) ≢ 53
  pub mode_fits : item.mode < 2 ^ 32
  pub size_fits : item.size + 1024 ≤ 2 ^ 32

-- Where the entry behind a file begins: the content fills whole blocks.
abbrev pub behind : ℕ → ℕ → ℕ
behind offset size = offset + 512 + (size + 511) / 512 * 512

-- The entries of the archive from `offset` on, up to its end or an entry with no name.
abbrev pub IsArchive : ℕ → Bytes → ℕ → ℕ → ℕ → List Item → Type 0
IsArchive fuel m data' size offset [] = (size ≤ offset) ⊎ (m (data' + offset) ≡ 0)
IsArchive fuel m data' size offset (item ∷ items) =
    (offset < size)
    × IsFile fuel m (data' + offset) item
    × IsArchive fuel m data' size (behind offset item.size) items

-- No child has the name.
abbrev pub Unnamed : Nodes → List ℕ → List ℕ → Type 0
Unnamed t name [] = Unit {0}
Unnamed t name (x ∷ xs) = (same_name (t x).name name ≡ false) × Unnamed t name xs

abbrev pub AreUnnamed : Nodes → List ℕ → List Item → Type 0
AreUnnamed t xs [] = Unit {0}
AreUnnamed t xs (item ∷ items) = Unnamed t item.name xs × AreUnnamed t xs items

abbrev pub IsNewName : Item → List Item → Type 0
IsNewName item [] = Unit {0}
IsNewName item (other ∷ items) = (same_name item.name other.name ≡ false) × IsNewName item items

abbrev pub HaveOwnNames : List Item → Type 0
HaveOwnNames [] = Unit {0}
HaveOwnNames (item ∷ items) = IsNewName item items × HaveOwnNames items

-- The heap gives `n` nodes that are apart from one another and from those there.
pub record IsSupplied (supply : ℕ → Fresh) (parent : ℕ) (xs : List ℕ) (first n : ℕ) : Type 0 where
  pub fresh : (k : ℕ) → first ≤ k → k < first + n → IsFresh (supply k) parent xs
  pub apart : (j k : ℕ) → first ≤ j → j < k → k < first + n → (supply j).node ≢ (supply k).node

abbrev pub new_nodes : (ℕ → Fresh) → ℕ → List Item → List ℕ
new_nodes supply made [] = []
new_nodes supply made (item ∷ items) = (supply made).node ∷ new_nodes supply (made + 1) items

-- Each new node is the file of its entry, and its data the bytes behind the entry.
abbrev pub AreFiles : (ℕ → Fresh) → ℕ → ℕ → ℕ → Nodes → List Item → Type 0
AreFiles supply made data' offset t [] = Unit {0}
AreFiles supply made data' offset t (item ∷ items) =
    (content (t (supply made).node)
      ≡ (file, permissions_of item.mode, item.name, item.size, data' + offset + 512))
    × AreFiles supply (made + 1) data' (behind offset item.size) t items

pub first_named-none :
    (t : Nodes) (name xs : List ℕ) → Unnamed t name xs → first_named t name xs ≡ 0
first_named-none t name [] new = refl
first_named-none t name (x ∷ xs) (other, new) = rw other (first_named-none t name xs new)

pub Absent-append : (p q : ℕ) (xs : List ℕ) → Absent p xs → p ≢ q → Absent p (xs ++ (q ∷ []))
Absent-append p q [] absent ne = (ne, tt)
Absent-append p q (x ∷ xs) (other, absent) ne = (other, Absent-append p q xs absent ne)

pub Distinct-append : (p : ℕ) (xs : List ℕ) → Absent p xs → Distinct xs → Distinct (xs ++ (p ∷ []))
Distinct-append p [] absent distinct = (tt, tt)
Distinct-append p (x ∷ xs) (other, absent) (apart, distinct) =
    (Absent-append x p xs apart (λ e. other (sym e)), Distinct-append p xs absent distinct)

pub append-next : (p : ℕ) (xs ys : List ℕ) → (xs ++ (p ∷ [])) ++ ys ≡ xs ++ (p ∷ ys)
append-next p [] ys = refl
append-next p (x ∷ xs) ys = ap (λ zs. x ∷ zs) (append-next p xs ys)

pub length-append_one : (p : ℕ) (xs : List ℕ) → length (xs ++ (p ∷ [])) ≡ length xs + 1
length-append_one p [] = refl
length-append_one p (x ∷ xs) = omega (arith, length-append_one p xs)

pub next_offset-behind :
    (size offset : ℕ)
    → size + 1024 ≤ 2 ^ 32
    → offset < 2 ^ 63
    → next_offset size offset ≡ behind offset size
unfolding next_offset
next_offset-behind size offset fits low = omega arith
