-- ===== src/Ramfs/Names.antt =====
-- Names of an archive that have one component.
use nekonix.Base.{
  ℕ, zero, suc, ◌+◌, ◌≡◌, ◌≢◌, ◌<◌, ap, refl, false, some, List, [], ◌∷◌, arith, length, ne→==,
}
use nekonix.Strings.{Bytes}
use nekonix.Text.Content.{Holds}
use nekonix.Vfs.{same_name, vfs_search_node}
use nekonix.Vfs.Paths.{slash, skip_slashes, cut_token}
use nekonix.Ramfs.{Ramfs, Fresh, missing, string_at, strip_dot, walk_name}

pub string_at_lem :
    (fuel p : ℕ) (cs : List ℕ) (m : Bytes)
    → Holds m p cs
    → length cs < fuel
    → string_at fuel p m ≡ some cs
unfolding string_at
string_at_lem zero p cs m holds enough = absurd (omega arith)
string_at_lem (suc fuel) p [] m holds enough = rw holds refl
string_at_lem (suc fuel) p (c ∷ cs) m (here, nz, rest) enough =
    rw (here, ne→== c 0 nz, string_at_lem fuel (p + 1) cs m rest (omega arith))
      (ap (λ x. some (x ∷ cs)) here)

abbrev pub NoSlash : List ℕ → Type 0
NoSlash [] = Unit {0}
NoSlash (c ∷ cs) = (c ≢ slash) × NoSlash cs

-- One component, and not the directory itself.
abbrev pub IsPlain : List ℕ → Type 0
IsPlain name = NoSlash name × (same_name name [] ≡ false) × (same_name name (46 ∷ []) ≡ false)

pub strip_dot-plain : (name : List ℕ) → NoSlash name → strip_dot name ≡ name
unfolding strip_dot
strip_dot-plain [] plain = refl
strip_dot-plain (c ∷ []) plain = refl
strip_dot-plain (c ∷ d ∷ cs) (nc, (nd, plain)) = ground (arith, nd)

cut_token-plain : (name : List ℕ) → NoSlash name → cut_token name ≡ (name, [])
unfolding cut_token
cut_token-plain [] plain = refl
cut_token-plain (c ∷ cs) (nc, plain) = rw (ne→== c slash nc, cut_token-plain cs plain) refl

skip_slashes-plain : (c : ℕ) (cs : List ℕ) → NoSlash (c ∷ cs) → skip_slashes (c ∷ cs) ≡ c ∷ cs
unfolding skip_slashes
skip_slashes-plain c cs (nc, plain) = rw (ne→== c slash nc) refl

-- A name that is not among the children of the directory.
pub walk_name-plain :
    (supply : ℕ → Fresh) (rounds fuel : ℕ) (perms parent : ℕ) (name : List ℕ) (r : Ramfs)
    → 0 < rounds
    → IsPlain name
    → vfs_search_node fuel parent (some name) r.nodes ≡ some 0
    → walk_name supply rounds fuel false perms parent name r ≡ some (missing parent name, r)
unfolding walk_name
walk_name-plain supply zero fuel perms parent name r some_left plain absent = absurd (omega arith)
walk_name-plain supply (suc rounds) fuel perms parent [] r _ (plain, named, other) absent = cc
walk_name-plain supply (suc rounds) fuel perms parent (c ∷ cs) r _ (plain, named, other) absent =
    rw (walk_name, skip_slashes-plain c cs plain, cut_token-plain (c ∷ cs) plain, absent)
      (ap (λ (x : List ℕ × List ℕ). some (missing parent x.0, r)) (cut_token-plain (c ∷ cs) plain))
