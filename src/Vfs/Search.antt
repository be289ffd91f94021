-- ===== src/Vfs/Search.antt =====
-- Lemmas on vfs_search_node and the children of a node.
use nekonix.Base.{
  ℕ, zero, suc, ◌≡◌, ◌≢◌, ◌<◌, refl, List, [], ◌∷◌, arith, length, some, Bool-cases, inl, inr,
  if◌then◌else◌,
}
use nekonix.Vfs.{Nodes, search_from, vfs_search_node, same_name}
use nekonix.Vfs.Children.{IsChain, IsChildren, zero-test}

-- The first of the nodes with the name, or the null pointer.
abbrev pub first_named : Nodes → List ℕ → List ℕ → ℕ
first_named t name [] = 0
first_named t name (x ∷ xs) = if same_name (t x).name name then x else first_named t name xs

search_from_lem :
    (fuel p : ℕ) (name : List ℕ) (t : Nodes) (xs : List ℕ)
    → length xs < fuel
    → IsChain t p xs
    → search_from fuel name p t ≡ some (first_named t name xs)
unfolding search_from
search_from_lem zero p name t xs h c = absurd (omega (arith, h))
search_from_lem (suc fuel) p name t [] h c = rw c refl
search_from_lem (suc fuel) p name t (x ∷ xs) h (e, xz, c) =
    elim (Bool-cases (same_name (t x).name name)) [
      | inl same ↦ rw (e, zero-test x xz, same) refl
      | inr other ↦
          rw (e, zero-test x xz, other)
            (search_from_lem fuel (t x).next name t xs (omega (arith, h)) c)
    ]

-- vfs_search_node, with fuel for the children, returns the first child of the name, and the null
-- pointer when no child has it.
pub vfs_search_node_lem :
    (fuel parent : ℕ) (name : List ℕ) (t : Nodes) (xs : List ℕ)
    → parent ≢ 0
    → length xs < fuel
    → IsChildren t parent xs
    → vfs_search_node fuel parent (some name) t ≡ some (first_named t name xs)
unfolding vfs_search_node
vfs_search_node_lem fuel parent name t xs pz h c =
    rw (zero-test parent pz) (search_from_lem fuel (t parent).child name t xs h c)
