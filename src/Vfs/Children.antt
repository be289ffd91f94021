-- ===== src/Vfs/Children.antt =====
-- The children of a node as the list that the pointers run through.
use nekonix.Base.{ℕ, ◌≡◌, ◌≢◌, List, [], ◌∷◌, ◌==◌, arith, false}
use nekonix.Vfs.{Nodes, Vnode, set_node}

-- From the pointer `p`, the siblings `xs` and then the null pointer.
abbrev pub IsChain : Nodes → ℕ → List ℕ → Type 0
IsChain t p [] = p ≡ 0
IsChain t p (x ∷ xs) = (p ≡ x) × (x ≢ 0) × IsChain t (t x).next xs

abbrev pub Absent : ℕ → List ℕ → Type 0
Absent p [] = Unit {0}
Absent p (x ∷ xs) = (p ≢ x) × Absent p xs

abbrev pub Distinct : List ℕ → Type 0
Distinct [] = Unit {0}
Distinct (x ∷ xs) = Absent x xs × Distinct xs

abbrev pub IsChildren : Nodes → ℕ → List ℕ → Type 0
IsChildren t parent xs = IsChain t (t parent).child xs

pub set_node_self : (t : Nodes) (p : ℕ) (v : Vnode) → set_node t p v p ≡ v
unfolding set_node
set_node_self t p v = ground arith

pub set_node_ne : (t : Nodes) (p : ℕ) (v : Vnode) {q : ℕ} → p ≢ q → set_node t p v q ≡ t q
unfolding set_node
set_node_ne t p v h = ground (arith, h)

-- A store that agrees on the next siblings has the same chain.
pub IsChain-agree :
    (t u : Nodes) (q p : ℕ) (xs : List ℕ)
    → ((x : ℕ) → q ≢ x → (u x).next ≡ (t x).next)
    → Absent q xs
    → IsChain t p xs
    → IsChain u p xs
IsChain-agree t u q p [] same a c = c
IsChain-agree t u q p (x ∷ xs) same (ne, a) (e, nz, c) =
    (e, nz, rw (same x ne) (IsChain-agree t u q (t x).next xs same a c))

pub zero-test : (a : ℕ) → a ≢ 0 → (a == 0) ≡ false
zero-test a h = ground (arith, h)

pub eq-test : (a b : ℕ) → a ≢ b → (a == b) ≡ false
eq-test a b h = ground (arith, h)
