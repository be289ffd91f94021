-- ===== src/Vfs/Lookup.antt =====
-- A lookup descends along the components of its path.
use nekonix.Base.{
  ℕ, zero, suc, ◌<◌, ◌≤◌, ◌≡◌, ◌≢◌, ◌∙◌, refl, sym, ap, ap₂, ◌⊎◌, true, false, Option, none, some,
  List, [], ◌∷◌, ◌++◌, ◌==◌, if◌then◌else◌, length, arith, Bool-cases, inl, inr, ne→==,
}
use nekonix.Vfs.{Nodes, same_name, vfs_search_node}
use nekonix.Vfs.Paths.{
  slash, skip_slashes, cut_token, traverse_from, vfs_traverse_path, vfs_lookup, before_last_slash,
  vfs_lookup_parent,
}

-- The pieces of a path that are not empty, apart from the first one.
keep : List ℕ → List (List ℕ) → List (List ℕ)
keep [] words = words
keep (c ∷ w) words = (c ∷ w) ∷ words

pieces : List ℕ → List ℕ × List (List ℕ)
unfolding keep
pieces [] = ([], [])
pieces (c ∷ cs) =
    if c == slash
    then ([], keep (pieces cs).0 (pieces cs).1)
    else (c ∷ (pieces cs).0, (pieces cs).1)

unfoldable pub components : List ℕ → List (List ℕ)
unfolding pieces keep
components path = keep (pieces path).0 (pieces path).1

-- From a node to its child of the first name, and so on. The null pointer has no child.
unfoldable pub descend : ℕ → ℕ → List (List ℕ) → Nodes → Option ℕ
descend fuel node [] t = some node
descend fuel node (name ∷ names) t = elim (vfs_search_node fuel node (some name) t) [
  | none ↦ none
  | some zero ↦ some 0
  | some (suc child) ↦ descend fuel (suc child) names t
]

abbrev pub HasNoSlash : List ℕ → Type 0
HasNoSlash [] = Unit {0}
HasNoSlash (c ∷ cs) = (c ≢ slash) × HasNoSlash cs

cut_token-pieces :
    (path : List ℕ)
    → ((cut_token path).0 ≡ (pieces path).0) × (components (cut_token path).1 ≡ (pieces path).1)
unfolding cut_token pieces components keep
cut_token-pieces [] = (refl, refl)
cut_token-pieces (c ∷ cs) =
    let (token, rest) = cut_token-pieces cs in
    elim (Bool-cases (c == slash)) [
      | inl e ↦ rw e (refl, refl)
      | inr e ↦ rw e (ap (λ w. c ∷ w) token, rest)
    ]

length-cut_token : (path : List ℕ) → length (cut_token path).1 ≤ length path
unfolding cut_token
length-cut_token [] = omega arith
length-cut_token (c ∷ cs) =
    let shorter = length-cut_token cs in
    elim (Bool-cases (c == slash)) [ inl e ↦ rw e (omega arith) | inr e ↦ rw e (omega arith) ]

-- What is left behind the slashes is no longer, has the same components, and begins with another byte.
skip_slashes-slash :
    (cs : List ℕ) (c : ℕ) → (c == slash) ≡ true → skip_slashes (c ∷ cs) ≡ skip_slashes cs
unfolding skip_slashes
skip_slashes-slash cs c e = rw e refl

skip_slashes-stop : (cs : List ℕ) (c : ℕ) → (c == slash) ≡ false → skip_slashes (c ∷ cs) ≡ c ∷ cs
unfolding skip_slashes
skip_slashes-stop cs c e = rw e refl

-- The two ways a path may go on behind its slashes.
skip_slashes-cases :
    (path : List ℕ)
    → ((skip_slashes path ≡ []) × (components path ≡ []))
      ⊎ ((c : ℕ) × (cs : List ℕ) × (skip_slashes path ≡ c ∷ cs)
          × ((c == slash) ≡ false)
          × (components path ≡ components (c ∷ cs))
          × (length (c ∷ cs) ≤ length path))
unfolding skip_slashes components pieces keep
skip_slashes-cases [] = inl (refl, refl)
skip_slashes-cases (c ∷ cs) = elim (Bool-cases (c == slash)) [
  | inr e ↦ inr (c, cs, skip_slashes-stop cs c e, e, refl, omega arith)
  | inl e ↦ elim (skip_slashes-cases cs) [
    | inl (gone, same) ↦ inl (skip_slashes-slash cs c e ∙ gone, rw e same)
    | inr (d, ds, left, other, same, shorter) ↦
        inr (d, ds, skip_slashes-slash cs c e ∙ left, other, rw e same, omega arith)
  ]
]

components-cut_token :
    (c : ℕ) (cs : List ℕ)
    → (c == slash) ≡ false
    → components (c ∷ cs) ≡ (cut_token (c ∷ cs)).0 ∷ components (cut_token (c ∷ cs)).1
unfolding components pieces keep cut_token
components-cut_token c cs e =
    let (token, rest) = cut_token-pieces cs in
    rw e (ap₂ (λ w ws. (c ∷ w) ∷ ws) (sym token) (sym rest))

cut_token-shorter :
    (c : ℕ) (cs : List ℕ) → (c == slash) ≡ false → length (cut_token (c ∷ cs)).1 ≤ length cs
unfolding cut_token
cut_token-shorter c cs e = rw e (length-cut_token cs)

-- Both sides of the step below go on from the child that was found.
on_child : Option ℕ → (ℕ → Option ℕ) → Option ℕ
on_child none f = none
on_child (some zero) f = some 0
on_child (some (suc child)) f = f (suc child)

on_child-same :
    (o : Option ℕ) (f g : ℕ → Option ℕ) → ((n : ℕ) → f n ≡ g n) → on_child o f ≡ on_child o g
unfolding on_child
on_child-same none f g same = refl
on_child-same (some zero) f g same = refl
on_child-same (some (suc child)) f g same = same (suc child)

on_child-elim :
    (o : Option ℕ) (f : ℕ → Option ℕ)
    → on_child o f ≡ elim o [ none ↦ none | some zero ↦ some 0 | some (suc child) ↦ f (suc child) ]
unfolding on_child
on_child-elim none f = refl
on_child-elim (some zero) f = refl
on_child-elim (some (suc child)) f = refl

-- With a round for each byte of the path the loop descends along the components.
traverse_from-descend :
    (rounds fuel node : ℕ) (path : List ℕ) (t : Nodes)
    → length path < rounds
    → traverse_from rounds fuel node path t ≡ descend fuel node (components path) t
unfolding traverse_from descend
traverse_from-descend zero fuel node path t enough = absurd (omega arith)
traverse_from-descend (suc rounds) fuel node path t enough = elim (skip_slashes-cases path) [
  | inl (gone, same) ↦ rw (gone, traverse_from, same) refl
  | inr (c, cs, left, other, same, shorter) ↦
      let token = (cut_token (c ∷ cs)).0 in
      let rest = (cut_token (c ∷ cs)).1 in
      let found = vfs_search_node fuel node (some token) t in
      rw (left, traverse_from, same, components-cut_token c cs other)
        (sym (on_child-elim found (λ n. traverse_from rounds fuel n rest t))
          ∙ on_child-same found (λ n. traverse_from rounds fuel n rest t)
              (λ n. descend fuel n (components rest) t)
              (λ n.
                traverse_from-descend rounds fuel n rest t
                  (omega (arith, cut_token-shorter c cs other)))
          ∙ on_child-elim found (λ n. descend fuel n (components rest) t))
]

-- A lookup of a path other than "/", in a tree that has a root and with memory for the copy of the path,
-- with a round for each byte of the path, descends from the root along the pieces of the path between
-- slashes that are not empty. So slashes that stand together, in front or behind change nothing.
pub vfs_lookup-descend :
    (rounds fuel root copy : ℕ) (path : List ℕ) (t : Nodes)
    → root ≢ 0
    → copy ≢ 0
    → same_name path (slash ∷ []) ≡ false
    → length path < rounds
    → vfs_lookup rounds fuel root copy (some path) t ≡ descend fuel root (components path) t
unfolding vfs_traverse_path
vfs_lookup-descend rounds fuel root copy path t at_root at_copy other enough =
    rw (ne→== _ _ at_root, other, ne→== _ _ at_copy)
      (traverse_from-descend rounds fuel root path t enough)

before_last_slash-none : (name : List ℕ) → HasNoSlash name → before_last_slash name ≡ none
unfolding before_last_slash
before_last_slash-none [] h = refl
before_last_slash-none (c ∷ cs) (other, h) =
    rw (before_last_slash-none cs h, ne→== c slash other) refl

before_last_slash-snoc :
    (front name : List ℕ) → HasNoSlash name → before_last_slash (front ++ slash ∷ name) ≡ some front
unfolding before_last_slash
before_last_slash-snoc [] name h = rw (before_last_slash-none name h) refl
before_last_slash-snoc (c ∷ cs) name h = rw (before_last_slash-snoc cs name h) refl

no_slash-other : (name : List ℕ) → HasNoSlash name → same_name name (slash ∷ []) ≡ false
no_slash-other [] h = refl
no_slash-other (c ∷ cs) (other, h) = rw (ne→== c slash other) refl

-- The parent of a path that is a front, a slash and a last piece, other than "/" itself, is what a lookup
-- of the front gives. For a path with no slash it is what a lookup of the path itself gives: the node, and
-- not its parent.
pub vfs_lookup_parent-front :
    (rounds fuel root copy copy' : ℕ) (front name : List ℕ) (t : Nodes)
    → copy ≢ 0
    → HasNoSlash name
    → same_name (front ++ slash ∷ name) (slash ∷ []) ≡ false
    → (vfs_lookup_parent rounds fuel root copy copy' (some (front ++ slash ∷ name)) t
        ≡ vfs_lookup rounds fuel root copy' (some front) t)
      × (vfs_lookup_parent rounds fuel root copy copy' (some name) t
          ≡ vfs_lookup rounds fuel root copy' (some name) t)
unfolding vfs_lookup_parent
vfs_lookup_parent-front rounds fuel root copy copy' front name t at_copy no_slash other = (
  rw (other, ne→== _ _ at_copy, before_last_slash-snoc front name no_slash) refl,
  rw (no_slash-other name no_slash, ne→== _ _ at_copy, before_last_slash-none name no_slash) refl,
)
