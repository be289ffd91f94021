-- ===== src/Ramfs/Modes.antt =====
-- The mode of an entry decides who may use its file.
use nekonix.Base.{
  ℕ, zero, suc, ◌*◌, ◌/◌, ◌^◌, ◌<◌, ◌≡◌, ◌≢◌, refl, Bool, true, false, not, ◌&&◌, ◌||◌, ◌==◌,
  if◌then◌else◌, bit_and, arith, ne→==, Bool-cases, inl, inr, ◌⊎◌,
}
use nekonix.Vfs.{Nodes}
use nekonix.Hvfs.{hvfs_permission_check, allows}
use nekonix.Ramfs.{permissions_of}

all_below : ℕ → (ℕ → Bool) → Bool
all_below zero test = true
all_below (suc n) test = test n && all_below n test

all_below_lem : (n : ℕ) (test : ℕ → Bool) (x : ℕ) → all_below n test ≡ true → x < n → test x ≡ true
unfolding all_below
all_below_lem zero test x h below = absurd (omega arith)
all_below_lem (suc n) test x h below = ground (arith, all_below_lem n test x)

abbrev same : Bool → Bool → Bool
same true b = b
same false b = not b

same-eq : (a b : Bool) → same a b ≡ true → a ≡ b
same-eq true true h = refl
same-eq true false h = cc
same-eq false true h = cc
same-eq false false h = refl

-- The three rights: read, write and execute.
abbrev IsRight : ℕ → Type 0
IsRight right = (right ≡ 1) ⊎ (right ≡ 2) ⊎ (right ≡ 4)

-- The bit of a right in a mode counts from the other end.
abbrev mode_bit : ℕ → ℕ
mode_bit right = 4 / right

abbrev agrees : ℕ → ℕ → Bool
agrees right mode =
    let perms = permissions_of mode in
    let owner = allows perms right in
    let group = allows perms (right * 2 ^ 4) in
    let others = allows perms (right * 2 ^ 8) in
    same others (not (bit_and mode (mode_bit right) == 0))
    && same (owner || group || others) (not (bit_and mode (mode_bit right * 73) == 0))

table :
    (all_below 512 (agrees 1) ≡ true)
    × (all_below 512 (agrees 2) ≡ true)
    × (all_below 512 (agrees 4) ≡ true)
unfolding all_below permissions_of
table = (refl, refl, refl)

agrees_lem : (right mode : ℕ) → IsRight right → mode < 512 → agrees right mode ≡ true
agrees_lem right mode (inl e) below = rw e (all_below_lem 512 (agrees 1) mode table.0 below)
agrees_lem right mode (inr (inl e)) below = rw e (all_below_lem 512 (agrees 2) mode table.1 below)
agrees_lem right mode (inr (inr e)) below = rw e (all_below_lem 512 (agrees 4) mode table.2 below)

and-both : (a b : Bool) → (a && b) ≡ true → (a ≡ true) × (b ≡ true)
and-both true b h = (refl, h)
and-both false b h = cc

-- A node with the permissions of an entry of the mode grants a right to others exactly when the mode does
-- so, and to its owner when the mode grants it to the owner, to the group or to others.
pub hvfs_permission_check-mode :
    (node uid right mode : ℕ) (t : Nodes)
    → IsRight right
    → mode < 512
    → node ≢ 0
    → (t node).permissions ≡ permissions_of mode
    → hvfs_permission_check node uid right t
      ≡ not
          (bit_and mode (if (t node).uid == uid then mode_bit right * 73 else mode_bit right) == 0)
unfolding hvfs_permission_check
hvfs_permission_check-mode node uid right mode t is_right below given perms =
    let (others, owner) = and-both _ _ (agrees_lem right mode is_right below) in
    elim (Bool-cases ((t node).uid == uid)) [
      | inl own ↦ rw (ne→== _ _ given, own, perms) (same-eq _ _ owner)
      | inr other ↦ rw (ne→== _ _ given, other, perms) (same-eq _ _ others)
    ]
