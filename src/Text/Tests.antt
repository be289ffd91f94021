-- ===== src/Text/Tests.antt =====
-- A path, a set of delimiters and a number in memory, and the theorems at them.
use nekonix.Base.{ℕ, ◌≡◌, ◌≢◌, ◌<◌, ◌≤◌, refl, ◌⊎◌, some, ◌∷◌, [], get_or, arith, List, ◌+◌, inl}
use nekonix.Strings.{Bytes, null}
use nekonix.Text.{
  strtok, strtol, skip_space, is_space, strtol_base, strtol_loop, next_digit, signed, strstr,
  strstr_loop, match_from, long_max,
}
use nekonix.Text.Digits.{IsDigit, Spells, strtol-value}
use nekonix.Text.Content.{Holds}
use nekonix.Text.Tokens.{IsToken, strtok-IsToken}

-- "/bin/it" at 1, "/" at 9, and "0755" at 11.
abbrev bytes : Bytes
bytes a =
    get_or (0 ∷ 47 ∷ 98 ∷ 105 ∷ 110 ∷ 47 ∷ 105 ∷ 116 ∷ 0 ∷ 47 ∷ 0 ∷ 48 ∷ 55 ∷ 53 ∷ 53 ∷ 0 ∷ []) a 0

abbrev bin_it : List ℕ
bin_it = 98 ∷ 105 ∷ 110 ∷ 47 ∷ 105 ∷ 116 ∷ []

path : Holds bytes 1 (47 ∷ bin_it)
path = omega arith

slash : Holds bytes 9 (47 ∷ [])
slash = omega arith

strstr_run : strstr 20 1 6 bytes ≡ some 6
unfolding strstr strstr_loop match_from
strstr_run = refl

strtol_run : strtol 20 11 8 bytes ≡ some (493, 15)
unfolding strtol skip_space is_space strtol_base strtol_loop next_digit signed
strtol_run = refl

decimal : (d : ℕ) → d < 8 → IsDigit 8 (48 + d) d
decimal d small = (small, inl (omega (arith, small), refl))

octal : Spells 8 bytes 11 (0 ∷ 7 ∷ 5 ∷ 5 ∷ [])
octal = (
  decimal 0 (omega arith),
  (
    decimal 7 (omega arith),
    (decimal 5 (omega arith), (decimal 5 (omega arith), λ d digit. ground (arith, digit))),
  ),
)

strtol-value_example :
    (493 ≤ long_max → strtol 9 11 8 bytes ≡ some (493, 15))
    × (long_max < 493 → (end : ℕ) × (strtol 9 11 8 bytes ≡ some (long_max, end)))
strtol-value_example =
    strtol-value 8 11 8 0 (7 ∷ 5 ∷ 5 ∷ []) bytes (omega arith) (omega arith) octal (omega arith)

strtok-IsToken_example :
    ((bin_it ≡ []) × (strtok 20 1 9 0 bytes ≡ some (null, 0, bytes)))
    ⊎ ((bin_it ≢ [])
        × ((next : ℕ) × (m' : Bytes) × (strtok 20 1 9 0 bytes ≡ some (2, next, m'))
            × IsToken bytes 2 (47 ∷ []) bin_it next m'))
strtok-IsToken_example =
    strtok-IsToken 20 1 9 0 1 (47 ∷ []) (47 ∷ bin_it) bin_it bytes refl (omega arith) path slash
      (omega arith) refl
