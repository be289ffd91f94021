-- ===== src/Ramfs/Offsets.antt =====
-- Entries whose size makes the step of the loop wrap around.
use nekonix.Base.{
  ℕ, zero, suc, ◌+◌, ◌^◌, ◌≤◌, ◌<◌, ◌≡◌, ◌≢◌, ◌⊎◌, inl, inr, refl, true, none, some, List, [], ◌∷◌,
  arith, lt→ltb, ne→==, length, u32, Bool-cases,
}
use nekonix.Strings.{Bytes}
use nekonix.Text.{strtol}
use nekonix.Text.Content.{Holds}
use nekonix.Vfs.{same_name, done}
use nekonix.Ramfs.{Ramfs, Fresh, next_offset, strip_dot, parse_entry, parse_loop}
use nekonix.Ramfs.Names.{string_at_lem}

next_offset-stays :
    (size offset : ℕ)
    → 2 ^ 32 ≤ size + 1023
    → size + 512 ≤ 2 ^ 32
    → offset < 2 ^ 64
    → next_offset size offset ≡ offset
unfolding next_offset
next_offset-stays size offset from to fits = omega arith

module _ (supply : ℕ → Fresh) (fuel parent offset : ℕ) (m : Bytes) (r : Ramfs) (name : List ℕ) where
  -- An entry of the archive's own directory, `./` or `.`.
  passed_over :
      (size : ℕ) {mode mode_end : ℕ}
      → Holds m (r.data' + offset) name
      → length name < fuel
      → (same_name (strip_dot name) [] ≡ true) ⊎ (same_name (strip_dot name) (46 ∷ []) ≡ true)
      → strtol fuel (r.data' + offset + 100) 8 m ≡ some (mode, mode_end)
      → parse_entry supply fuel parent offset size m r ≡ some (done, next_offset size offset, r)
  unfolding parse_entry
  passed_over size named short dot mode_read =
      let text = string_at_lem fuel (r.data' + offset) name m named short in
      elim (Bool-cases (same_name (strip_dot name) [])) [
        | inl e ↦ rw (parse_entry, mode_read, text, e)
        | inr e ↦ elim dot [ inl e' ↦ cc | inr e' ↦ rw (parse_entry, mode_read, text, e, e') ]
      ]

  -- An entry of the archive's own directory whose size is among the 512 that make the next offset, on 32
  -- bits, the same again is read for ever: no number of rounds is enough.
  pub parse_loop-hangs :
      (rounds : ℕ) {size size_end mode mode_end : ℕ}
      → Holds m (r.data' + offset) name
      → length name < fuel
      → m (r.data' + offset) ≢ 0
      → (same_name (strip_dot name) [] ≡ true) ⊎ (same_name (strip_dot name) (46 ∷ []) ≡ true)
      → strtol fuel (r.data' + offset + 100) 8 m ≡ some (mode, mode_end)
      → strtol fuel (r.data' + offset + 124) 8 m ≡ some (size, size_end)
      → 2 ^ 32 ≤ size + 1023
      → size + 512 ≤ 2 ^ 32
      → offset < r.size
      → r.size < 2 ^ 64
      → parse_loop supply rounds fuel parent offset m r ≡ none
  unfolding parse_loop
  parse_loop-hangs zero named short given dot mode_read size_read from to more fits = refl
  parse_loop-hangs (suc rounds) {size} named short given dot mode_read size_read from to more fits =
      let small : u32 size ≡ size = omega arith in
      rw
        (
          lt→ltb _ _ more,
          ne→== _ _ given,
          size_read,
          small,
          passed_over size named short dot mode_read,
          next_offset-stays size offset from to (omega arith),
        )
        (parse_loop-hangs rounds named short given dot mode_read size_read from to more fits)
