-- ===== src/Text.antt =====
-- The rest of kernel/src/lib/string.c over the memory of Strings: searches, tokens, copies on the heap
-- and numbers. `none` means that the fuel ran out, which stands for the memory that is left.
pub mod Digits
pub mod Content
pub mod Tokens
mod Tests
use nekonix.Base.{
  ℕ, zero, suc, ◌+◌, ◌-◌, ◌*◌, ◌/◌, ◌%◌, ◌^◌, ◌≡◌, Bool, true, false, not, ◌&&◌, ◌||◌, Option, none,
  some, ltb, leb, ◌==◌, if◌then◌else◌, sub_u64,
}
use nekonix.Pmm.{store}
use nekonix.Strings.{Bytes, null, strlen, strcpy, strncpy, strspn, strcspn}

-- `while (*h && *n && (*h == *n))`: the place in the needle where the two differ.
unfoldable pub match_from : ℕ → ℕ → ℕ → Bytes → Option ℕ
match_from zero h n m = none
match_from (suc fuel) h n m =
    let rest = match_from fuel (h + 1) (n + 1) m in
    if not (m h == 0) && not (m n == 0) && m h == m n then rest else some n

unfoldable pub strstr_loop : ℕ → ℕ → ℕ → Bytes → Option ℕ
strstr_loop zero haystack needle m = none
strstr_loop (suc fuel) haystack needle m =
    let rest = strstr_loop fuel (haystack + 1) needle m in
    if m haystack == 0 then some null else elim (match_from (suc fuel) haystack needle m) [
      | none ↦ none
      | some n ↦ if m n == 0 then some haystack else rest
    ]

unfoldable pub strstr : ℕ → ℕ → ℕ → Bytes → Option ℕ
strstr fuel haystack needle m =
    if m needle == 0 then some haystack else strstr_loop fuel haystack needle m

-- From `str += strspn(str, delim)` on: the answer, the static `last` and the memory.
unfoldable pub strtok_from : ℕ → ℕ → ℕ → ℕ → Bytes → Option (ℕ × ℕ × Bytes)
strtok_from fuel str delim last m = elim (strspn fuel str delim 0 m) [
  | none ↦ none
  | some skipped ↦
      let token = str + skipped in
      if m token == 0 then some (null, last, m) else elim (strcspn fuel token delim 0 m) [
        | none ↦ none
        | some length ↦
            let end = token + length in
            if m end == 0 then some (token, end, m) else some (token, end + 1, store m end 0)
      ]
]

unfoldable pub strtok : ℕ → ℕ → ℕ → ℕ → Bytes → Option (ℕ × ℕ × Bytes)
strtok fuel str delim last m =
    let start = if str == 0 then last else str in
    if start == 0 then some (null, last, m) else strtok_from fuel start delim last m

-- `copy` is what kmalloc gives for the length and the terminator.
unfoldable pub strdup : ℕ → ℕ → (ℕ → ℕ) → Bytes → Option (ℕ × Bytes)
strdup fuel s kmalloc m = elim (strlen fuel s m) [
  | none ↦ none
  | some len ↦
      let copy = kmalloc (len + 1) in
      if copy == 0
      then some (copy, m)
      else elim (strcpy fuel copy s m) [ none ↦ none | some m' ↦ some (copy, m') ]
]

unfoldable pub strndup : ℕ → ℕ → ℕ → (ℕ → ℕ) → Bytes → Option (ℕ × Bytes)
strndup fuel s n kmalloc m = elim (strlen fuel s m) [
  | none ↦ none
  | some whole ↦
      let len = if ltb n whole then n else whole in
      let copy = kmalloc (len + 1) in
      if copy == 0 then some (copy, m) else some (copy, store (strncpy len copy s m) (copy + len) 0)
]

abbrev pub long_max : ℕ
long_max = 2 ^ 63 - 1

-- `LONG_MIN` as 64 bits
abbrev pub long_min : ℕ
long_min = 2 ^ 63

unfoldable pub is_space : ℕ → Bool
is_space c = c == 32 || c == 9 || c == 10 || c == 13 || c == 12 || c == 11

unfoldable pub skip_space : ℕ → ℕ → Bytes → Option ℕ
skip_space zero s m = none
skip_space (suc fuel) s m =
    let rest = skip_space fuel (s + 1) m in if is_space (m s) then rest else some s

-- The digit of a byte; `none` where the loop over the digits breaks off.
unfoldable pub next_digit : ℕ → ℕ → Option ℕ
next_digit base c =
    if leb 48 c && leb c 57
    then (if leb base (c - 48) then none else some (c - 48))
    else if leb 97 c && leb c 122
    then (if leb base (c - 97 + 10) then none else some (c - 97 + 10))
    else if leb 65 c && leb c 90
    then (if leb base (c - 65 + 10) then none else some (c - 65 + 10))
    else none

-- `result * sign` as 64 bits
unfoldable pub signed : Bool → ℕ → ℕ
signed negative result = if negative then sub_u64 0 result else result

-- The answer, and what `*endptr` becomes.
unfoldable pub strtol_loop : ℕ → ℕ → Bool → ℕ → ℕ → Bytes → Option (ℕ × ℕ)
strtol_loop zero base negative s result m = none
strtol_loop (suc fuel) base negative s result m = elim (next_digit base (m s)) [
  | none ↦ some (signed negative result, s)
  | some digit ↦
      if ltb (long_max / base) result || result == long_max / base && ltb (long_max % base) digit
      then some (if negative then long_min else long_max, s)
      else strtol_loop fuel base negative (s + 1) (result * base + digit) m
]

-- `0x` or `0X` at `s`
unfoldable pub hex_prefix : ℕ → Bytes → Bool
hex_prefix s m = m s == 48 && (m (s + 1) == 120 || m (s + 1) == 88)

-- The base that is used, and where the digits begin.
unfoldable pub strtol_base : ℕ → ℕ → Bytes → ℕ × ℕ
strtol_base base s m =
    if base == 0
    then (if m s == 48 then (if hex_prefix s m then (16, s + 2) else (8, s + 1)) else (10, s))
    else if base == 16 && hex_prefix s m
    then (16, s + 2)
    else (base, s)

unfoldable pub strtol : ℕ → ℕ → ℕ → Bytes → Option (ℕ × ℕ)
strtol fuel str base m = elim (skip_space fuel str m) [
  | none ↦ none
  | some s ↦
      let negative = m s == 45 in
      let digits = if m s == 45 || m s == 43 then s + 1 else s in
      let (used, first) = strtol_base base digits m in strtol_loop fuel used negative first 0 m
]
