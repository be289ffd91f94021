-- ===== src/Strings.antt =====
-- The memory and string functions of kernel/src/lib/string.c over a memory of bytes. A pointer is
-- an address; `none` means that a walk along a string ran out of fuel, which stands for the memory
-- that is left. A counted loop recurs on the rounds left.
pub mod Copy
pub mod Terminated
mod Tests
use nekonix.Base.{
  ℕ, zero, suc, ◌+◌, ◌-◌, ◌*◌, ◌/◌, ◌%◌, ◌^◌, ◌≡◌, Bool, true, false, not, ◌&&◌, ◌||◌, Option, none,
  some, ltb, leb, ◌==◌, if◌then◌else◌, u8,
}
use nekonix.Pmm.{store}

-- The memory, byte by byte.
abbrev pub Bytes : Type 0
Bytes = ℕ → ℕ

abbrev pub null : ℕ
null = 0

-- A signed answer of the comparisons.
pub data Sign : Type 0 where
  less : ℕ → Sign
  equal : Sign
  greater : ℕ → Sign

-- `*a - *b`, apart from 0 by the distance.
unfoldable pub byte_diff : ℕ → ℕ → Sign
byte_diff a b = if ltb a b then less (b - a) else if ltb b a then greater (a - b) else equal

unfoldable pub memcpy : ℕ → ℕ → ℕ → Bytes → Bytes
memcpy zero d s m = m
memcpy (suc n) d s m = memcpy n (d + 1) (s + 1) (store m d (m s))

unfoldable pub memset : ℕ → ℕ → ℕ → Bytes → Bytes
memset zero p c m = m
memset (suc n) p c m = memset n (p + 1) c (store m p (u8 c))

-- `d` and `s` point behind the ranges at first, and are decremented before each byte.
unfoldable pub memmove_down : ℕ → ℕ → ℕ → Bytes → Bytes
memmove_down zero d s m = m
memmove_down (suc n) d s m = memmove_down n d s (store m (d + n) (m (s + n)))

unfoldable pub memmove : ℕ → ℕ → ℕ → Bytes → Bytes
memmove n d s m = if ltb d s then memcpy n d s m else memmove_down n d s m

unfoldable pub memcmp : ℕ → ℕ → ℕ → Bytes → Sign
memcmp zero p q m = equal
memcmp (suc n) p q m =
    let rest = memcmp n (p + 1) (q + 1) m in
    if m p == m q then rest else if ltb (m p) (m q) then less 1 else greater 1

unfoldable pub strcpy : ℕ → ℕ → ℕ → Bytes → Option Bytes
strcpy zero d s m = none
strcpy (suc fuel) d s m =
    let m' = store m d (m s) in
    let rest = strcpy fuel (d + 1) (s + 1) m' in if m s == 0 then some m' else rest

-- `while (n && (*d++ = *src++)) n--`, and the zeros that follow.
unfoldable pub strncpy : ℕ → ℕ → ℕ → Bytes → Bytes
strncpy zero d s m = m
strncpy (suc n) d s m =
    let m' = store m d (m s) in
    let rest = strncpy n (d + 1) (s + 1) m' in
    if m s == 0 then memset (suc n) (d + 1) 0 m' else rest

-- The address of the terminator.
unfoldable pub string_end : ℕ → ℕ → Bytes → Option ℕ
string_end zero p m = none
string_end (suc fuel) p m =
    let rest = string_end fuel (p + 1) m in if m p == 0 then some p else rest

unfoldable pub strlen : ℕ → ℕ → Bytes → Option ℕ
strlen fuel s m = elim (string_end fuel s m) [ none ↦ none | some p ↦ some (p - s) ]

unfoldable pub strcat : ℕ → ℕ → ℕ → Bytes → Option Bytes
strcat fuel dest src m = elim (string_end fuel dest m) [
  | none ↦ none
  | some d ↦ strcpy fuel d src m
]

-- `while (n-- && (*d++ = *src++)); *d = '\0'`
unfoldable pub strncat_loop : ℕ → ℕ → ℕ → Bytes → Bytes
strncat_loop zero d s m = store m d 0
strncat_loop (suc n) d s m =
    let m' = store m d (m s) in
    let rest = strncat_loop n (d + 1) (s + 1) m' in if m s == 0 then store m' (d + 1) 0 else rest

unfoldable pub strncat : ℕ → ℕ → ℕ → ℕ → Bytes → Option Bytes
strncat fuel n dest src m = elim (string_end fuel dest m) [
  | none ↦ none
  | some d ↦ some (strncat_loop n d src m)
]

unfoldable pub strcmp : ℕ → ℕ → ℕ → Bytes → Option Sign
strcmp zero p q m = none
strcmp (suc fuel) p q m =
    let rest = strcmp fuel (p + 1) (q + 1) m in
    if not (m p == 0) && m p == m q then rest else some (byte_diff (m p) (m q))

unfoldable pub strncmp : ℕ → ℕ → ℕ → Bytes → Sign
strncmp zero p q m = equal
strncmp (suc n) p q m =
    let rest = strncmp n (p + 1) (q + 1) m in
    if not (m p == 0) && m p == m q then rest else byte_diff (m p) (m q)

unfoldable pub strchr : ℕ → ℕ → ℕ → Bytes → Option ℕ
strchr zero s c m = none
strchr (suc fuel) s c m =
    let rest = strchr fuel (s + 1) c m in
    if m s == 0 then some null else if m s == u8 c then some s else rest

unfoldable pub strrchr_loop : ℕ → ℕ → ℕ → ℕ → Bytes → Option ℕ
strrchr_loop zero s c last m = none
strrchr_loop (suc fuel) s c last m =
    let rest = strrchr_loop fuel (s + 1) c (if m s == u8 c then s else last) m in
    if m s == 0 then some last else rest

unfoldable pub strrchr : ℕ → ℕ → ℕ → Bytes → Option ℕ
strrchr fuel s c m = strrchr_loop fuel s c null m

-- `for (p = set; *p; p++) if (*s == *p) …`: does the set hold the byte?
unfoldable pub in_set : ℕ → ℕ → ℕ → Bytes → Option Bool
in_set zero p c m = none
in_set (suc fuel) p c m =
    let rest = in_set fuel (p + 1) c m in
    if m p == 0 then some false else if c == m p then some true else rest

unfoldable pub strcspn : ℕ → ℕ → ℕ → ℕ → Bytes → Option ℕ
strcspn zero s reject count m = none
strcspn (suc fuel) s reject count m =
    let rest = strcspn fuel (s + 1) reject (count + 1) m in
    if m s == 0 then some count else elim (in_set (suc fuel) reject (m s) m) [
      | none ↦ none
      | some true ↦ some count
      | some false ↦ rest
    ]

unfoldable pub strspn : ℕ → ℕ → ℕ → ℕ → Bytes → Option ℕ
strspn zero s accept count m = none
strspn (suc fuel) s accept count m =
    let rest = strspn fuel (s + 1) accept (count + 1) m in
    if m s == 0 then some count else elim (in_set (suc fuel) accept (m s) m) [
      | none ↦ none
      | some true ↦ rest
      | some false ↦ some count
    ]

unfoldable pub strpbrk : ℕ → ℕ → ℕ → Bytes → Option ℕ
strpbrk zero s accept m = none
strpbrk (suc fuel) s accept m =
    let rest = strpbrk fuel (s + 1) accept m in
    if m s == 0 then some null else elim (in_set (suc fuel) accept (m s) m) [
      | none ↦ none
      | some true ↦ some s
      | some false ↦ rest
    ]
