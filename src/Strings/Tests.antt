-- ===== src/Strings/Tests.antt =====
-- Runs of the functions of string.c on a small memory, and the theorems at it.
use nekonix.Base.{◌≡◌, refl, inr, some, ◌∷◌, [], get_or, arith}
use nekonix.Strings.{
  Bytes, equal, less, memmove, memcmp, strncpy, strncmp, strspn, strcspn, strchr, strrchr, null,
  in_set, strrchr_loop,
}
use nekonix.Strings.Copy.{IsCopied, memmove-IsCopied}
use nekonix.Strings.Terminated.{IsString, strncpy_overflows}

-- "ab" at 1, "abc" at 4, and room with other bytes at 8.
abbrev bytes : Bytes
bytes a = get_or (0 ∷ 97 ∷ 98 ∷ 0 ∷ 97 ∷ 98 ∷ 99 ∷ 0 ∷ 7 ∷ 7 ∷ 7 ∷ 7 ∷ 7 ∷ 7 ∷ 7 ∷ 7 ∷ []) a 1

ab : IsString bytes 1 2
ab = ((λ e. omega (arith, e)), ((λ e. omega (arith, e)), refl))

abc : IsString bytes 4 3
abc = ((λ e. omega (arith, e)), ((λ e. omega (arith, e)), ((λ e. omega (arith, e)), refl)))

memcmp_run : memcmp 3 1 4 bytes ≡ less 1
unfolding memcmp
memcmp_run = refl

strncmp_run : strncmp 2 1 4 bytes ≡ equal
unfolding strncmp
strncmp_run = refl

strspn_run : strspn 9 4 1 0 bytes ≡ some 2
unfolding strspn in_set
strspn_run = refl

strcspn_run : strcspn 9 4 6 0 bytes ≡ some 2
unfolding strcspn in_set
strcspn_run = refl

strrchr_run : strrchr 9 4 98 bytes ≡ some 5
unfolding strrchr strrchr_loop
strrchr_run = refl

-- The terminator is not found.
strchr_zero : strchr 9 4 0 bytes ≡ some null
unfolding strchr
strchr_zero = refl

memmove-IsCopied_example : IsCopied 3 5 4 bytes (memmove 3 5 4 bytes)
memmove-IsCopied_example = memmove-IsCopied 3 5 4 bytes

strncpy_overflows_example : strncpy 5 8 4 bytes 13 ≡ 0
strncpy_overflows_example =
    strncpy_overflows 5 8 4 3 bytes abc (inr (omega arith)) (omega arith) 5 (omega arith)
      (omega arith)
