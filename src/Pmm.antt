-- ===== src/Pmm.antt =====
-- The physical page allocator, kernel/src/mm/pmm.c with the macros of kernel/include/mm/pmm.h:
-- a stack of free page addresses. Every function takes the machine and returns the new one; the
-- diagnostics that it prints are left out.
pub mod Init
pub mod Pages
pub mod Owner
mod Tests
use nekonix.Base.{
  ℕ, zero, suc, ◌+◌, ◌-◌, ◌*◌, ◌/◌, ◌%◌, ◌^◌, ◌≡◌, Bool, true, false, not, ◌&&◌, Option, none, some,
  List, [], ◌∷◌, ltb, leb, ◌==◌, if◌then◌else◌, u64, sub_u64,
}

abbrev pub page_size : ℕ
page_size = 4096

-- `stack.pages` is the array that the pointer leads to, `base` the pointer itself.
pub record PageStack : Type 0 where
  pub base : ℕ
  pub pages : ℕ → ℕ
  pub idx : ℕ
  pub max : ℕ

-- The memory that the kernel reads and writes, by address.
abbrev pub Memory : Type 0
Memory = ℕ → ℕ

pub record Machine : Type 0 where
  pub stack : PageStack
  pub memory : Memory

-- `a[i] = v`
unfoldable pub store : (ℕ → ℕ) → ℕ → ℕ → ℕ → ℕ
store a i v j = if i == j then v else a j

unfoldable pub div_round_up : ℕ → ℕ → ℕ
div_round_up x y = u64 (x + (y - 1)) / y

unfoldable pub align_up : ℕ → ℕ → ℕ
unfolding div_round_up
align_up x y = u64 (div_round_up x y * y)

unfoldable pub align_down : ℕ → ℕ → ℕ
align_down x y = x / y * y

-- `memset(p, 0, n)` on whole words
unfoldable pub clear : Memory → ℕ → ℕ → Memory
clear m p n a = if leb p a && ltb a (p + n) then 0 else m a

unfoldable pub push : PageStack → ℕ → PageStack
unfolding store
push s v = record s { pages = store s.pages s.idx v; idx = s.idx + 1 }

module _ (hhdm_offset : ℕ) where
  unfoldable pub higher_half : ℕ → ℕ
  higher_half p = u64 (p + hhdm_offset)

  unfoldable pub physical : ℕ → ℕ
  physical p = sub_u64 p hhdm_offset

  -- The page comes back as 0, the null pointer, when the stack is empty.
  unfoldable pub request_page : Machine → ℕ × Machine
  request_page m =
      let s = m.stack in
      if s.idx == 0 then (0, m) else (
        s.pages (s.idx - 1),
        record {
          stack = record s { idx = s.idx - 1 };
          memory = clear m.memory (higher_half (s.pages (s.idx - 1))) page_size;
        },
      )

unfoldable pub free_page : ℕ → Machine → Machine
free_page p m =
    if p == 0
    then m
    else if leb m.stack.max m.stack.idx
    then m
    else record m { stack = push m.stack p }
