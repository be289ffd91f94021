-- ===== src/Pmm/Init.antt =====
-- `pmm_init`: the memory map of the boot loader becomes the stack of free pages.
use nekonix.Base.{
  ℕ, zero, suc, ◌+◌, ◌*◌, ◌/◌, Bool, ◌&&◌, Option, none, some, List, [], ◌∷◌, ltb, leb,
  if◌then◌else◌, u64, sub_u64,
}
use nekonix.Pmm.{page_size, PageStack, push, div_round_up, align_up, higher_half}

-- `struct limine_memmap_entry`, of which the kernel tells only one type apart.
pub record Entry : Type 0 where
  pub base : ℕ
  pub length : ℕ
  pub usable : Bool

-- The first loop: how many pages the usable entries hold.
unfoldable pub count_pages : List Entry → ℕ → ℕ
unfolding div_round_up
count_pages [] n = n
count_pages (e ∷ es) n =
    count_pages es (if e.usable then u64 (n + div_round_up e.length page_size) else n)

-- The second loop: the first usable entry that is long enough gives up its start to the stack.
unfoldable pub carve : ℕ → List Entry → Option ℕ × List Entry
carve size [] = (none, [])
carve size (e ∷ es) =
    if leb size e.length && e.usable
    then (some e.base, record e { length = sub_u64 e.length size; base = u64 (e.base + size) } ∷ es)
    else (let (found, rest) = carve size es in (found, e ∷ rest))

-- `for (j = 0; j < length; j += PAGE_SIZE)`: one page for each round.
unfoldable pub push_pages : ℕ → ℕ → ℕ → ℕ → PageStack → PageStack
unfolding push
push_pages zero base length j s = s
push_pages (suc rounds) base length j s =
    let more = push_pages rounds base length (j + page_size) (push s (u64 (base + j))) in
    if ltb j length then more else s

-- The third loop.
unfoldable pub push_entries : List Entry → PageStack → PageStack
unfolding push_pages
push_entries [] s = s
push_entries (e ∷ es) s =
    push_entries es
      (if e.usable then push_pages (e.length / page_size + 1) e.base e.length 0 s else s)

module _ (hhdm_offset : ℕ) where
  -- The stack stands in zeroed static storage, so its pointer is null if no entry is carved.
  unfoldable pub init : List Entry → PageStack
  unfolding count_pages align_up carve push_entries higher_half
  init es =
      let (found, es') = carve (align_up (u64 (count_pages es 0 * 8)) page_size) es in
      let base : ℕ = elim found [ none ↦ 0 | some b ↦ higher_half hhdm_offset b ] in
      let s = push_entries es' (record { base = base; pages = λ i. 0; idx = 0; max = 0 }) in
      record s { max = s.idx }
