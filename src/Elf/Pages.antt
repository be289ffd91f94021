-- ===== src/Elf/Pages.antt =====
-- What one page of a segment gets.
use nekonix.Base.{
  ℕ, ◌+◌, ◌-◌, ◌^◌, ◌≤◌, ◌<◌, ◌≡◌, ◌⊎◌, ◌∙◌, inl, inr, ap, ltb, ltb→lt, ltb→ge, Bool-cases,
  if◌then◌else◌, u64, sub_u64, arith, tests,
}
use nekonix.Pmm.{page_size, higher_half}
use nekonix.Strings.{Bytes, memcpy, memset}
use nekonix.Strings.Copy.{memcpy-IsCopied, memset_lem}
use nekonix.Elf.{fill_page}

-- The page at `page` holds the file from `file_offset` on, and zeros behind its end; all else stays.
pub record IsFilled (page file_offset file_end source : ℕ) (m m' : Bytes) : Type 0 where
  pub inside :
      (k : ℕ)
      → k < 4096
      → m' (page + k)
        ≡ (if ltb (file_offset + k) file_end then m (source + (file_offset + k)) else 0)
  pub outside : (a : ℕ) → (a < page) ⊎ (page + 4096 ≤ a) → m' a ≡ m a

-- A range that shares no address with the page lies on one side of it.
one_side :
    (page from n : ℕ)
    → ((k : ℕ) → k < n → (from + k < page) ⊎ (page + 4096 ≤ from + k))
    → (page ≤ from) ⊎ (from + n ≤ page)
one_side page from n apart = elim (Bool-cases (ltb from page)) [
  | inr ge ↦ inl (ltb→ge from page ge)
  | inl lt ↦ elim (Bool-cases (ltb page (from + n))) [
    | inr ge ↦ inr (ltb→ge page (from + n) ge)
    | inl over ↦ absurd (omega (tests, lt, over, apart (page - from) (omega (tests, lt, over))))
  ]
]

module _ {page file_offset file_end source : ℕ} {m : Bytes}
    (zeroed : (k : ℕ) → k < 4096 → m (page + k) ≡ 0) where
  copied-IsFilled :
      (n : ℕ)
      → n ≤ 4096
      → ((k : ℕ) → k < 4096 → ltb (file_offset + k) file_end ≡ ltb k n)
      → (page ≤ source + file_offset) ⊎ (source + file_offset + n ≤ page)
      → IsFilled page file_offset file_end source m (memcpy n page (source + file_offset) m)
  copied-IsFilled n small same apart =
      let copied = memcpy-IsCopied n page (source + file_offset) m apart in
      record {
        inside = λ k below. rw (same k below) (elim (Bool-cases (ltb k n)) [
          | inl lt ↦ rw lt (copied.inside k (ltb→lt k n lt) ∙ ap m (omega arith))
          | inr ge ↦
              rw ge
                (copied.outside (page + k) (inr (omega (arith, ltb→ge k n ge))) ∙ zeroed k below)
        ]);
        outside = λ a off. copied.outside a (omega (arith, off));
      }

  cleared-IsFilled :
      file_end ≤ file_offset
      → IsFilled page file_offset file_end source m (memset page_size page 0 m)
  cleared-IsFilled past = record {
    inside = λ k below. ground (arith, memset_lem page_size page 0 m (page + k));
    outside = λ a off. ground (arith, off, memset_lem page_size page 0 m a);
  }

  pub fill_page-IsFilled :
      (hhdm_offset phys : ℕ)
      → higher_half hhdm_offset phys ≡ page
      → file_offset + 4096 < 2 ^ 64
      → file_end < 2 ^ 64
      → ((k : ℕ)
          → k < 4096
          → file_offset + k < file_end
          → (source + file_offset + k < page) ⊎ (page + 4096 ≤ source + file_offset + k))
      → IsFilled page file_offset file_end source m
          (fill_page hhdm_offset file_offset file_end source phys m)
  unfolding fill_page
  fill_page-IsFilled hhdm_offset phys at fits_offset fits_end apart =
      elim (Bool-cases (ltb file_offset file_end)) [
        | inr past ↦ rw (at, past) (cleared-IsFilled (ltb→ge _ _ past))
        | inl more ↦ elim (Bool-cases (ltb file_end (u64 (file_offset + page_size)))) [
          | inl part ↦
              let n : sub_u64 file_end file_offset ≡ file_end - file_offset = omega (tests, more) in
              rw (at, more, part, n)
                (copied-IsFilled (file_end - file_offset) (omega (tests, part))
                  (λ k below. ground arith)
                  (one_side page (source + file_offset) (file_end - file_offset)
                    λ k lt. apart k (omega (tests, part)) (omega arith)))
          | inr whole ↦
              rw (at, more, whole)
                (copied-IsFilled 4096 (omega arith) (λ k below. ground (arith, ltb→ge _ _ whole))
                  (one_side page (source + file_offset) 4096
                    λ k lt. apart k lt (omega (tests, whole))))
        ]
      ]
