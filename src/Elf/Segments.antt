-- ===== src/Elf/Segments.antt =====
-- A segment that is loaded is found at its addresses.
use nekonix.Base.{
  ℕ, ◌+◌, ◌-◌, ◌%◌, ◌^◌, ◌≤◌, ◌<◌, ◌≡◌, ◌≢◌, ◌⊎◌, ◌∙◌, inl, inr, refl, ap, ltb, ◌==◌, ==_iff, ne→==,
  Bool-cases, if◌then◌else◌, u64, sub_u64, arith, tests, length, bit_and,
}
use nekonix.Pmm.{Machine, higher_half, clear}
use nekonix.Pmm.Pages.{free_list, length-view}
use nekonix.Strings.{Bytes}
use nekonix.Vmm.{map, virt_to_phys}
use nekonix.Vmm.Entry.{IsFlags}
use nekonix.Vmm.Tree.{page_number}
use nekonix.Vmm.Held.{OnPage, Keeps}
use nekonix.Vmm.Space.{IsSpace, IsHeld, IsPhys, map-IsSpace, virt_to_phys-map}
use nekonix.Vmm.Client.{IsStep, request_page-IsStep}
use nekonix.Elf.{Store, Segment, vaddr_start, request, fill_page, page_flags}
use nekonix.Elf.Pages.{IsFilled, fill_page-IsFilled}

page_flags-IsFlags : (f : ℕ) → IsFlags (page_flags f)
unfolding page_flags
page_flags-IsFlags f = elim (Bool-cases (bit_and f 2 == 0)) [
  | inl a ↦ elim (Bool-cases (bit_and f 1 == 0)) [
    | inl b ↦ rw (a, b) (omega arith)
    | inr b ↦ rw (a, b) (omega arith)
  ]
  | inr a ↦ elim (Bool-cases (bit_and f 1 == 0)) [
    | inl b ↦ rw (a, b) (omega arith)
    | inr b ↦ rw (a, b) (omega arith)
  ]
]

-- The byte at a virtual address: its page is mapped to a frame that is held, and the frame has `b` there.
abbrev pub Reads :
    {hhdm_offset pagemap : ℕ} {m : Machine} → IsSpace hhdm_offset pagemap m → Bytes → ℕ → ℕ → Type 0
Reads {hhdm_offset} {pagemap} {m} space bytes v b =
    (q : ℕ) × IsHeld space q
    × (virt_to_phys hhdm_offset m.memory pagemap v ≡ q)
    × (bytes (q + hhdm_offset + v % 4096) ≡ b)

-- Addresses that stand in pages which are held.
abbrev pub AreHeldBytes :
    {hhdm_offset pagemap : ℕ} {m : Machine} → IsSpace hhdm_offset pagemap m → ℕ → ℕ → Type 0
AreHeldBytes {hhdm_offset} space from n =
    (k : ℕ) → k < n → (q : ℕ) × IsHeld space q × OnPage hhdm_offset q (from + k)

-- A step of the loader: it takes `cost` pages at most and leaves what is held, and the translation of
-- all pages but those for which `Mine` is given.
pub record IsLoading {hhdm_offset pagemap : ℕ} (s : Store)
    (space : IsSpace hhdm_offset pagemap s.machine) (cost : ℕ) (Mine : ℕ → Type 0) (s' : Store)
    : Type 0 where
  pub space' : IsSpace hhdm_offset pagemap s'.machine
  pub enough : length (free_list s.machine) ≤ length (free_list s'.machine) + cost
  pub held : (q : ℕ) → IsHeld space q → IsHeld space' q × Keeps hhdm_offset q s.bytes s'.bytes
  pub others :
      (v : ℕ)
      → ¬ Mine v
      → virt_to_phys hhdm_offset s'.machine.memory pagemap v
        ≡ virt_to_phys hhdm_offset s.machine.memory pagemap v

-- Where the file stands for the page at `addr`, and where its part for the segment ends.
abbrev pub file_offset : Segment → ℕ → ℕ
file_offset ph addr = u64 (ph.offset + sub_u64 addr (vaddr_start ph))

abbrev pub file_end : Segment → ℕ
file_end ph = u64 (ph.offset + ph.filesz)

-- The store after one round of the loop over the pages.
abbrev pub page_loaded : ℕ → ℕ → Store → Segment → ℕ → ℕ → Store
page_loaded hhdm_offset pagemap s ph source addr =
    let (phys, s1) = request hhdm_offset s in
    record {
      machine = map hhdm_offset pagemap addr phys (page_flags ph.flags) s1.machine;
      bytes = fill_page hhdm_offset (file_offset ph addr) (file_end ph) source phys s1.bytes;
    }

off_page :
    (hhdm_offset p q a : ℕ)
    → p % 4096 ≡ 0
    → q % 4096 ≡ 0
    → p ≢ q
    → OnPage hhdm_offset p a
    → (a < q + hhdm_offset) ⊎ (q + hhdm_offset + 4096 ≤ a)
off_page hhdm_offset p q a hp hq ne on = omega (arith, ne)

module _ {hhdm_offset pagemap : ℕ} (s : Store) (space : IsSpace hhdm_offset pagemap s.machine)
    (room : 4 ≤ length (free_list s.machine)) where
  -- A page that is requested for a segment.
  pub request_lem :
      let (page, s1) = request hhdm_offset s in
      (step : IsStep space 1 s1.machine) × IsHeld step.space' page
      × (higher_half hhdm_offset page ≡ page + hhdm_offset)
      × ((k : ℕ) → k < 4096 → s1.bytes (page + hhdm_offset + k) ≡ 0)
      × ((q : ℕ) → IsHeld space q → (q ≢ page) × Keeps hhdm_offset q s.bytes s1.bytes)
  unfolding request clear
  request_lem =
      let (step, own, above, keeps) = request_page-IsStep space (omega arith) in
      let some_left : s.machine.stack.idx ≢ 0 =
        omega (arith, length-view s.machine.stack.pages s.machine.stack.idx) in
      (
        step,
        own,
        above,
        rw (ne→== _ _ some_left, above) (λ k below. ground arith),
        rw (ne→== _ _ some_left, above)
            (λ q h. (
              (keeps q h).0,
              λ a on.
                  ground
                    (arith, (keeps q h).0, h.0.page_aligned, own.0.page_aligned, space.direct_map),
            )),
      )

  module _ (ph : Segment) (source addr : ℕ)
      (file : AreHeldBytes space
        (source + file_offset ph addr)
        (file_end ph - file_offset ph addr)) where
    abbrev after : Store
    after = page_loaded hhdm_offset pagemap s ph source addr

    -- The byte for the place `k` of the page.
    abbrev byte : ℕ → ℕ
    byte k =
        if ltb (file_offset ph addr + k) (file_end ph)
        then s.bytes (source + (file_offset ph addr + k))
        else 0

    filled :
        file_offset ph addr + 4096 < 2 ^ 64
        → IsFilled
            ((request hhdm_offset s).0 + hhdm_offset)
            (file_offset ph addr)
            (file_end ph)
            source
            (request hhdm_offset s).1.bytes
            after.bytes
    filled fits =
        let (step, own, above, zeroed, keeps) = request_lem in
        fill_page-IsFilled {m = (request hhdm_offset s).1.bytes} zeroed hhdm_offset _ above fits
          (omega arith)
          λ k below more.
            let (q, h, on) = file k (omega arith) in
            off_page hhdm_offset q _ _ h.0.page_aligned own.0.page_aligned (keeps q h).0 on

    same_byte :
        (k : ℕ)
        → (if ltb (file_offset ph addr + k) (file_end ph)
            then (request hhdm_offset s).1.bytes (source + (file_offset ph addr + k))
            else 0)
          ≡ byte k
    same_byte k = elim (Bool-cases (ltb (file_offset ph addr + k) (file_end ph))) [
      | inr past ↦ rw past
      | inl more ↦
          let (step, own, above, zeroed, keeps) = request_lem in
          let (q, h, on) = file k (omega (tests, more)) in
          rw more ((keeps q h).1 _ (omega (arith, on)))
    ]

    pub page_loaded-IsLoading :
        addr % 4096 ≡ 0
        → file_offset ph addr + 4096 < 2 ^ 64
        → (l : IsLoading s space 4 (λ v. page_number v ≡ page_number addr) after) × ((k : ℕ)
            → k < 4096
            → page_number (addr + k) ≡ page_number addr
            → Reads l.space' after.bytes (addr + k) (byte k))
    page_loaded-IsLoading aligned fits =
        let (phys, s1) = request hhdm_offset s in
        let (step, own, above, zeroed, keeps) = request_lem in
        let frame : IsPhys phys = record {
          page_aligned = own.0.page_aligned;
          fits = own.0.fits_entry;
        } in
        let fl = page_flags-IsFlags ph.flags in
        let room' : 3 ≤ length (free_list s1.machine) = omega (arith, step.enough) in
        let (space', enough, kept) = map-IsSpace step.space' room' fl addr {phys = phys} frame in
        let virt = virt_to_phys-map step.space' room' fl addr {phys = phys} frame in
        let fill = filled fits in
        (
          record {
            space' = space';
            enough = omega (arith, step.enough, enough);
            held = λ q h. (
              (kept q (step.held q h)).0,
              λ a on.
                  fill.outside a (
                    off_page hhdm_offset q phys a h.0.page_aligned own.0.page_aligned (keeps q h).0
                      on)
                  ∙ (keeps q h).1 a on,
            );
            others = λ v other. virt v ∙ rw (ne→== _ _ other) (step.virt v);
          },
          λ k below same. (
            phys,
            (kept phys own).0,
            virt (addr + k) ∙ rw ((==_iff _ _).1 same) refl,
            ap after.bytes (omega arith) ∙ fill.inside k below ∙ same_byte k,
          ),
        )
