-- ===== src/Scheduler/Launch/Parts.antt =====
-- What vmm_new_pagemap, elf_load and process_create of kernel/src/mm/vmm.c, kernel/src/proc/elf.c and
-- kernel/src/proc/scheduler.c give to a process that runs a file.
use native.Mathlib.Decide.{ℕ_discrete}
use nekonix.Base.{
  ℕ, ◌+◌, ◌≡◌, ◌≢◌, ◌∙◌, ◌⊎◌, ap, refl, false, List, ◌∷◌, arith, u32, u64, inl, inr, sym,
  Bool-cases, ◌==◌, ==_iff,
}
use nekonix.Pmm.{Machine, store, request_page, higher_half}
use nekonix.Pmm.Pages.{free_list, pop_list, request_page_refines}
use nekonix.Vmm.{new_pagemap}
use nekonix.Elf.{Store, e_entry, e_magic, e_class, e_phoff, e_phnum, load_segments, elf_load}
use nekonix.Scheduler.{Kernel, new, put, process_create}

-- What process_create leaves when it answers a process.
pub record IsCreated (entry pagemap name : ℕ) (k : Kernel) (made : ℕ × Kernel) : Type 0 where
  pub pid : (made.1.table made.0).pid ≡ k.pid_counter
  pub state : (made.1.table made.0).state ≡ new
  pub root : (made.1.table made.0).pagemap ≡ pagemap
  pub start : (made.1.table made.0).ctx.rip ≡ entry
  pub list : made.1.processes ≡ k.processes
  pub count : made.1.process_count ≡ k.process_count

pub process_create-IsCreated :
    (hhdm_offset entry pagemap name : ℕ) (k : Kernel)
    → (process_create hhdm_offset entry pagemap name k).0 ≢ 0
    → IsCreated entry pagemap name k (process_create hhdm_offset entry pagemap name k)
unfolding process_create put
process_create-IsCreated hhdm_offset entry pagemap name k given = ground (arith, given)

-- No page is left for the structure of a process, or none for its stack.
abbrev pub LacksPage : ℕ → Machine → Type 0
LacksPage hhdm_offset m =
    let (page, m1) = request_page hhdm_offset m in
    (higher_half hhdm_offset page ≡ 0)
    ⊎ (u64 (higher_half hhdm_offset (request_page hhdm_offset m1).0 + 4095) ≡ 0)

pub process_create-LacksPage :
    (hhdm_offset entry pagemap name : ℕ) (k : Kernel)
    → (process_create hhdm_offset entry pagemap name k).0 ≡ 0
    → LacksPage hhdm_offset k.machine
unfolding process_create
process_create-LacksPage hhdm_offset entry pagemap name k null =
    let (page, m1) = request_page hhdm_offset k.machine in
    elim (ℕ_discrete (higher_half hhdm_offset page) 0) [
      | yes lacks ↦ inl lacks
      | no there ↦ inr (ground (arith, null, there))
    ]

pub process_create-gives :
    (hhdm_offset entry pagemap name : ℕ) (k : Kernel)
    → (process_create hhdm_offset entry pagemap name k).0 ≢ 0
    → ¬ LacksPage hhdm_offset k.machine
unfolding process_create
process_create-gives hhdm_offset entry pagemap name k given (inl lacks) = given (rw lacks refl)
process_create-gives hhdm_offset entry pagemap name k given (inr lacks) =
    ground (arith, given, lacks)

-- The kernel `k'` has one process more than `k`, which is to run from `entry` in the page map.
pub record IsListed (entry pagemap : ℕ) (k k' : Kernel) : Type 0 where
  pub count : k'.process_count ≡ u32 (k.process_count + 1)
  pub state : (k'.table (k'.processes k.process_count)).state ≡ new
  pub root : (k'.table (k'.processes k.process_count)).pagemap ≡ pagemap
  pub start : (k'.table (k'.processes k.process_count)).ctx.rip ≡ entry
  pub others : (i : ℕ) → k.process_count ≢ i → k'.processes i ≡ k.processes i

abbrev pub listed : ℕ × Kernel → Kernel
listed (proc, k') = record k' {
  processes = store k'.processes k'.process_count proc;
  process_count = u32 (k'.process_count + 1);
}

pub listed-IsListed :
    (entry pagemap name : ℕ) (k : Kernel) (proc : ℕ) (k' : Kernel)
    → IsCreated entry pagemap name k (proc, k')
    → IsListed entry pagemap k (listed (proc, k'))
unfolding store
listed-IsListed entry pagemap name k proc k' made =
    let last : store k'.processes k'.process_count proc k.process_count ≡ proc =
      ground (arith, made.count) in
    record {
      count = ap (λ n. u32 (n + 1)) made.count;
      state = ap (λ p. (k'.table p).state) last ∙ made.state;
      root = ap (λ p. (k'.table p).pagemap) last ∙ made.root;
      start = ap (λ p. (k'.table p).ctx.rip) last ∙ made.start;
      others = λ i ne. ground (arith, made.count, ap (λ (f : ℕ → ℕ). f i) made.list, ne);
    }

-- A new page map is the first free page, as the kernel addresses it.
pub new_pagemap-address :
    (hhdm_offset kernel_pagemap p : ℕ) (ps : List ℕ) (m : Machine)
    → free_list m ≡ p ∷ ps
    → (new_pagemap hhdm_offset kernel_pagemap m).0 ≡ higher_half hhdm_offset p
unfolding new_pagemap pop_list
new_pagemap-address hhdm_offset kernel_pagemap p ps m free =
    let first : (request_page hhdm_offset m).0 ≡ p =
      ap (λ r. r.0) ((request_page_refines hhdm_offset m).0) ∙ ap (λ l. (pop_list l).0) free in
    elim (Bool-cases (higher_half hhdm_offset (request_page hhdm_offset m).0 == 0)) [
      | inl null ↦ rw null (sym ((==_iff _ _).0 null) ∙ ap (higher_half hhdm_offset) first)
      | inr there ↦ rw there (ap (higher_half hhdm_offset) first)
    ]

-- What the loader answers is the entry of the header, unless it is 0.
pub elf_load-entry :
    (hhdm_offset content pagemap : ℕ) (s : Store)
    → let (entry, s') = elf_load hhdm_offset content pagemap s in
      entry ≢ 0 → entry ≡ e_entry content s'.bytes
unfolding elf_load
elf_load-entry hhdm_offset content pagemap s given = ground (arith, given)

-- What is no executable, has a segment that does not load, or starts at 0.
abbrev pub IsRefused : ℕ → ℕ → ℕ → Store → Type 0
IsRefused hhdm_offset content pagemap s =
    let ph = u64 (content + e_phoff content s.bytes) in
    let (complete, s') = load_segments hhdm_offset (e_phnum content s.bytes) ph content pagemap s in
    (e_magic content s.bytes ≢ 0x464C457F)
    ⊎ (e_class content s.bytes ≢ 2)
    ⊎ (complete ≡ false)
    ⊎ (e_entry content s'.bytes ≡ 0)

pub elf_load-IsRefused :
    (hhdm_offset content pagemap : ℕ) (s : Store)
    → (elf_load hhdm_offset content pagemap s).0 ≡ 0
    → IsRefused hhdm_offset content pagemap s
unfolding elf_load
elf_load-IsRefused hhdm_offset content pagemap s null =
    elim (ℕ_discrete (e_magic content s.bytes) 0x464C457F) [
      | no magic ↦ inl magic
      | yes magic ↦ elim (ℕ_discrete (e_class content s.bytes) 2) [
        | no class ↦ inr (inl class)
        | yes class ↦
            let ph = u64 (content + e_phoff content s.bytes) in
            let complete =
              (load_segments hhdm_offset (e_phnum content s.bytes) ph content pagemap s).0 in
            elim (Bool-cases complete) [
              | inr partial ↦ inr (inr (inl partial))
              | inl whole ↦ inr (inr (inr (ground (arith, null, magic, class, whole))))
            ]
      ]
    ]
