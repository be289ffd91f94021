-- ===== src/Vmm/Range.antt =====
-- The loops of vmm_init that map a region page by page.
use nekonix.Base.{ℕ, ◌+◌, ◌-◌, ◌*◌, ◌/◌, ◌%◌, ◌^◌, ◌≤◌, ◌<◌, ◌≡◌, ◌⊎◌, length}
use nekonix.Pmm.{Machine, page_size, align_up, align_down}
use nekonix.Pmm.Pages.{free_list}
use nekonix.Vmm.{virt_to_phys}
use nekonix.Vmm.Tree.{page_number}
use nekonix.Vmm.Init.{KernelImage}
use nekonix.Vmm.Space.{IsSpace}

-- `n` pages from `a` on lead to their targets, and the others where they did.
pub record IsMapped (hhdm_offset pagemap a n : ℕ) (target : ℕ → ℕ) (m m' : Machine) : Type 0 where
  pub space : IsSpace hhdm_offset pagemap m'
  pub enough : length (free_list m) ≤ length (free_list m') + 3 * n
  pub inside :
      (k v : ℕ)
      → k < n
      → page_number v ≡ page_number a + k
      → virt_to_phys hhdm_offset m'.memory pagemap v ≡ target (a + 4096 * k)
  pub outside :
      (v : ℕ)
      → (page_number v < page_number a) ⊎ (page_number a + n ≤ page_number v)
      → virt_to_phys hhdm_offset m'.memory pagemap v ≡ virt_to_phys hhdm_offset m.memory pagemap v

-- The kernel is loaded in whole pages below 2 ^ 52, and the region lies behind its base.
pub record IsRegion (image : KernelImage) (start end : ℕ) : Type 0 where
  pub ordered : start ≤ end
  pub behind : image.virt_base ≤ start
  pub virt_aligned : image.virt_base % 4096 ≡ 0
  pub phys_aligned : image.phys_base % 4096 ≡ 0
  pub no_wrap : end + 2 ^ 13 < 2 ^ 64
  pub loaded : image.phys_base + (end - image.virt_base) + 4096 < 2 ^ 52

-- The pages of a region.
abbrev pub pages_of : ℕ → ℕ → ℕ
pages_of start end = (align_up end page_size - align_down start page_size) / 4096
