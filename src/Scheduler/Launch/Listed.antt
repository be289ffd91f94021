-- ===== src/Scheduler/Launch/Listed.antt =====
-- A file that is run becomes the last process of the list.
use nekonix.Base.{ℕ, ◌≡◌, ◌≢◌, ◌⊎◌, Option, some, none}
use nekonix.Strings.{Bytes}
use nekonix.Vmm.{new_pagemap}
use nekonix.Elf.{Store, e_entry, elf_load}
use nekonix.Scheduler.{Kernel, process_create}
use nekonix.Scheduler.Launch.Parts.{LacksPage, IsListed, IsRefused}

module _ (hhdm_offset kernel_pagemap name content : ℕ) (bytes : Bytes) (k : Kernel) where
  -- The new page map, and the machine after the file is loaded into it.
  abbrev pagemap : ℕ
  pagemap = (new_pagemap hhdm_offset kernel_pagemap k.machine).0

  abbrev pub loading : ℕ × Store
  loading =
      elf_load hhdm_offset content pagemap
        (record { machine = (new_pagemap hhdm_offset kernel_pagemap k.machine).1; bytes = bytes })

  abbrev loaded : Kernel
  loaded = record k { machine = loading.1.machine }

  abbrev creating : ℕ × Kernel
  creating = process_create hhdm_offset loading.0 pagemap name loaded

  -- The answers: 0 for a file that does not load, the null pointer where there is no process
  -- structure, and otherwise the number of the new process.
  abbrev pub IsLaunched : ℕ → Option (ℕ × Kernel × Bytes) → Type 0
  IsLaunched root answer =
      ((loading.0 ≡ 0)
        × IsRefused hhdm_offset content pagemap (record {
          machine = (new_pagemap hhdm_offset kernel_pagemap k.machine).1;
          bytes = bytes;
        })
        × (answer ≡ some (0, record k { machine = loading.1.machine }, loading.1.bytes)))
      ⊎ ((loading.0 ≢ 0)
          × (loading.0 ≡ e_entry content loading.1.bytes)
          × ((LacksPage hhdm_offset loading.1.machine × (answer ≡ none))
              ⊎ ((¬ LacksPage hhdm_offset loading.1.machine)
                  × (k' : Kernel) × (answer ≡ some (k.pid_counter, k', loading.1.bytes))
                  × IsListed loading.0 root k k')))
