-- ===== src/Scheduler/Launch.antt =====
-- A process that runs a file, scheduler_create_elf_process of kernel/src/proc/scheduler.c. What the heap
-- gives for the descriptor, the copy of the path and the content of the file is a parameter. `none` is the
-- dereference of a null pointer, or a walk that is out of fuel.
pub mod Parts
pub mod Listed
mod Tests
use nekonix.Base.{ℕ, ◌+◌, not, Option, none, some, List, leb, ◌==◌, if◌then◌else◌, u32}
use nekonix.Pmm.{store}
use nekonix.Vmm.{new_pagemap}
use nekonix.Strings.{Bytes}
use nekonix.Vfs.{Nodes}
use nekonix.Hvfs.{hvfs_permission_check, open', read}
use nekonix.Elf.{elf_load}
use nekonix.Scheduler.{Kernel, max_processes, process_create}

-- The addresses that the heap gives.
pub record Heap : Type 0 where
  pub copy : ℕ
  pub fd : ℕ
  pub content : ℕ

abbrev pub read_only : ℕ
read_only = 0

-- `init->vnode->permissions & VNODE_PERMS_OWNER_EXECUTE` for the user 0.
abbrev pub execute : ℕ
execute = 4

module _ (hhdm_offset : ℕ) where
  -- From vmm_new_pagemap on, with the file at `content`.
  unfoldable pub launch : ℕ → ℕ → ℕ → Bytes → Kernel → Option (ℕ × Kernel × Bytes)
  launch kernel_pagemap name content bytes k =
      let (pagemap, m) = new_pagemap hhdm_offset kernel_pagemap k.machine in
      let (entry, s) =
        elf_load hhdm_offset content pagemap (record { machine = m; bytes = bytes }) in
      let loaded = record k { machine = s.machine } in
      let (proc, k') = process_create hhdm_offset entry pagemap name loaded in
      let listed = record k' {
        processes = store k'.processes k'.process_count proc;
        process_count = u32 (k'.process_count + 1);
      } in
      if entry == 0
      then some (0, loaded, s.bytes)
      else if proc == 0
      then none
      else some ((listed.table proc).pid, listed, s.bytes)

module _ (hhdm_offset rounds fuel root : ℕ) where
  -- The answer is the number of the process, or 0.
  unfoldable pub create_elf_process :
      ℕ → Heap → Option (List ℕ) → ℕ → Nodes → Bytes → Kernel → Option (ℕ × Kernel × Bytes)
  create_elf_process kernel_pagemap heap path name t bytes k =
      let opened : Option (ℕ × Kernel × Bytes) =
        elim (open' rounds fuel root heap.copy heap.fd path read_only t) [
          | none ↦ none
          | some none ↦ some (0, k, bytes)
          | some (some init) ↦
              if not (hvfs_permission_check init.vnode 0 execute t)
              then some (0, k, bytes)
              else elim (read (some init) heap.content (t init.vnode).size t bytes) [
                | none ↦ none
                | some (_, bytes') ↦ launch hhdm_offset kernel_pagemap name heap.content bytes' k
              ]
        ] in
      if leb max_processes k.process_count then some (0, k, bytes) else opened
