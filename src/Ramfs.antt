-- ===== src/Ramfs.antt =====
-- The reader of the initial archive, kernel/src/fs/ramfs.c. The archive stands in a memory of bytes; a
-- name is the list of its bytes, cut at slashes as strtok does, and the zeros that strtok writes into
-- the archive are left out. What the heap and the clock give for each new node is a parameter.
pub mod Names
pub mod Files
pub mod Flat
pub mod Entry
pub mod Parse
pub mod Init
pub mod Modes
pub mod Offsets
mod Tests
use nekonix.Base.{
  ℕ, zero, suc, ◌+◌, ◌*◌, ◌/◌, ◌^◌, Bool, true, false, not, ◌||◌, Option, none, some, List, [], ◌∷◌,
  ltb, ◌==◌, if◌then◌else◌, bit_and, bit_or, u32, u64,
}
use nekonix.Strings.{Bytes}
use nekonix.Text.{strtol}
use nekonix.Vfs.{
  Nodes, Vnode, NodeType, directory, file, Status, done, failed, set_node, same_name, vfs_create,
  vfs_search_node,
}
use nekonix.Vfs.Paths.{slash, skip_slashes, cut_token}

-- What a new node gets: two addresses of the heap, and the time, read by vfs_create and again.
pub record Fresh : Type 0 where
  pub node : ℕ
  pub copy : ℕ
  pub created : ℕ
  pub stamped : ℕ

-- `ramfs_data`, `ramfs_size`, the nodes, and how many of them were made.
pub record Ramfs : Type 0 where
  pub data' : ℕ
  pub size : ℕ
  pub nodes : Nodes
  pub made : ℕ

abbrev pub header_size : ℕ
header_size = 512

-- The places of the fields of `ustar_header_t`.
abbrev pub mode_field : ℕ
mode_field = 100

abbrev pub size_field : ℕ
size_field = 124

abbrev pub typeflag_field : ℕ
typeflag_field = 156

abbrev pub flag_if : ℕ → ℕ → ℕ → ℕ
flag_if mode bit perms = if bit_and mode bit == 0 then 0 else perms

-- The permissions of a node from the mode of its entry.
unfoldable pub permissions_of : ℕ → ℕ
permissions_of mode =
    let owner =
      bit_or (flag_if mode 256 0x1) (bit_or (flag_if mode 128 0x2) (flag_if mode 64 0x4)) in
    let group =
      bit_or (flag_if mode 32 0x10) (bit_or (flag_if mode 16 0x20) (flag_if mode 8 0x40)) in
    let others =
      bit_or (flag_if mode 4 0x100) (bit_or (flag_if mode 2 0x200) (flag_if mode 1 0x400)) in
    bit_or owner (bit_or group others)

-- The string at `p`, up to its terminator.
unfoldable pub string_at : ℕ → ℕ → Bytes → Option (List ℕ)
string_at zero p m = none
string_at (suc fuel) p m =
    let rest = string_at fuel (p + 1) m in
    if m p == 0 then some [] else elim rest [ none ↦ none | some cs ↦ some (m p ∷ cs) ]

-- The name without a leading `./`.
unfoldable pub strip_dot : List ℕ → List ℕ
strip_dot (c ∷ d ∷ cs) = if c == 46 then (if d == slash then cs else c ∷ d ∷ cs) else c ∷ d ∷ cs
strip_dot cs = cs

-- `offset += USTAR_HEADER_SIZE + ((file_size + 511) & ~511)`; the sum has 32 bits.
unfoldable pub next_offset : ℕ → ℕ → ℕ
next_offset file_size offset = u64 (offset + u32 (header_size + u32 (file_size + 511) / 512 * 512))

-- How the loop over the components of a name ends: all of them are there, one is missing, or a directory
-- could not be made.
pub data Walk : Type 0 where
  reached : ℕ → Walk
  missing : ℕ → List ℕ → Walk
  broken : Walk

module _ (supply : ℕ → Fresh) where
  -- vfs_create and the second time stamp.
  unfoldable pub make_node : ℕ → ℕ → List ℕ → NodeType → ℕ → Ramfs → Option (Status × Ramfs)
  make_node fuel parent name type perms r =
      let new = supply r.made in
      elim (vfs_create fuel parent (some name) type perms 1 new.node new.copy new.created r.nodes) [
        | none ↦ none
        | some (failed, t) ↦ some (failed, record r { nodes = t; made = r.made + 1 })
        | some (done, t) ↦
            let stamped =
              set_node t new.node (record (t new.node) { creation_time = new.stamped }) in
            some (done, record r { nodes = stamped; made = r.made + 1 })
      ]

  -- `while (token != NULL)`; the directories of a directory entry are made where they are missing.
  unfoldable pub walk_name : ℕ → ℕ → Bool → ℕ → ℕ → List ℕ → Ramfs → Option (Walk × Ramfs)
  walk_name zero fuel is_directory perms parent path r = none
  walk_name (suc rounds) fuel is_directory perms parent path r = elim (skip_slashes path) [
    | [] ↦ some (reached parent, r)
    | c ∷ cs ↦
        let (token, rest) = cut_token (c ∷ cs) in
        elim (vfs_search_node fuel parent (some token) r.nodes) [
          | none ↦ none
          | some (suc subdir) ↦ walk_name rounds fuel is_directory perms (suc subdir) rest r
          | some zero ↦
              if not is_directory
              then some (missing parent token, r)
              else elim (make_node fuel parent token directory perms r) [
                | none ↦ none
                | some (failed, r') ↦ some (broken, r')
                | some (done, r') ↦
                    walk_name rounds fuel is_directory perms (supply r.made).node rest r'
              ]
        ]
  ]

  -- A file entry: nothing is done where a node of the name is there.
  unfoldable pub make_file : ℕ → ℕ → ℕ → ℕ → Walk → Ramfs → Option (Status × Ramfs)
  make_file fuel perms content file_size (reached node) r = some (done, r)
  make_file fuel perms content file_size broken r = some (failed, r)
  make_file fuel perms content file_size (missing parent name) r =
      let node = (supply r.made).node in
      elim (make_node fuel parent name file perms r) [
        | none ↦ none
        | some (failed, r') ↦ some (failed, r')
        | some (done, r') ↦
            let v = record (r'.nodes node) { data' = content; size = file_size } in
            some (done, record r' { nodes = set_node r'.nodes node v })
      ]

  unfoldable pub make_entry : ℕ → ℕ → Bool → ℕ → List ℕ → ℕ → ℕ → Ramfs → Option (Status × Ramfs)
  make_entry fuel parent is_directory mode name content file_size r =
      let perms = permissions_of mode in
      elim (walk_name fuel fuel is_directory perms parent name r) [
        | none ↦ none
        | some (reached node, r') ↦
            if is_directory
            then some (done, r')
            else make_file fuel perms content file_size (reached node) r'
        | some (missing node token, r') ↦
            make_file fuel perms content file_size (missing node token) r'
        | some (broken, r') ↦ some (failed, r')
      ]

  -- One round of the loop over the archive, at an entry with a name.
  unfoldable pub parse_entry : ℕ → ℕ → ℕ → ℕ → Bytes → Ramfs → Option (Status × ℕ × Ramfs)
  parse_entry fuel parent offset file_size m r =
      let header = r.data' + offset in
      elim (strtol fuel (header + mode_field) 8 m) [
        | none ↦ none
        | some (mode, _) ↦ elim (string_at fuel header m) [
          | none ↦ none
          | some whole ↦
              let name = strip_dot whole in
              let made =
                make_entry fuel parent (m (header + typeflag_field) == 53) (u32 mode) name
                  (header + header_size) file_size r in
              if same_name name [] || same_name name (46 ∷ [])
              then some (done, next_offset file_size offset, r)
              else elim made [
                | none ↦ none
                | some (status, r') ↦ some (status, next_offset file_size offset, r')
              ]
        ]
      ]

  unfoldable pub parse_loop : ℕ → ℕ → ℕ → ℕ → Bytes → Ramfs → Option (Status × Ramfs)
  parse_loop zero fuel parent offset m r = none
  parse_loop (suc rounds) fuel parent offset m r =
      let header = r.data' + offset in
      let round : Option (Status × Ramfs) = elim (strtol fuel (header + size_field) 8 m) [
        | none ↦ none
        | some (file_size, _) ↦ elim (parse_entry fuel parent offset (u32 file_size) m r) [
          | none ↦ none
          | some (failed, _, r') ↦ some (failed, r')
          | some (done, offset', r') ↦ parse_loop rounds fuel parent offset' m r'
        ]
      ] in
      if not (ltb offset r.size)
      then some (done, r)
      else if m header == 0
      then some (done, r)
      else round

  unfoldable pub ramfs_parse : ℕ → ℕ → ℕ → Bytes → Ramfs → Option (Status × Ramfs)
  ramfs_parse rounds fuel parent m r =
      if r.data' == 0 || r.size == 0 then some (failed, r) else parse_loop rounds fuel parent 0 m r

  -- The root becomes an empty directory that all may read.
  unfoldable pub ramfs_init : ℕ → ℕ → ℕ → ℕ → ℕ → ℕ → Bytes → Ramfs → Option (Status × Ramfs)
  ramfs_init rounds fuel data' size root now m r =
      let old = r.nodes root in
      let emptied : Vnode = record old {
        type = directory;
        size = size;
        permissions = 0x557;
        child = 0;
        next = 0;
        creation_time = now;
      } in
      let mounted : Ramfs = record {
        data' = data';
        size = size;
        nodes = set_node r.nodes root emptied;
        made = r.made;
      } in
      if data' == 0 || size == 0
      then some (failed, r)
      else if root == 0
      then none
      else ramfs_parse rounds fuel root m mounted
