-- ===== src/Vfs/Content.antt =====
-- The content of files, vfs_read and vfs_write of kernel/src/dev/vfs.c, over the memory of bytes that
-- memcpy works on. Offsets and sizes are u32, and the size of a node is a u64.
use nekonix.Base.{
  ℕ, ◌+◌, ◌-◌, ◌^◌, ◌≡◌, ◌≢◌, ◌≤◌, ◌<◌, ◌⊎◌, ◌∙◌, inl, inr, refl, ap, min, max, arith, ltb, leb,
  ◌==◌, if◌then◌else◌, u32, Bool-cases, leb→le, leb→gt,
}
use nekonix.Strings.{Bytes, memcpy}
use nekonix.Strings.Copy.{IsCopied, memcpy-IsCopied}
use nekonix.Vfs.{Nodes, Vnode, set_node}
use nekonix.Vfs.Children.{set_node_self, zero-test}

-- The number of bytes that vfs_read copies.
unfoldable pub read_count : ℕ → ℕ → ℕ → ℕ
read_count node_size offset size =
    if ltb node_size (u32 (offset + size)) then u32 (node_size + 2 ^ 64 - offset) else size

-- The answer and the memory; the answer is the size, or 1 for a null pointer.
unfoldable pub vfs_read : ℕ → ℕ → ℕ → ℕ → Nodes → Bytes → ℕ × Bytes
vfs_read node offset size buffer t m =
    let n = read_count (t node).size offset size in
    if node == 0
    then (1, m)
    else if buffer == 0
    then (1, m)
    else (n, memcpy n buffer ((t node).data' + offset) m)

-- `new_data` is what krealloc gives, and `m` the memory that it leaves.
unfoldable pub vfs_write : ℕ → ℕ → ℕ → ℕ → ℕ → Nodes → Bytes → ℕ × Nodes × Bytes
vfs_write node offset size buffer new_data t m =
    let new_size = u32 (offset + size) in
    let grown = set_node t node (record (t node) { data' = new_data; size = new_size }) in
    if node == 0
    then (1, t, m)
    else if buffer == 0
    then (1, t, m)
    else if leb new_size (t node).size
    then (size, t, memcpy size ((t node).data' + offset) buffer m)
    else if new_data == 0
    then (1, t, m)
    else (size, grown, memcpy size (new_data + offset) buffer m)

read_count-inside :
    (node_size offset size : ℕ)
    → offset ≤ node_size
    → node_size < 2 ^ 32
    → offset + size < 2 ^ 32
    → read_count node_size offset size ≡ min size (node_size - offset)
unfolding read_count
read_count-inside node_size offset size h small fits = ground (arith, h, small, fits)

read_count-behind :
    (node_size offset size : ℕ)
    → node_size < offset
    → offset + size < 2 ^ 32
    → read_count node_size offset size ≡ 2 ^ 32 - (offset - node_size)
unfolding read_count
read_count-behind node_size offset size h fits = ground (arith, h, fits)

-- vfs_read from an offset within a file, with 32-bit ends, copies the bytes from there on into the
-- buffer, as many as are asked for and are there, answers their number and changes nothing else,
-- when the buffer does not lie inside what is read.
vfs_read-IsCopied :
    (node offset size buffer : ℕ) (t : Nodes) (m : Bytes)
    → node ≢ 0
    → buffer ≢ 0
    → offset ≤ (t node).size
    → (t node).size < 2 ^ 32
    → offset + size < 2 ^ 32
    → (buffer ≤ (t node).data' + offset) ⊎ ((t node).data' + (t node).size ≤ buffer)
    → ((vfs_read node offset size buffer t m).0 ≡ min size ((t node).size - offset))
      × IsCopied
          (min size ((t node).size - offset))
          buffer
          ((t node).data' + offset)
          m
          (vfs_read node offset size buffer t m).1
unfolding vfs_read
vfs_read-IsCopied node offset size buffer t m nz bz inside small fits apart =
    let same = read_count-inside (t node).size offset size inside small fits in
    rw (zero-test node nz, zero-test buffer bz, same)
      (refl, memcpy-IsCopied _ buffer ((t node).data' + offset) m (omega (arith, apart, inside)))

-- vfs_read from behind the end of a file asks memcpy for 2 ^ 32 bytes less the distance, where the
-- sum of offset and size does not wrap around: the check of the bound does not catch the offset.
pub vfs_read_overruns :
    (node offset size buffer : ℕ) (t : Nodes) (m : Bytes)
    → node ≢ 0
    → buffer ≢ 0
    → (t node).size < offset
    → offset + size < 2 ^ 32
    → vfs_read node offset size buffer t m ≡ (
      2 ^ 32 - (offset - (t node).size),
      memcpy (2 ^ 32 - (offset - (t node).size)) buffer ((t node).data' + offset) m,
    )
unfolding vfs_read
vfs_read_overruns node offset size buffer t m nz bz behind fits =
    rw
      (
        zero-test node nz,
        zero-test buffer bz,
        read_count-behind (t node).size offset size behind fits,
      )
      refl

-- vfs_write with 32-bit ends and memory to grow into answers the size, copies all of the buffer to
-- the offset and changes no other byte, and the file then ends at the old end or at the new one,
-- whichever is later, when neither place of the data overlaps the buffer from above.
vfs_write-IsCopied :
    (node offset size buffer new_data : ℕ) (t : Nodes) (m : Bytes)
    → node ≢ 0
    → buffer ≢ 0
    → new_data ≢ 0
    → offset + size < 2 ^ 32
    → ((t node).data' + offset ≤ buffer) ⊎ (buffer + size ≤ (t node).data' + offset)
    → (new_data + offset ≤ buffer) ⊎ (buffer + size ≤ new_data + offset)
    → (u : Nodes) × (m' : Bytes) × (vfs_write node offset size buffer new_data t m ≡ (size, u, m'))
      × ((u node).size ≡ max (t node).size (offset + size))
      × IsCopied size ((u node).data' + offset) buffer m m'
unfolding vfs_write
vfs_write-IsCopied node offset size buffer new_data t m nz bz dz fits old new =
    elim (Bool-cases (leb (u32 (offset + size)) (t node).size)) [
      | inl within ↦ (
        t,
        memcpy size ((t node).data' + offset) buffer m,
        rw (zero-test node nz, zero-test buffer bz, within) refl,
        omega (arith, fits, leb→le _ _ within),
        memcpy-IsCopied size _ buffer m old,
      )
      | inr grows ↦ (
        set_node t node (record (t node) { data' = new_data; size = u32 (offset + size) }),
        memcpy size (new_data + offset) buffer m,
        rw (zero-test node nz, zero-test buffer bz, grows, zero-test new_data dz) refl,
        ap (λ (v : Vnode). v.size) (set_node_self t node _) ∙ omega (arith, fits, leb→gt _ _ grows),
        rw (set_node_self t node (record (t node) { data' = new_data; size = u32 (offset + size) }))
            (memcpy-IsCopied size _ buffer m new),
      )
    ]
