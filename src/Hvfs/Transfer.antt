-- ===== src/Hvfs/Transfer.antt =====
-- Lemmas on a read and a write of an open file.
use nekonix.Base.{
  ℕ, ◌+◌, ◌^◌, ◌≡◌, ◌≢◌, ◌≤◌, ◌<◌, ◌⊎◌, refl, min, arith, some, true, false, u32, ltb, leb,
  if◌then◌else◌,
}
use nekonix.Strings.{Bytes, memcpy}
use nekonix.Strings.Copy.{IsCopied, memcpy-IsCopied}
use nekonix.Vfs.{Nodes, file}
use nekonix.Vfs.Children.{zero-test}
use nekonix.Vfs.Content.{vfs_write}
use nekonix.Hvfs.{File, count, hvfs_permission_check, read, write}

-- A file that is open for both, and that its user may read and write.
pub record IsOpen (f : File) (t : Nodes) : Type 0 where
  pub both : f.mode ≡ 2
  pub found : f.vnode ≢ 0
  pub is_file : (t f.vnode).type ≡ file
  pub may_read : hvfs_permission_check f.vnode f.uid 1 t ≡ true
  pub may_write : hvfs_permission_check f.vnode f.uid 2 t ≡ true

bytes-min : (a b : ℕ) → (if ltb a b then a else b) ≡ min b a
bytes-min a b = ground arith

min_small : (a b : ℕ) → b < 2 ^ 32 → u32 (min a b) ≡ min a b
min_small a b h = omega (arith, h)

past : (a b : ℕ) → b < 2 ^ 32 → a < b → leb (u32 (0 + u32 b)) a ≡ false
past a b small h = ground (arith, small, h)

no_memory :
    (node buffer size : ℕ) (t : Nodes) (m : Bytes)
    → node ≢ 0
    → buffer ≢ 0
    → size < 2 ^ 32
    → (t node).size < size
    → vfs_write node 0 (u32 size) buffer 0 t m ≡ (1, t, m)
unfolding vfs_write
no_memory node buffer size t m nz bz small grows =
    rw (zero-test node nz, zero-test buffer bz, past (t node).size size small grows) refl

-- A read of an open file copies its first bytes to the buffer, as many as are asked for and are
-- there, answers their number below 2 ^ 32 and changes nothing else, when the buffer does not lie
-- inside what is read.
pub read-IsCopied :
    (f : File) (buffer size : ℕ) (t : Nodes) (m : Bytes)
    → IsOpen f t
    → (t f.vnode).size < 2 ^ 32
    → (buffer ≤ (t f.vnode).data') ⊎ ((t f.vnode).data' + (t f.vnode).size ≤ buffer)
    → (m' : Bytes) × (read (some f) buffer size t m ≡ some (count (min size (t f.vnode).size), m'))
      × IsCopied (min size (t f.vnode).size) buffer (t f.vnode).data' m m'
unfolding read
read-IsCopied f buffer size t m ok small apart = (
  memcpy (min size (t f.vnode).size) buffer (t f.vnode).data' m,
  rw
      (
        ok.both,
        zero-test f.vnode ok.found,
        ok.is_file,
        ok.may_read,
        bytes-min (t f.vnode).size size,
        min_small size (t f.vnode).size small,
      )
      refl,
  memcpy-IsCopied _ buffer (t f.vnode).data' m (omega (arith, apart)),
)

-- A write for which no memory is left to grow the file into answers 1, as if it had written a byte,
-- and changes nothing.
pub write_fails_quietly :
    (f : File) (buffer size : ℕ) (t : Nodes) (m : Bytes)
    → IsOpen f t
    → buffer ≢ 0
    → size < 2 ^ 32
    → (t f.vnode).size < size
    → write (some f) buffer size 0 t m ≡ some (count 1, t, m)
unfolding write
write_fails_quietly f buffer size t m ok bz small grows =
    rw
      (
        ok.both,
        zero-test f.vnode ok.found,
        ok.is_file,
        ok.may_write,
        no_memory f.vnode buffer size t m ok.found bz small grows,
      )
      refl
