-- ===== src/Hvfs/Open.antt =====
-- A descriptor that `open` gives reads the file that its path leads to.
use nekonix.Base.{
  ℕ, zero, suc, ◌+◌, ◌<◌, ◌≤◌, ◌≡◌, ◌≢◌, ◌∙◌, min, List, [], ◌∷◌, some, false, length, ne→==, refl,
  ◌⊎◌, ◌^◌,
}
use nekonix.Strings.{Bytes}
use nekonix.Strings.Copy.{IsCopied}
use nekonix.Vfs.{Nodes, same_name}
use nekonix.Vfs.Paths.{slash, vfs_lookup}
use nekonix.Vfs.Lookup.{components, descend, vfs_lookup-descend}
use nekonix.Hvfs.{File, count, open', read}
use nekonix.Hvfs.Transfer.{IsOpen, read-IsCopied}

-- What a descriptor for both reading and writing is, of the file at `v`.
abbrev pub descriptor : ℕ → File
descriptor v = record { uid = 0; vnode = v; mode = 2 }

open_lem :
    (rounds fuel root copy fd : ℕ) (path : List ℕ) (t : Nodes) (v : ℕ)
    → fd ≢ 0
    → v ≢ 0
    → vfs_lookup rounds fuel root copy (some path) t ≡ some v
    → open' rounds fuel root copy fd (some path) 2 t ≡ some (some (descriptor v))
unfolding open'
open_lem rounds fuel root copy fd path t zero at_fd there found = absurd (there refl)
open_lem rounds fuel root copy fd path t (suc v) at_fd there found =
    rw (ne→== _ _ at_fd, found) refl

-- The pieces of a path lead from the root to a file that the user 0 may read and write, below 2 ^ 32
-- bytes. Then opening the path for both gives a descriptor, when the heap has memory for it and for the
-- copy of the path, and a read of that descriptor copies the first bytes of the file to the buffer, as
-- many as are asked for and are there, and answers their number, when the buffer does not lie inside
-- what is read.
pub open-read-IsCopied :
    (rounds fuel root copy fd : ℕ) (path : List ℕ) (t : Nodes) (v buffer size : ℕ) (m : Bytes)
    → root ≢ 0
    → copy ≢ 0
    → fd ≢ 0
    → same_name path (slash ∷ []) ≡ false
    → length path < rounds
    → descend fuel root (components path) t ≡ some v
    → IsOpen (descriptor v) t
    → (t v).size < 2 ^ 32
    → (buffer ≤ (t v).data') ⊎ ((t v).data' + (t v).size ≤ buffer)
    → (f : File) × (m' : Bytes) × (open' rounds fuel root copy fd (some path) 2 t ≡ some (some f))
      × (read (some f) buffer size t m ≡ some (count (min size (t v).size), m'))
      × IsCopied (min size (t v).size) buffer (t v).data' m m'
open-read-IsCopied rounds fuel root copy fd path t v buffer size m at_root at_copy at_fd other
      enough found ok small apart =
    let (m', reads, copied) = read-IsCopied (descriptor v) buffer size t m ok small apart in
    let looked = vfs_lookup-descend rounds fuel root copy path t at_root at_copy other enough in
    (
      descriptor v,
      m',
      open_lem rounds fuel root copy fd path t v at_fd ok.found (looked ∙ found),
      reads,
      copied,
    )
