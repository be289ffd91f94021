-- ===== src/Devices.antt =====
-- The device manager, kernel/src/proc/manager.c, and the keyboard, kernel/src/devices/stdin.c. A
-- handle is its functions over a state `S` of the devices; a pointer to one may be null, `none`.
pub mod Manager
pub mod Keyboard
mod Tests
use nekonix.Base.{
  ℕ, ◌≡◌, Bool, true, false, not, ◌&&◌, ◌||◌, Option, none, some, ltb, leb, ◌==◌, if◌then◌else◌,
  bit_and,
}

abbrev pub ready : ℕ
ready = 0

abbrev pub busy : ℕ
busy = 1

abbrev pub max_devices : ℕ
max_devices = 256

-- `handle_t`: what `poll`, `read` and `write` answer and leave.
pub record Handle (S : Type 0) : Type 0 where
  pub id : ℕ
  pub poll : S → ℕ
  pub read : ℕ → S → ℕ × S
  pub write : ℕ → ℕ → S → S

-- The array `devices`.
abbrev pub Registry : Type 0 → Type 0
Registry S = ℕ → Option (Handle S)

-- `failed` is the answer -1, and `done` 0.
pub data Status : Type 0 where
  done failed : Status

module _ {S : Type 0} where
  -- `devices[i] = h`
  unfoldable pub place : ℕ → Option (Handle S) → Registry S → Registry S
  place i h r j = if i == j then h else r j

  unfoldable pub device_manager_init : Registry S → Registry S
  device_manager_init r i = if ltb i max_devices then none else r i

  unfoldable pub device_register : Option (Handle S) → Registry S → Status × Registry S
  device_register none r = (failed, r)
  device_register (some h) r =
      if leb max_devices h.id
      then (failed, r)
      else elim (r h.id) [ some other ↦ (failed, r) | none ↦ (done, place h.id (some h) r) ]

  unfoldable pub device_get : ℕ → Registry S → Option (Handle S)
  device_get id r = if leb max_devices id then none else r id

  unfoldable pub device_unregister : ℕ → Registry S → Status × Registry S
  device_unregister id r =
      if leb max_devices id
      then (failed, r)
      else elim (r id) [ none ↦ (failed, r) | some h ↦ (done, place id none r) ]

-- `key_t`; the name is kept by its address.
pub record Key : Type 0 where
  pub sym : ℕ
  pub scancode : ℕ
  pub released : Bool

-- The scancodes that `keymap` gives a name.
unfoldable pub is_named : ℕ → Bool
is_named n =
    (leb 0x01 n && leb n 0x19)
    || (leb 0x1C n && leb n 0x27)
    || (leb 0x29 n && leb n 0x2A)
    || (leb 0x2C n && leb n 0x35)
    || (leb 0x39 n && leb n 0x3B)
    || (leb 0x57 n && leb n 0x58)

-- Where the names stand in memory is the linker's choice.
module _ (name_address : ℕ → ℕ) where
  -- `keymap[n]`, an array of 0x59 pointers: `none` is a read behind its end.
  unfoldable pub keymap : ℕ → Option ℕ
  keymap n = if leb 0x59 n then none else some (if is_named n then name_address n else 0)

  -- The key that the interrupt stores for the byte that the port gave.
  unfoldable pub keyboard_handler : ℕ → Option Key
  keyboard_handler data' = elim (keymap (bit_and data' 0x7F)) [
    | none ↦ none
    | some sym ↦ some (record {
      sym = sym;
      scancode = bit_and data' 0x7F;
      released = not (bit_and data' 0x80 == 0);
    })
  ]

unfoldable pub stdin_poll : Key → ℕ
stdin_poll key = if key.sym == 0 then busy else ready

-- The key that is written to the buffer, the answer, and the key that is left.
unfoldable pub stdin_read : Key → Option Key × ℕ × Key
stdin_read key = if key.sym == 0 then (none, 0, key) else (some key, 1, record key { sym = 0 })
