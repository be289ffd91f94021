-- ===== src/Devices/Tests.antt =====
-- Runs of the device manager and of the keyboard, and the theorems at them.
use mathlib.Core.List.{Sublistᴰ}
use nekonix.Base.{ℕ, false, ◌≡◌, ◌≢◌, ◌<◌, ◌≤◌, ◌+◌, ◌⊎◌, refl, none, some, List, [], ◌∷◌, arith}
use nekonix.Devices.{
  Handle, Registry, done, failed, Key, device_register, device_get, device_manager_init,
  keyboard_handler, keymap, place,
}
use nekonix.Devices.Manager.{Reached, device_register_lem}
use nekonix.Devices.Keyboard.{Event, interrupt, read, pressed, session, session-Sublist}

abbrev stdout : Handle ℕ
stdout = record { id = 0; poll = λ s. 0; read = λ buf s. (0, s); write = λ buf n s. s + n }

abbrev stdin : Handle ℕ
stdin = record { id = 1; poll = λ s. 1; read = λ buf s. (0, s); write = λ buf n s. s }

abbrev no_device : Registry ℕ
no_device i = none

abbrev booted : Registry ℕ
booted =
    (device_register (some stdin)
      (device_register (some stdout) (device_manager_init no_device)).1).1

booted-Reached : Reached booted
booted-Reached =
    Reached.register (some stdin) (Reached.register (some stdout) (Reached.start no_device))

booted-stdin : device_get 1 booted ≡ some stdin
unfolding device_get device_register device_manager_init place
booted-stdin = refl

device_register_lem_example :
    (device_register none no_device ≡ (failed, no_device))
    × (((stdin.id < 256)
          × (device_get stdin.id no_device ≡ none)
          × ((device_register (some stdin) no_device).0 ≡ done)
          × (device_get stdin.id (device_register (some stdin) no_device).1 ≡ some stdin)
          × ((id : ℕ)
              → id ≢ stdin.id
              → device_get id (device_register (some stdin) no_device).1 ≡ device_get id no_device))
        ⊎ (((256 ≤ stdin.id) ⊎ ((g : Handle ℕ) × (device_get stdin.id no_device ≡ some g)))
            × (device_register (some stdin) no_device ≡ (failed, no_device))))
device_register_lem_example = device_register_lem stdin no_device

abbrev name_address : ℕ → ℕ
name_address n = 4096 + n

abbrev no_key : Key
no_key = record { sym = 0; scancode = 0; released = false }

-- The first byte of the arrow keys reads behind the end of the keymap.
extended_key : keyboard_handler name_address 0xE0 ≡ none
unfolding keyboard_handler keymap
extended_key = refl

-- `A` is pressed, read and released, and `S` comes before the release was read.
abbrev typing : List Event
typing = interrupt 0x1E ∷ read ∷ read ∷ interrupt 0x9E ∷ interrupt 0x1F ∷ read ∷ []

session-Sublist_example :
    (out : List Key) × (keys : List Key) × (session name_address no_key typing ≡ some out)
    × (pressed name_address typing ≡ some keys)
    × Sublistᴰ out keys
session-Sublist_example =
    session-Sublist name_address typing no_key (omega arith, (omega arith, (omega arith, tt))) refl
