-- ===== src/Serial.antt =====
-- Serial ports, kernel/src/dev/serial_util.c and serial_putchar of kernel/src/main.c. The bytes that are sent
-- are listed with their ports, in order; what a port gives back for the test byte is a parameter.
pub mod Search
mod Tests
use nekonix.Base.{
  ℕ, zero, suc, ◌+◌, Bool, true, false, Option, none, some, List, [], ◌∷◌, ◌++◌, ◌==◌,
  if◌then◌else◌,
}
use nekonix.Strings.{Bytes}

abbrev pub Sent : Type 0
Sent = List (ℕ × ℕ)

unfoldable pub serial_putchar : ℕ → ℕ → Sent
serial_putchar port c = if c == 10 then (port, c) ∷ (port, 13) ∷ [] else (port, c) ∷ []

-- The walk along the string has fuel.
unfoldable pub outstr : ℕ → ℕ → ℕ → Bytes → Option Sent
outstr zero port str m = none
outstr (suc fuel) port str m =
    let rest = outstr fuel port (str + 1) m in
    if m str == 0 then some [] else elim rest [
      | none ↦ none
      | some sent ↦
          if m str == 10
          then some ((port, m str) ∷ (0x3F8, 13) ∷ sent)
          else some ((port, m str) ∷ sent)
    ]

-- Up to the test byte; the port is in loopback mode then.
abbrev pub setup : ℕ → Sent
setup port =
    (port + 1, 0x00)
    ∷ (port + 3, 0x80)
    ∷ (port, 0x03)
    ∷ (port + 1, 0x00)
    ∷ (port + 3, 0x03)
    ∷ (port + 2, 0xC7)
    ∷ (port + 4, 0x0B)
    ∷ (port + 4, 0x1E)
    ∷ (port, 0xAE)
    ∷ []

-- Whether the port answers.
unfoldable pub init_serial : (ℕ → ℕ) → ℕ → Bool × Sent
init_serial answer port =
    if answer port == 0xAE
    then (true, setup port ++ ((port + 4, 0x0F) ∷ []))
    else (false, setup port)

-- The loop over the ports.
unfoldable pub first_answering : (ℕ → ℕ) → List ℕ → ℕ × Sent
first_answering answer [] = (0xE9, [])
first_answering answer (port ∷ ports) =
    let (works, sent) = init_serial answer port in
    let (found, later) = first_answering answer ports in
    if works then (port, sent) else (found, sent ++ later)

abbrev pub com_ports : List ℕ
com_ports = 0x3F8 ∷ 0x2F8 ∷ 0x3E8 ∷ 0x2E8 ∷ 0x5F8 ∷ 0x4F8 ∷ 0x5E8 ∷ 0x4E8 ∷ []

unfoldable pub serial_get_new : (ℕ → ℕ) → ℕ × Sent
serial_get_new answer = first_answering answer com_ports
