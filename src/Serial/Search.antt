-- ===== src/Serial/Search.antt =====
-- Which port is found, and what reaches a port.
use nekonix.Base.{
  ℕ, zero, suc, ◌+◌, ◌≡◌, ◌≢◌, ◌<◌, ◌∙◌, ap, sym, refl, true, false, some, List, [], ◌∷◌, ◌++◌,
  ◌==◌, if◌then◌else◌, ne→==, ==_iff, arith, length, Bool-cases, inl, inr,
}
use nekonix.Strings.{Bytes}
use nekonix.Text.Content.{Holds}
use nekonix.Serial.{Sent, outstr, init_serial, first_answering}

abbrev AreSilent : (ℕ → ℕ) → List ℕ → Type 0
AreSilent answer [] = Unit {0}
AreSilent answer (port ∷ ports) = (answer port ≢ 0xAE) × AreSilent answer ports

first_answering-found :
    (answer : ℕ → ℕ) (silent : List ℕ) (port : ℕ) (rest : List ℕ)
    → AreSilent answer silent
    → answer port ≡ 0xAE
    → (first_answering answer (silent ++ (port ∷ rest))).0 ≡ port
unfolding first_answering init_serial
first_answering-found answer [] port rest quiet works = rw works refl
first_answering-found answer (p ∷ silent) port rest (ne, quiet) works =
    rw (ne→== _ _ ne) (first_answering-found answer silent port rest quiet works)

first_answering-none :
    (answer : ℕ → ℕ) (ports : List ℕ)
    → AreSilent answer ports
    → (first_answering answer ports).0 ≡ 0xE9
unfolding first_answering init_serial
first_answering-none answer [] quiet = refl
first_answering-none answer (p ∷ ports) (ne, quiet) =
    rw (ne→== _ _ ne) (first_answering-none answer ports quiet)

-- The bytes that reach a port.
abbrev pub sent_to : ℕ → Sent → List ℕ
sent_to port [] = []
sent_to port ((p, b) ∷ sent) = if p == port then b ∷ sent_to port sent else sent_to port sent

-- outstr to another port than the first sends that port the bytes of the string and no carriage return,
-- with fuel for the string.
outstr-sent_to :
    (fuel port str : ℕ) (cs : List ℕ) (m : Bytes)
    → Holds m str cs
    → length cs < fuel
    → port ≢ 0x3F8
    → (sent : Sent) × (outstr fuel port str m ≡ some sent) × (sent_to port sent ≡ cs)
unfolding outstr
outstr-sent_to zero port str cs m text enough other = absurd (omega arith)
outstr-sent_to (suc fuel) port str [] m end enough other = ([], rw end refl, refl)
outstr-sent_to (suc fuel) port str (c ∷ cs) m (here, nz, text) enough other =
    let (sent, out, same) = outstr-sent_to fuel port (str + 1) cs m text (omega arith) other in
    let self : (port == port) ≡ true = (==_iff _ _).1 refl in
    let first : (0x3F8 == port) ≡ false = ne→== _ _ (λ e. omega (arith, e, other)) in
    let given : m str ≢ 0 = λ e. nz (sym here ∙ e) in
    elim (Bool-cases (m str == 10)) [
      | inl newline ↦ (
        (port, m str) ∷ (0x3F8, 13) ∷ sent,
        rw (ne→== _ _ given, out, newline) refl,
        rw (self, first, same) (ap (λ b. b ∷ cs) here),
      )
      | inr plain ↦ (
        (port, m str) ∷ sent,
        rw (ne→== _ _ given, out, plain) refl,
        rw (self, same) (ap (λ b. b ∷ cs) here),
      )
    ]
