-- ===== src/Devices/Keyboard.antt =====
-- The keyboard over any sequence of interrupts and reads: which keys come out.
use mathlib.Core.List.{Sublistᴰ}
use nekonix.Base.{
  ℕ, ◌≡◌, ◌<◌, refl, Bool-cases, Option-cases, not, inl, inr, Option, none, some, List, [], ◌∷◌,
  arith, ◌==◌, bit_and,
}
use nekonix.Devices.{Key, keyboard_handler, keymap, stdin_read}

-- A byte from the port, or a call of read.
pub data Event : Type 0 where
  interrupt : ℕ → Event
  read : Event

-- Every byte is of a scancode that the keymap reaches.
abbrev pub InKeymap : List Event → Type 0
InKeymap [] = Unit {0}
InKeymap (read ∷ es) = InKeymap es
InKeymap (interrupt data' ∷ es) = (bit_and data' 0x7F < 0x59) × InKeymap es

-- What a read hands out goes in front of what the later ones do.
abbrev pub hand_out : Option Key → Option (List Key) → Option (List Key)
hand_out o none = none
hand_out none (some out) = some out
hand_out (some key) (some out) = some (key ∷ out)

module _ (name_address : ℕ → ℕ) where
  -- The keys that the bytes stand for.
  unfoldable pub pressed : List Event → Option (List Key)
  pressed [] = some []
  pressed (read ∷ es) = pressed es
  pressed (interrupt data' ∷ es) = elim (keyboard_handler name_address data') [
    | none ↦ none
    | some key ↦ hand_out (some key) (pressed es)
  ]

  -- The keys that the reads hand out, from a key that is stored.
  unfoldable pub session : Key → List Event → Option (List Key)
  session key [] = some []
  session key (read ∷ es) =
      let (got, answer, next) = stdin_read key in hand_out got (session next es)
  session key (interrupt data' ∷ es) = elim (keyboard_handler name_address data') [
    | none ↦ none
    | some next ↦ session next es
  ]

  -- What a session hands out, and what was pressed: with a key waiting, or with none.
  record IsDelivered (key : Key) (es : List Event) : Type 0 where
    out : List Key
    keys : List Key
    session_some : session key es ≡ some out
    pressed_some : pressed es ≡ some keys
    waiting : Sublistᴰ out (key ∷ keys)
    empty : key.sym ≡ 0 → Sublistᴰ out keys

  pub handler_some :
      (data' : ℕ)
      → bit_and data' 0x7F < 0x59
      → (key : Key) × (keyboard_handler name_address data' ≡ some key)
  unfolding keyboard_handler keymap
  handler_some data' lt = elim (Option-cases (keymap name_address (bit_and data' 0x7F))) [
    | inl e ↦ absurd (ground (arith, e, lt))
    | inr (sym, e) ↦ (
      record { sym = sym; scancode = bit_and data' 0x7F; released = not (bit_and data' 0x80 == 0) },
      rw (keyboard_handler, e) refl,
    )
  ]

  session-IsDelivered : (es : List Event) (key : Key) → InKeymap es → IsDelivered key es
  unfolding session pressed stdin_read
  session-IsDelivered [] key ok = record {
    out = [];
    keys = [];
    session_some = refl;
    pressed_some = refl;
    waiting = Sublistᴰ.cons Sublistᴰ.slnil;
    empty = λ z. Sublistᴰ.slnil;
  }
  session-IsDelivered (interrupt data' ∷ es) key (lt, ok) =
      let (next, e) = handler_some data' lt in
      let r = session-IsDelivered es next ok in
      record {
        out = r.out;
        keys = next ∷ r.keys;
        session_some = rw (session, e) r.session_some;
        pressed_some = rw (pressed, e, r.pressed_some) refl;
        waiting = Sublistᴰ.cons r.waiting;
        empty = λ z. r.waiting;
      }
  session-IsDelivered (read ∷ es) key ok = elim (Bool-cases (key.sym == 0)) [
    | inl z ↦
        let r = session-IsDelivered es key ok in
        record {
          out = r.out;
          keys = r.keys;
          session_some = rw (z, r.session_some) refl;
          pressed_some = r.pressed_some;
          waiting = r.waiting;
          empty = r.empty;
        }
    | inr nz ↦
        let r = session-IsDelivered es (record key { sym = 0 }) ok in
        record {
          out = key ∷ r.out;
          keys = r.keys;
          session_some = rw (nz, r.session_some) refl;
          pressed_some = r.pressed_some;
          waiting = Sublistᴰ.cons-cons refl (r.empty refl);
          empty = λ z. ground (arith, z, nz);
        }
  ]

  -- From an empty keyboard and on bytes that the keymap reaches, the reads hand out only keys that
  -- were pressed or released, in that order and none of them twice.
  pub session-Sublist :
      (es : List Event) (key : Key)
      → InKeymap es
      → key.sym ≡ 0
      → (out : List Key) × (keys : List Key) × (session key es ≡ some out)
        × (pressed es ≡ some keys)
        × Sublistᴰ out keys
  session-Sublist es key ok z =
      let r = session-IsDelivered es key ok in
      (r.out, r.keys, r.session_some, r.pressed_some, r.empty z)
