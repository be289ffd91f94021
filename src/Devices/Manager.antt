-- ===== src/Devices/Manager.antt =====
-- The table of devices: who is found under an id after which calls.
use nekonix.Base.{
  ℕ, ◌≡◌, ◌≢◌, ◌<◌, ◌≤◌, ◌⊎◌, inl, inr, Option, none, some, arith, Bool-cases, Option-cases, leb,
  leb→le, leb→gt, sym, ap, refl, ◌∙◌,
}
use nekonix.Devices.{
  Handle, Registry, done, failed, device_register, device_get, device_unregister,
  device_manager_init, place,
}

module _ {S : Type 0} where
  -- The table that the calls lead to from an empty one.
  pub data Reached : Registry S → Type 0 where
    start : (r : Registry S) → Reached (device_manager_init r)
    register :
        {r : Registry S} (h : Option (Handle S)) → Reached r → Reached (device_register h r).1
    unregister : {r : Registry S} (id : ℕ) → Reached r → Reached (device_unregister id r).1

  -- A write to one place of the table, as a later search sees it.
  get-place :
      (i j : ℕ) (h : Option (Handle S)) (r : Registry S)
      → i < 256
      → ((i ≡ j) × (device_get j (place i h r) ≡ h))
        ⊎ ((i ≢ j) × (device_get j (place i h r) ≡ device_get j r))
  unfolding place device_get
  get-place i j h r lt = ground (arith, lt)

  -- What a registration finds, and its result.
  register-cases :
      (h : Handle S) (r : Registry S)
      → (((256 ≤ h.id) ⊎ ((g : Handle S) × (device_get h.id r ≡ some g)))
          × (device_register (some h) r ≡ (failed, r)))
        ⊎ ((h.id < 256)
            × (device_get h.id r ≡ none)
            × (device_register (some h) r ≡ (done, place h.id (some h) r)))
  unfolding device_register device_get
  register-cases h r = elim (Bool-cases (leb 256 h.id)) [
    | inl big ↦ inl (inl (leb→le 256 h.id big), rw big refl)
    | inr small ↦ elim (Option-cases (r h.id)) [
      | inl free ↦ inr (leb→gt 256 h.id small, rw (small, free) refl, rw (small, free) refl)
      | inr (g, taken) ↦ inl (inr (g, rw (small, taken) refl), rw (small, taken) refl)
    ]
  ]

  unregister-cases :
      (i : ℕ) (r : Registry S)
      → (((256 ≤ i) ⊎ (device_get i r ≡ none)) × (device_unregister i r ≡ (failed, r)))
        ⊎ ((i < 256)
            × ((g : Handle S) × (device_get i r ≡ some g))
            × (device_unregister i r ≡ (done, place i none r)))
  unfolding device_unregister device_get
  unregister-cases i r = elim (Bool-cases (leb 256 i)) [
    | inl big ↦ inl (inl (leb→le 256 i big), rw big refl)
    | inr small ↦ elim (Option-cases (r i)) [
      | inl free ↦ inl (inr (rw (small, free) refl), rw (small, free) refl)
      | inr (g, taken) ↦
          inr (leb→gt 256 i small, (g, rw (small, taken) refl), rw (small, taken) refl)
    ]
  ]

  id_of : Option (Handle S) → ℕ
  id_of none = 0
  id_of (some h) = h.id

  none-ne_some : {h : Handle S} → none ≢ some h
  none-ne_some e = cc e

  -- Whatever was registered and unregistered, a handle that device_get finds under an id is a
  -- handle of that id.
  pub Reached-id :
      {r : Registry S} → Reached r → (id : ℕ) (h : Handle S) → device_get id r ≡ some h → h.id ≡ id
  unfolding device_get device_manager_init device_register id_of
  Reached-id (start r) id h e = ground (arith, e)
  Reached-id (register none s) id h e = Reached-id s id h e
  Reached-id (register {r = r} (some g) s) id h e = elim (register-cases g r) [
    | inl (_, same) ↦ Reached-id s id h (sym (ap (λ x. device_get id x.1) same) ∙ e)
    | inr (small, free, new) ↦ elim (get-place g.id id (some g) r small) [
      | inl (here, found) ↦
          sym (ap id_of (sym found ∙ sym (ap (λ x. device_get id x.1) new) ∙ e)) ∙ here
      | inr (ne, found) ↦ Reached-id s id h (sym found ∙ sym (ap (λ x. device_get id x.1) new) ∙ e)
    ]
  ]
  Reached-id (unregister {r = r} i s) id h e = elim (unregister-cases i r) [
    | inl (_, same) ↦ Reached-id s id h (sym (ap (λ x. device_get id x.1) same) ∙ e)
    | inr (small, taken, new) ↦ elim (get-place i id none r small) [
      | inl (here, found) ↦
          absurd (none-ne_some (sym found ∙ sym (ap (λ x. device_get id x.1) new) ∙ e))
      | inr (ne, found) ↦ Reached-id s id h (sym found ∙ sym (ap (λ x. device_get id x.1) new) ∙ e)
    ]
  ]

  register-null : (r : Registry S) → device_register none r ≡ (failed, r)
  unfolding device_register
  register-null r = refl

  -- A registration succeeds exactly when the pointer is not null and its id is below 256 and free.
  -- Then the handle is found under its id, and every other id finds what it found before. A
  -- registration that fails changes nothing.
  pub device_register_lem :
      (h : Handle S) (r : Registry S)
      → (device_register none r ≡ (failed, r))
        × (((h.id < 256)
              × (device_get h.id r ≡ none)
              × ((device_register (some h) r).0 ≡ done)
              × (device_get h.id (device_register (some h) r).1 ≡ some h)
              × ((id : ℕ)
                  → id ≢ h.id
                  → device_get id (device_register (some h) r).1 ≡ device_get id r))
            ⊎ (((256 ≤ h.id) ⊎ ((g : Handle S) × (device_get h.id r ≡ some g)))
                × (device_register (some h) r ≡ (failed, r))))
  device_register_lem h r = (
    register-null r,
    elim (register-cases h r) [
      | inl refused ↦ inr refused
      | inr (small, free, new) ↦ inl (
        small,
        free,
        ap (λ x. x.0) new,
        rw new (elim (get-place h.id h.id (some h) r small) [
          | inl (_, found) ↦ found
          | inr (ne, _) ↦ absurd (ne refl)
        ]),
        λ id ne. rw new (elim (get-place h.id id (some h) r small) [
          | inl (here, _) ↦ absurd (ne (sym here))
          | inr (_, found) ↦ found
        ]),
      )
    ],
  )
