-- ===== src/Serial/Tests.antt =====
-- Ports that answer, and a string with a newline.
use nekonix.Base.{◌≡◌, refl, some, [], ◌∷◌, ◌==◌, if◌then◌else◌}
use nekonix.Serial.{serial_putchar, outstr, init_serial, first_answering, serial_get_new}

-- Only the second port answers.
second_answers : (serial_get_new (λ p. if p == 0x2F8 then 0xAE else 0)).0 ≡ 0x2F8
unfolding serial_get_new first_answering init_serial
second_answers = refl

none_answers : (serial_get_new (λ p. 0xFF)).0 ≡ 0xE9
unfolding serial_get_new first_answering init_serial
none_answers = refl

outstr_runs :
    outstr 9 0xE9 0 (λ a. if a == 0 then 97 else if a == 1 then 10 else 0)
    ≡ some ((0xE9, 97) ∷ (0xE9, 10) ∷ (0x3F8, 13) ∷ [])
unfolding outstr
outstr_runs = refl

putchar_runs : serial_putchar 0xE9 10 ≡ (0xE9, 10) ∷ (0xE9, 13) ∷ []
unfolding serial_putchar
putchar_runs = refl
