-- ===== src/Screen/Tests.antt =====
-- An image of two pixels on a screen of one row.
use nekonix.Base.{
  ℕ, ◌+◌, ◌-◌, ◌*◌, ◌≤◌, ◌<◌, ◌≡◌, ◌⊎◌, inr, refl, List, [], ◌∷◌, ltb, ◌==◌, if◌then◌else◌, arith,
}
use nekonix.Pmm.{store}
use nekonix.Strings.{Bytes}
use nekonix.Screen.{
  Framebuffer, load_u32, store_u32, color_of, pixel_addr, putpixel, encoding_size, draw_pixel,
  draw_columns, draw_rows, draw_image,
}
use nekonix.Screen.Pixels.{IsScreen, row_at, pixel_color, index_of}
use nekonix.Screen.Image.{IsSeif, draw_image_lem}

abbrev at : List (ℕ × ℕ) → ℕ → ℕ
at [] i = 0
at ((j, b) ∷ rest) i = if j == i then b else at rest i

-- Two pixels of three bytes.
abbrev image_bytes : List (ℕ × ℕ)
image_bytes =
    (0, 83)
    ∷ (1, 69)
    ∷ (2, 73)
    ∷ (3, 70)
    ∷ (5, 2)
    ∷ (14, 2)
    ∷ (18, 1)
    ∷ (22, 1)
    ∷ (30, 2)
    ∷ (34, 1)
    ∷ (38, 1)
    ∷ (39, 2)
    ∷ (40, 3)
    ∷ (41, 4)
    ∷ (42, 5)
    ∷ (43, 6)
    ∷ []

abbrev memory : Bytes
memory a = if ltb a 0x1000 then 9 else at image_bytes (a - 0x1000)

abbrev one_row : Framebuffer
one_row = record { address = 0x100; width = 3; height = 1; pitch = 16; bpp = 32 }

one_row-IsScreen : IsScreen one_row
one_row-IsScreen = record {
  wide = refl;
  narrow = omega arith;
  small = omega arith;
  placed = omega arith;
}

memory-IsSeif : IsSeif 0x1000 3 memory
unfolding load_u32 encoding_size
memory-IsSeif = record {
  magic = (refl, refl, refl, refl);
  known = refl;
  one_chunk = refl;
  same_width = refl;
  same_height = refl;
}

draw_runs :
    (load_u32 0x100 (draw_image one_row 0x1000 memory) ≡ 0xFF01_0203)
    × (load_u32 0x104 (draw_image one_row 0x1000 memory) ≡ 0xFF04_0506)
    × (draw_image one_row 0x1000 memory 0x108 ≡ 9)
unfolding load_u32 store_u32 store color_of pixel_addr putpixel encoding_size draw_pixel
    draw_columns draw_rows draw_image
draw_runs = (refl, refl, refl)

draw_image_example :
    ((x y : ℕ)
      → x < 2
      → y < 1
      → x < 3
      → y < 1
      → load_u32 (row_at one_row y + 4 * x) (draw_image one_row 0x1000 memory)
        ≡ pixel_color 0x1000 2 (index_of 2 3 x y) memory)
    × ((a : ℕ) → (a < 0x100) ⊎ (0x100 + 16 ≤ a) → draw_image one_row 0x1000 memory a ≡ memory a)
unfolding load_u32
draw_image_example =
    draw_image_lem one_row 0x1000 3 memory one_row-IsScreen memory-IsSeif (omega arith)
      (inr (omega arith))
