-- ===== src/Screen/Pixels.antt =====
-- One pixel, and one row of them.
use nekonix.Base.{
  ℕ, ◌+◌, ◌*◌, ◌/◌, ◌^◌, ◌≤◌, ◌<◌, ◌≡◌, ◌⊎◌, ◌∙◌, inl, inr, ap, refl, ltb, lt→ltb, ltb→lt,
  Bool-cases, arith, tests,
}
use nekonix.Pmm.{store}
use nekonix.Strings.{Bytes}
use nekonix.Screen.{Framebuffer, store_u32, load_u32, color_of, pixel_addr, putpixel, pixels, red}

store_u32_load : (a v : ℕ) (m : Bytes) → v < 2 ^ 32 → load_u32 a (store_u32 a v m) ≡ v
unfolding store_u32 load_u32 store
store_u32_load a v m fits = ground arith

store_u32_outside : (a v : ℕ) (m : Bytes) (b : ℕ) → (b < a) ⊎ (a + 4 ≤ b) → store_u32 a v m b ≡ m b
unfolding store_u32 store
store_u32_outside a v m b off = ground (arith, off)

pub load_u32-same :
    (a : ℕ) (m m' : Bytes)
    → ((k : ℕ) → k < 4 → m' (a + k) ≡ m (a + k))
    → load_u32 a m' ≡ load_u32 a m
unfolding load_u32
load_u32-same a m m' same =
    let first : m' a ≡ m a = ap m' (omega arith) ∙ same 0 (omega arith) ∙ ap m (omega arith) in
    rw (first, same 1 (omega arith), same 2 (omega arith), same 3 (omega arith))

-- A frame buffer with 32 bits for a pixel.
pub record IsScreen (fb : Framebuffer) : Type 0 where
  pub wide : fb.bpp ≡ 32
  pub narrow : 4 * fb.width ≤ fb.pitch
  pub small : 4 * fb.width < 2 ^ 32
  pub placed : fb.address + fb.height * fb.pitch < 2 ^ 64

-- Where the pixel `x` of the row that begins at `row` stands.
abbrev pub row_at : Framebuffer → ℕ → ℕ
row_at fb y = fb.address + y * fb.pitch

pub row_inside : (y h p : ℕ) → y < h → y * p + p ≤ h * p
row_inside y h p below = grind arith

pixel_addr_lem :
    (fb : Framebuffer) (x y : ℕ)
    → IsScreen fb
    → x < fb.width
    → y < fb.height
    → pixel_addr fb x y ≡ row_at fb y + 4 * x
unfolding pixel_addr
pixel_addr_lem fb x y screen xin yin =
    omega
      (arith, row_inside y fb.height fb.pitch yin, screen, ap (λ (b : ℕ). x * (b / 8)) screen.wide)

color_of-lt : (r g b : ℕ) → color_of r g b < 2 ^ 32
unfolding color_of
color_of-lt r g b = omega arith

module _ (fb : Framebuffer) (screen : IsScreen fb) where
  pub putpixel_lem :
      (x y r g b : ℕ) (m : Bytes)
      → (x < fb.width
          → y < fb.height
          → load_u32 (row_at fb y + 4 * x) (putpixel fb x y r g b m) ≡ color_of r g b)
        × ((a : ℕ)
            → (a < row_at fb y + 4 * x)
              ⊎ (row_at fb y + 4 * x + 4 ≤ a)
              ⊎ (fb.width ≤ x)
              ⊎ (fb.height ≤ y)
            → putpixel fb x y r g b m a ≡ m a)
  unfolding putpixel
  putpixel_lem x y r g b m = (
    λ xin yin.
        rw (lt→ltb _ _ xin, lt→ltb _ _ yin, pixel_addr_lem fb x y screen xin yin)
          (store_u32_load (row_at fb y + 4 * x) (color_of r g b) m (color_of-lt r g b)),
    λ a off. elim (Bool-cases (ltb x fb.width)) [
      | inr xout ↦ rw xout refl
      | inl xin ↦ elim (Bool-cases (ltb y fb.height)) [
        | inr yout ↦ rw (xin, yout) refl
        | inl yin ↦
            let at = pixel_addr_lem fb x y screen (ltb→lt _ _ xin) (ltb→lt _ _ yin) in
            rw (xin, yin, at)
              (store_u32_outside (row_at fb y + 4 * x) (color_of r g b) m a
                (omega (tests, xin, yin, off)))
      ]
    ],
  )

-- The place of a pixel in the data, and its color.
abbrev pub index_of : ℕ → ℕ → ℕ → ℕ → ℕ
index_of w size x y = (y * w + x) * size

abbrev pub pixel_color : ℕ → ℕ → ℕ → Bytes → ℕ
pixel_color image encoding index m =
    let first = pixels image + index + red encoding in
    color_of (m first) (m (first + 1)) (m (first + 2))

pub index_inside : (w h size x y : ℕ) → x < w → y < h → index_of w size x y + size ≤ w * h * size
index_inside w h size x y xin yin =
    let row : y * w + w ≤ h * w = row_inside y h w yin in
    let whole : y * w + x + 1 ≤ w * h = grind arith in grind arith
