-- ===== src/Screen/Image.antt =====
-- A whole image.
use nekonix.Base.{
  ℕ, zero, suc, ◌+◌, ◌*◌, ◌^◌, ◌≤◌, ◌<◌, ◌≡◌, ◌⊎◌, ◌∙◌, inl, inr, refl, ltb, ltb→lt, ltb→ge,
  Bool-cases, arith, tests, some, ==_iff,
}
use nekonix.Strings.{Bytes}
use nekonix.Screen.{
  Framebuffer, load_u32, draw_rows, draw_image, pixels, width, height, chunk_count, chunk_width,
  chunk_height, encoding_size, encoding, red,
}
use nekonix.Screen.Pixels.{IsScreen, row_at, row_inside, index_of, pixel_color, load_u32-same}
use nekonix.Screen.Rows.{IsData, Kept, color_at, IsRow, Kept-later, from_row, draw_columns_lem}

next_row : (fb : Framebuffer) (y : ℕ) → row_at fb (y + 1) ≡ row_at fb y + fb.pitch
next_row fb y = grind arith

module _ (fb : Framebuffer) (screen : IsScreen fb) (image enc size w h : ℕ)
    (file : IsData fb image enc size w h) (old : Bytes) where
  -- What is drawn from the row `y` on.
  pub record IsPart (y : ℕ) (m m' : Bytes) : Type 0 where
    pub shown :
        (x y' : ℕ)
        → y ≤ y'
        → y' < h
        → x < w
        → x < fb.width
        → y' < fb.height
        → load_u32 (row_at fb y' + 4 * x) m' ≡ color_at fb screen image enc size w h file old x y'
    pub others : (a : ℕ) → (a < row_at fb y) ⊎ (fb.address + fb.height * fb.pitch ≤ a) → m' a ≡ m a

  -- What is off the screen, or in an earlier row, is off the row.
  off_row :
      (y a : ℕ)
      → (a < row_at fb y) ⊎ (fb.address + fb.height * fb.pitch ≤ a)
      → (a < row_at fb y + 4 * 0) ⊎ (row_at fb y + 4 * fb.width ≤ a) ⊎ (fb.height ≤ y)
  off_row y a (inl before) = inl (omega arith)
  off_row y a (inr behind) = elim (Bool-cases (ltb y fb.height)) [
    | inr yout ↦ inr (inr (ltb→ge _ _ yout))
    | inl yin ↦ inr (inl (omega (arith, row_inside y fb.height fb.pitch (ltb→lt _ _ yin), screen)))
  ]

  before_next :
      (y a : ℕ)
      → (a < row_at fb y) ⊎ (fb.address + fb.height * fb.pitch ≤ a)
      → (a < row_at fb (y + 1)) ⊎ (fb.address + fb.height * fb.pitch ≤ a)
  before_next y a (inl before) = inl (omega (arith, next_row fb y))
  before_next y a (inr behind) = inr behind

  IsPart-next :
      (y : ℕ) (m m1 m' : Bytes)
      → IsRow fb screen image enc size w h file old 0 y m m1
      → IsPart (y + 1) m1 m'
      → IsPart y m m'
  IsPart-next y m m1 m' row rest = record {
    shown = λ x y' from to xin xs ys. elim (Bool-cases (ltb y y')) [
      | inl later ↦ rest.shown x y' (omega (tests, later)) to xin xs ys
      | inr now ↦
          let here : y' ≡ y = omega (arith, ltb→ge _ _ now) in
          let drawn = row.shown x (omega arith) xin xs (omega arith) in
          let stays =
            load_u32-same (row_at fb y + 4 * x) m1 m'
              λ k below. rest.others _ (inl (omega (arith, next_row fb y, screen))) in
          rw here (stays ∙ drawn)
    ];
    others = λ a off. rest.others a (before_next y a off) ∙ row.others a (off_row y a off);
  }

  draw_rows_lem :
      (n y : ℕ) (m : Bytes)
      → y + n ≡ h
      → Kept fb screen image enc size w h file old m
      → IsPart y m (draw_rows n fb image enc size w h y m)
  unfolding draw_rows
  draw_rows_lem zero y m end kept = record {
    shown = λ x y' from to xin xs ys. absurd (omega arith);
    others = λ a off. refl;
  }
  draw_rows_lem (suc n) y m end kept =
      let (m1, done, row) =
        draw_columns_lem fb screen image enc size w h file old w 0 y m (omega arith) (omega arith)
          kept in
      let kept1 =
        Kept-later fb screen image enc size w h file old y m m1
          (λ a off. row.others a (from_row fb screen image enc size w h file old y a off)) kept in
      rw (draw_rows, done)
        (IsPart-next y m m1 _ row (draw_rows_lem n (y + 1) m1 (omega arith) kept1))

-- A header that draw_image accepts, of an image with `size` bytes for a pixel.
pub record IsSeif (image size : ℕ) (m : Bytes) : Type 0 where
  pub magic : (m image ≡ 83) × (m (image + 1) ≡ 69) × (m (image + 2) ≡ 73) × (m (image + 3) ≡ 70)
  pub known : encoding_size (encoding image m) ≡ some size
  pub one_chunk : chunk_count image m ≡ 1
  pub same_width : chunk_width image m ≡ width image m
  pub same_height : chunk_height image m ≡ height image m

encoding_room : (e size : ℕ) → encoding_size e ≡ some size → red e + 3 ≤ size
unfolding encoding_size
encoding_room e size known = ground (arith, known)

draw_image-rows :
    (fb : Framebuffer) (image size : ℕ) (m : Bytes)
    → IsSeif image size m
    → let w = width image m in
      let h = height image m in
      draw_image fb image m ≡ draw_rows h fb image (encoding image m) size w h 0 m
unfolding draw_image
draw_image-rows fb image size m seif =
    let (s, e, i, f) = seif.magic in
    rw (
      (==_iff _ _).1 s,
      (==_iff _ _).1 e,
      (==_iff _ _).1 i,
      (==_iff _ _).1 f,
      seif.known,
      (==_iff _ _).1 seif.one_chunk,
      (==_iff _ _).1 seif.same_width,
      (==_iff _ _).1 seif.same_height,
    )

-- An image with a sound header and fewer than 2 ^ 32 bytes of data, whose header and data are not on a
-- screen of 32 bits for a pixel. draw_image shows each of its pixels that is on the screen at its place, in the color of its
-- bytes, and changes nothing that is off the screen.
pub draw_image_lem :
    (fb : Framebuffer) (image size : ℕ) (m : Bytes)
    → IsScreen fb
    → IsSeif image size m
    → width image m * height image m * size < 2 ^ 32
    → (pixels image + width image m * height image m * size ≤ fb.address)
      ⊎ (fb.address + fb.height * fb.pitch ≤ image)
    → ((x y : ℕ)
        → x < width image m
        → y < height image m
        → x < fb.width
        → y < fb.height
        → load_u32 (row_at fb y + 4 * x) (draw_image fb image m)
          ≡ pixel_color image (encoding image m) (index_of (width image m) size x y) m)
      × ((a : ℕ)
          → (a < fb.address) ⊎ (fb.address + fb.height * fb.pitch ≤ a)
          → draw_image fb image m a ≡ m a)
draw_image_lem fb image size m screen seif short beside =
    let w = width image m in
    let h = height image m in
    let file : IsData fb image (encoding image m) size w h = record {
      room = encoding_room (encoding image m) size seif.known;
      short = short;
      beside = elim beside [ inl before ↦ inl before | inr behind ↦ inr (omega arith) ];
    } in
    let part =
      draw_rows_lem fb screen image (encoding image m) size w h file m h 0 m (omega arith)
        (λ k below. refl) in
    rw (draw_image-rows fb image size m seif) (
      λ x y xin yin xs ys. part.shown x y (omega arith) yin xin xs ys,
      λ a off.
          part.others a (elim off [ inl before ↦ inl (omega arith) | inr behind ↦ inr behind ]),
    )
