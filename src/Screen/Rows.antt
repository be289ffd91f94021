-- ===== src/Screen/Rows.antt =====
-- One row of an image.
use nekonix.Base.{
  ℕ, zero, suc, ◌+◌, ◌*◌, ◌^◌, ◌≤◌, ◌<◌, ◌≡◌, ◌⊎◌, ◌∙◌, inl, inr, ap, refl, true, ltb, ltb→lt,
  ltb→ge, le→leb, Bool-cases, u32, arith, tests,
}
use nekonix.Strings.{Bytes}
use nekonix.Screen.{Framebuffer, load_u32, draw_pixel, draw_columns, pixels, red}
use nekonix.Screen.Pixels.{
  IsScreen, row_at, row_inside, putpixel_lem, index_of, pixel_color, index_inside, load_u32-same,
}

-- An image whose data have `w * h * size` bytes, beside the screen.
pub record IsData (fb : Framebuffer) (image enc size w h : ℕ) : Type 0 where
  pub room : red enc + 3 ≤ size
  pub short : w * h * size < 2 ^ 32
  pub beside :
      (pixels image + w * h * size ≤ fb.address)
      ⊎ (fb.address + fb.height * fb.pitch ≤ pixels image)

index_u32 :
    (w h size x y : ℕ)
    → 0 < size
    → x < w
    → y < h
    → w * h * size < 2 ^ 32
    → u32 (u32 (y * w + x) * size) ≡ index_of w size x y
index_u32 w h size x y pos xin yin short =
    let inside = index_inside w h size x y xin yin in
    let le : y * w + x ≤ index_of w size x y = grind arith in
    let inner : u32 (y * w + x) ≡ y * w + x = omega (arith, le, inside) in
    rw inner (omega (arith, inside))

total_u32 :
    (w h size : ℕ) → 0 < size → w * h * size < 2 ^ 32 → u32 (u32 (w * h) * size) ≡ w * h * size
total_u32 w h size pos short =
    let le : w * h ≤ w * h * size = grind arith in
    let inner : u32 (w * h) ≡ w * h = omega (arith, le) in rw inner (omega arith)

module _ (fb : Framebuffer) (screen : IsScreen fb) (image enc size w h : ℕ)
    (file : IsData fb image enc size w h) (old : Bytes) where
  -- The data are as they were.
  abbrev pub Kept : Bytes → Type 0
  Kept m = (k : ℕ) → k < w * h * size → m (pixels image + k) ≡ old (pixels image + k)

  -- The color that the pixel of an image should have.
  abbrev pub color_at : ℕ → ℕ → ℕ
  color_at x y = pixel_color image enc (index_of w size x y) old

  -- What is drawn of the row `y`, from the pixel `x` on.
  pub record IsRow (x y : ℕ) (m m' : Bytes) : Type 0 where
    pub shown :
        (x' : ℕ)
        → x ≤ x'
        → x' < w
        → x' < fb.width
        → y < fb.height
        → load_u32 (row_at fb y + 4 * x') m' ≡ color_at x' y
    pub others :
        (a : ℕ)
        → (a < row_at fb y + 4 * x) ⊎ (row_at fb y + 4 * fb.width ≤ a) ⊎ (fb.height ≤ y)
        → m' a ≡ m a

  draw_pixel_lem :
      (x y : ℕ) (m : Bytes)
      → x < w
      → y < h
      → Kept m
      → let m' = draw_pixel fb image enc (index_of w size x y) x y m in
        (x < fb.width → y < fb.height → load_u32 (row_at fb y + 4 * x) m' ≡ color_at x y)
        × ((a : ℕ)
            → (a < row_at fb y + 4 * x)
              ⊎ (row_at fb y + 4 * x + 4 ≤ a)
              ⊎ (fb.width ≤ x)
              ⊎ (fb.height ≤ y)
            → m' a ≡ m a)
  unfolding draw_pixel
  draw_pixel_lem x y m xin yin kept =
      let inside = index_inside w h size x y xin yin in
      let first = pixels image + index_of w size x y + red enc in
      let byte : (j : ℕ) → j < 3 → m (first + j) ≡ old (first + j) = λ j below.
        ap m (omega arith)
        ∙ kept (index_of w size x y + red enc + j) (omega (arith, file, inside))
        ∙ ap old (omega arith) in
      let zeroth : m first ≡ old first =
        ap m (omega arith) ∙ byte 0 (omega arith) ∙ ap old (omega arith) in
      let (shown, others) =
        putpixel_lem fb screen x y (m first) (m (first + 1)) (m (first + 2)) m in
      (λ xs ys. shown xs ys ∙ rw (zeroth, byte 1 (omega arith), byte 2 (omega arith)) refl, others)

  -- A byte of the data is not on the screen.
  off_screen :
      (y k : ℕ)
      → k < w * h * size
      → (pixels image + k < row_at fb y)
        ⊎ (row_at fb y + 4 * fb.width ≤ pixels image + k)
        ⊎ (fb.height ≤ y)
  off_screen y k below = elim (Bool-cases (ltb y fb.height)) [
    | inr yout ↦ inr (inr (ltb→ge _ _ yout))
    | inl yin ↦
        let row = row_inside y fb.height fb.pitch (ltb→lt _ _ yin) in
        elim file.beside [
          | inl before ↦ inl (omega arith)
          | inr behind ↦ inr (inl (omega (arith, row, screen)))
        ]
  ]

  pub Kept-later :
      (y : ℕ) (m m' : Bytes)
      → ((a : ℕ)
          → (a < row_at fb y) ⊎ (row_at fb y + 4 * fb.width ≤ a) ⊎ (fb.height ≤ y)
          → m' a ≡ m a)
      → Kept m
      → Kept m'
  Kept-later y m m' others kept k below =
      others (pixels image + k) (off_screen y k below) ∙ kept k below

  off_pixel :
      (x y a : ℕ)
      → (a < row_at fb y + 4 * x) ⊎ (row_at fb y + 4 * fb.width ≤ a) ⊎ (fb.height ≤ y)
      → (a < row_at fb y + 4 * x) ⊎ (row_at fb y + 4 * x + 4 ≤ a) ⊎ (fb.width ≤ x) ⊎ (fb.height ≤ y)
  off_pixel x y a (inl before) = inl before
  off_pixel x y a (inr (inr below)) = inr (inr (inr below))
  off_pixel x y a (inr (inl past)) = elim (Bool-cases (ltb x fb.width)) [
    | inl xin ↦ inr (inl (omega (tests, xin)))
    | inr xout ↦ inr (inr (inl (ltb→ge _ _ xout)))
  ]

  pub from_row :
      (y a : ℕ)
      → (a < row_at fb y) ⊎ (row_at fb y + 4 * fb.width ≤ a) ⊎ (fb.height ≤ y)
      → (a < row_at fb y + 4 * 0) ⊎ (row_at fb y + 4 * fb.width ≤ a) ⊎ (fb.height ≤ y)
  from_row y a (inl before) = inl (omega arith)
  from_row y a (inr off) = inr off

  further :
      (x x' y a : ℕ)
      → x ≤ x'
      → (a < row_at fb y + 4 * x) ⊎ (row_at fb y + 4 * fb.width ≤ a) ⊎ (fb.height ≤ y)
      → (a < row_at fb y + 4 * x') ⊎ (row_at fb y + 4 * fb.width ≤ a) ⊎ (fb.height ≤ y)
  further x x' y a le (inl before) = inl (omega arith)
  further x x' y a le (inr off) = inr off

  draw_columns-round :
      (n x y : ℕ) (m : Bytes)
      → x < w
      → y < h
      → draw_columns (suc n) fb image enc size w h x y m
        ≡ draw_columns n fb image enc size w h
            (x + 1)
            y
            (draw_pixel fb image enc (index_of w size x y) x y m)
  unfolding draw_columns
  draw_columns-round n x y m xin yin =
      let inside = index_inside w h size x y xin yin in
      let small : u32 (index_of w size x y + size) ≡ index_of w size x y + size =
        omega (arith, inside, file) in
      rw (
        index_u32 w h size x y (omega (arith, file)) xin yin file.short,
        total_u32 w h size (omega (arith, file)) file.short,
        small,
        le→leb _ _ inside,
      )

  -- One pixel, and then the rest of the row.
  IsRow-next :
      (x y : ℕ) (m m1 m' : Bytes)
      → (x < fb.width → y < fb.height → load_u32 (row_at fb y + 4 * x) m1 ≡ color_at x y)
      → ((a : ℕ)
          → (a < row_at fb y + 4 * x)
            ⊎ (row_at fb y + 4 * x + 4 ≤ a)
            ⊎ (fb.width ≤ x)
            ⊎ (fb.height ≤ y)
          → m1 a ≡ m a)
      → IsRow (x + 1) y m1 m'
      → IsRow x y m m'
  IsRow-next x y m m1 m' own others row = record {
    shown = λ x' from to xs ys. elim (Bool-cases (ltb x x')) [
      | inl later ↦ row.shown x' (omega (tests, later)) to xs ys
      | inr now ↦
          let here : x' ≡ x = omega (arith, ltb→ge _ _ now) in
          let drawn = own (omega arith) ys in
          let stays =
            load_u32-same (row_at fb y + 4 * x) m1 m' λ k below. row.others _ (inl (omega arith)) in
          rw here (stays ∙ drawn)
    ];
    others = λ a off.
        row.others a (further x (x + 1) y a (omega arith) off) ∙ others a (off_pixel x y a off);
  }

  -- The row is drawn from the pixel `x` on.
  pub draw_columns_lem :
      (n x y : ℕ) (m : Bytes)
      → x + n ≡ w
      → y < h
      → Kept m
      → (m' : Bytes) × (draw_columns n fb image enc size w h x y m ≡ (true, m')) × IsRow x y m m'
  unfolding draw_columns
  draw_columns_lem zero x y m end yin kept =
      (m, refl, record { shown = λ x' from to xs ys. absurd (omega arith); others = λ a off. refl })
  draw_columns_lem (suc n) x y m end yin kept =
      let xin : x < w = omega arith in
      let m1 = draw_pixel fb image enc (index_of w size x y) x y m in
      let (own, others) = draw_pixel_lem x y m xin yin kept in
      let (m', done, row) = draw_columns_lem n (x + 1) y m1 (omega arith) yin (
        Kept-later y m m1
          (λ a off. others a (off_pixel x y a (further 0 x y a (omega arith) (from_row y a off))))
          kept) in
      (m', draw_columns-round n x y m xin yin ∙ done, IsRow-next x y m m1 m' own others row)
