-- ===== src/Screen.antt =====
-- Drawing of an image at the start, draw_image and putpixel of kernel/src/main.c, on a frame buffer that
-- stands in a memory of bytes. The header of the image is read once, which is the same where it is not on
-- the screen. A counted loop recurs on the rounds left.
pub mod Pixels
pub mod Rows
pub mod Image
mod Tests
use nekonix.Base.{
  ℕ, zero, suc, ◌+◌, ◌-◌, ◌*◌, ◌/◌, ◌%◌, ◌^◌, Bool, true, false, not, ◌&&◌, Option, none, some, ltb,
  leb, ◌==◌, if◌then◌else◌, bit_or, u32, u64,
}
use nekonix.Pmm.{store}
use nekonix.Strings.{Bytes}

-- The fields of `struct limine_framebuffer` that are read.
pub record Framebuffer : Type 0 where
  pub address : ℕ
  pub width : ℕ
  pub height : ℕ
  pub pitch : ℕ
  pub bpp : ℕ

-- A word of 32 bits, the lowest byte first.
unfoldable pub store_u32 : ℕ → ℕ → Bytes → Bytes
store_u32 a v m =
    let m1 = store m a (v % 2 ^ 8) in
    let m2 = store m1 (a + 1) (v / 2 ^ 8 % 2 ^ 8) in
    let m3 = store m2 (a + 2) (v / 2 ^ 16 % 2 ^ 8) in store m3 (a + 3) (v / 2 ^ 24 % 2 ^ 8)

unfoldable pub load_u32 : ℕ → Bytes → ℕ
load_u32 a m = m a + 2 ^ 8 * m (a + 1) + 2 ^ 16 * m (a + 2) + 2 ^ 24 * m (a + 3)

unfoldable pub color_of : ℕ → ℕ → ℕ → ℕ
color_of r g b = u32 (bit_or 0xFF00_0000 (bit_or (r * 2 ^ 16) (bit_or (g * 2 ^ 8) b)))

unfoldable pub pixel_addr : Framebuffer → ℕ → ℕ → ℕ
pixel_addr fb x y = u64 (fb.address + y * fb.pitch + u32 (x * (fb.bpp / 8)))

unfoldable pub putpixel : Framebuffer → ℕ → ℕ → ℕ → ℕ → ℕ → Bytes → Bytes
putpixel fb x y r g b m =
    if not (ltb x fb.width)
    then m
    else if not (ltb y fb.height)
    then m
    else store_u32 (pixel_addr fb x y) (color_of r g b) m

abbrev pub rgba : ℕ
rgba = 1

abbrev pub rgb : ℕ
rgb = 2

abbrev pub argb : ℕ
argb = 3

-- The bytes of a pixel; none for an encoding that is not known.
unfoldable pub encoding_size : ℕ → Option ℕ
encoding_size encoding =
    if encoding == rgb
    then some 3
    else if encoding == rgba
    then some 4
    else if encoding == argb
    then some 4
    else none

-- The fields of `SEIF_Header` and of `SEIF_ChunkHeader`, and the data behind them.
abbrev pub encoding : ℕ → Bytes → ℕ
encoding image m = m (image + 5)

abbrev pub width : ℕ → Bytes → ℕ
width image m = load_u32 (image + 14) m

abbrev pub height : ℕ → Bytes → ℕ
height image m = load_u32 (image + 18) m

abbrev pub chunk_count : ℕ → Bytes → ℕ
chunk_count image m = load_u32 (image + 22) m

abbrev pub chunk_width : ℕ → Bytes → ℕ
chunk_width image m = load_u32 (image + 30) m

abbrev pub chunk_height : ℕ → Bytes → ℕ
chunk_height image m = load_u32 (image + 34) m

abbrev pub pixels : ℕ → ℕ
pixels image = image + 38

-- Where red is in a pixel; alpha is not used.
abbrev pub red : ℕ → ℕ
red encoding = if encoding == argb then 1 else 0

unfoldable pub draw_pixel : Framebuffer → ℕ → ℕ → ℕ → ℕ → ℕ → Bytes → Bytes
draw_pixel fb image encoding index x y m =
    let first = pixels image + index + red encoding in
    putpixel fb x y (m first) (m (first + 1)) (m (first + 2)) m

-- `for (x = 0; x < width; x++)`; false when an index is out of bounds.
unfoldable pub draw_columns : ℕ → Framebuffer → ℕ → ℕ → ℕ → ℕ → ℕ → ℕ → ℕ → Bytes → Bool × Bytes
draw_columns zero fb image encoding size w h x y m = (true, m)
draw_columns (suc n) fb image encoding size w h x y m =
    let index = u32 (u32 (y * w + x) * size) in
    let rest =
      draw_columns n fb image encoding size w h (x + 1) y
        (draw_pixel fb image encoding index x y m) in
    if leb (u32 (index + size)) (u32 (u32 (w * h) * size)) then rest else (false, m)

-- `for (y = 0; y < height; y++)`
unfoldable pub draw_rows : ℕ → Framebuffer → ℕ → ℕ → ℕ → ℕ → ℕ → ℕ → Bytes → Bytes
draw_rows zero fb image encoding size w h y m = m
draw_rows (suc n) fb image encoding size w h y m =
    let (complete, m') = draw_columns w fb image encoding size w h 0 y m in
    let rest = draw_rows n fb image encoding size w h (y + 1) m' in if complete then rest else m'

unfoldable pub draw_image : Framebuffer → ℕ → Bytes → Bytes
draw_image fb image m =
    let w = width image m in
    let h = height image m in
    if not (m image == 83 && m (image + 1) == 69 && m (image + 2) == 73 && m (image + 3) == 70)
    then m
    else elim (encoding_size (encoding image m)) [
      | none ↦ m
      | some size ↦
          if not (chunk_count image m == 1 && chunk_width image m == w && chunk_height image m == h)
          then m
          else draw_rows h fb image (encoding image m) size w h 0 m
    ]
