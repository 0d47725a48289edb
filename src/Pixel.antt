-- ===== src/Pixel.antt =====
-- The order of the bytes of a pixel: kernel-lib/src/pixel.rs.
use lemola_osv.Base.{ℕ, List, [], ◌∷◌}
use lemola_osv.Console.{Color}

-- `Rgb` and `Bgr`, by the format of the screen.
pub data PixcelFormat : Type 0 where
  rgb : PixcelFormat
  bgr : PixcelFormat

-- `RenderedPixel::pixel`
abbrev pub pixel : PixcelFormat → Color → List ℕ
pixel rgb c = c.r ∷ c.g ∷ c.b ∷ 0xff ∷ []
pixel bgr c = c.b ∷ c.g ∷ c.r ∷ 0xff ∷ []
