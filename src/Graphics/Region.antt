-- ===== src/Graphics/Region.antt =====
-- `kernel/src/graphics/region.rs`: rectangles on the screen, with 32-bit coordinates.
use vitr_os.Base.{ℕ, ◌+◌, ◌%◌, ◌^◌, Bool, ◌&&◌, ltb, leb}

pub record Region : Type 0 where
  pub x : ℕ
  pub y : ℕ
  pub width : ℕ
  pub height : ℕ

-- The additions wrap.
abbrev pub right : Region → ℕ
right r = (r.x + r.width) % 2 ^ 32

abbrev pub bottom : Region → ℕ
bottom r = (r.y + r.height) % 2 ^ 32

abbrev pub contains : Region → ℕ → ℕ → Bool
contains r px py = leb r.x px && (ltb px (right r) && (leb r.y py && ltb py (bottom r)))
