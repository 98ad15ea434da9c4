-- ===== src/Content/ImageLaws.antt =====
-- content/webp_processor.go: the size of a variant.
use native.Mathlib.Nat.{div-mul-le_self, lt-div-mul-add, le_of_mul-le-mul_right, mul-le-mul_left}
use blogengine.Prelude.{ℕ, ◌*◌, ◌+◌, ◌/◌, ◌<◌, ◌≤◌, inl, inr, leb, arith, Bool-cases}
use blogengine.Content.Images.{Codec, IsCodec, resize_image}

row_lost : (h w d q : ℕ) → q * d ≤ h * w → w < d → q ≤ h
row_lost h w d q le less =
    le_of_mul-le-mul_right {k = d} (omega (arith, le, mul-le-mul_left h (shorter less)))
      (omega arith)
  where
    shorter : w < d → w ≤ d
    shorter p = omega arith

next_row : (h w d q : ℕ) → h * w < q * d + d → h * w < (q + 1) * d
next_row h w d q lt = grind arith

same_rows : (h d : ℕ) → 0 < d → h * d < (h + 1) * d
same_rows h d pos = grind arith

-- resizeImage never makes an image wider than asked for, nor wider or taller than the source, and
-- keeps the ratio of the sides but for less than one row. (The source is not empty.)
pub resize_image_fits :
    {I : Type 0} (c : Codec I) (img : I) (max_width : ℕ)
    → IsCodec c
    → 0 < c.dx img
    → let r = resize_image c img max_width in
      (c.dx r ≤ max_width)
      × (c.dx r ≤ c.dx img)
      × (c.dy r ≤ c.dy img)
      × (c.dy r * c.dx img ≤ c.dy img * c.dx r)
      × (c.dy img * c.dx r < (c.dy r + 1) * c.dx img)
unfolding resize_image
resize_image_fits c img w laws wide = elim (Bool-cases (leb (c.dx img) w)) [
  | inl e ↦ rw e (
    ground (arith, e),
    omega arith,
    omega arith,
    omega arith,
    same_rows (c.dy img) (c.dx img) wide,
  )
  | inr e ↦
      let q = c.dy img * w / c.dx img in
      let less : w < c.dx img = ground (arith, e) in
      let below = div-mul-le_self (c.dy img * w) (c.dx img) in
      rw (e, laws.dx-scale w q img, laws.dy-scale w q img)
        (
          omega arith,
          omega arith,
          row_lost (c.dy img) w (c.dx img) q below less,
          below,
          next_row (c.dy img) w (c.dx img) q (lt-div-mul-add wide),
        )
]
