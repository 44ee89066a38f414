-- ===== src/Keymap/Range.antt =====
-- keyvaluetransformt.cpp: `GetPercentInRange` and `ConvertMouse`, which scale the coordinates of the
-- right stick for the mouse. The arithmetic of floating-point numbers is a parameter.
use push_streamer_client.Prelude.{◌≡◌, ap, true, false, if◌then◌else◌, arith}
use push_streamer_client.Prelude.Int.{ℤ}
use push_streamer_client.Keymap.Direction.{Floats}

pub record Scaling (fl : Floats) : Type 0 where
  pub minus : fl.F → fl.F → fl.F
  pub divide : fl.F → fl.F → fl.F
  pub times : fl.F → fl.F → fl.F
  pub minus_one : fl.F
  pub one : fl.F
  -- 32737
  pub range : fl.F
  -- the conversion to `int`
  pub to_int : fl.F → ℤ

-- The two tests at the start of `GetPercentInRange`.
unfoldable pub clamp : (fl : Floats) → fl.F → fl.F → fl.F → fl.F
clamp fl v l r = let v1 = if fl.lt v l then l else v in if fl.lt r v1 then r else v1

module _ (fl : Floats) (sc : Scaling fl) where
  open sc use {minus, divide, times, minus_one, one, range}

  -- `GetPercentInRange`, with the range that the result is in.
  unfoldable pub get_percent_in_range : fl.F → fl.F → fl.F → fl.F → fl.F
  get_percent_in_range v l r span =
      let difference = minus (clamp fl v l r) l in
      let total = minus r l in times (divide difference total) span

  -- `ConvertMouse`.
  unfoldable pub convert_mouse : fl.F → fl.F → fl.F × fl.F
  convert_mouse z rz =
      (get_percent_in_range z minus_one one range, get_percent_in_range rz minus_one one range)

clamp-below :
    (fl : Floats) (v l r : fl.F)
    → fl.lt v l ≡ true
    → fl.lt l l ≡ false
    → clamp fl v l r ≡ clamp fl l l r
unfolding clamp
clamp-below fl v l r h h1 = ground arith

clamp-above :
    (fl : Floats) (v l r : fl.F)
    → fl.lt r v ≡ true
    → fl.lt v l ≡ false
    → fl.lt r l ≡ false
    → fl.lt r r ≡ false
    → clamp fl v l r ≡ clamp fl r l r
unfolding clamp
clamp-above fl v l r h h1 h2 h3 = ground arith

-- A number left of the left bound is scaled as the bound, where no bound is left of itself.
below_range :
    (fl : Floats) (sc : Scaling fl) (v l r span : fl.F)
    → fl.lt v l ≡ true
    → fl.lt l l ≡ false
    → get_percent_in_range fl sc v l r span ≡ get_percent_in_range fl sc l l r span
unfolding get_percent_in_range
below_range fl sc v l r span h h1 =
    ap (λ x. sc.times (sc.divide (sc.minus x l) (sc.minus r l)) span) (clamp-below fl v l r h h1)

-- A number right of the right bound is scaled as the bound.
above_range :
    (fl : Floats) (sc : Scaling fl) (v l r span : fl.F)
    → fl.lt r v ≡ true
    → fl.lt v l ≡ false
    → fl.lt r l ≡ false
    → fl.lt r r ≡ false
    → get_percent_in_range fl sc v l r span ≡ get_percent_in_range fl sc r l r span
unfolding get_percent_in_range
above_range fl sc v l r span h h1 h2 h3 =
    ap (λ x. sc.times (sc.divide (sc.minus x l) (sc.minus r l)) span)
      (clamp-above fl v l r h h1 h2 h3)
