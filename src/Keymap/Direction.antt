-- ===== src/Keymap/Direction.antt =====
-- keyvaluetransformt.h and keyvaluetransformt.cpp: the eight directions of the stick. Floating-point
-- numbers are a parameter: the code compares coordinates with 0 and does nothing else with them.
use push_streamer_client.Prelude.{◌≡◌, ◌⊎◌, Bool, true, false, ◌&&◌, String, arith, if◌then◌else◌}

-- `float`, with `a < b` and `a == b`.
pub record Floats : Type 1 where
  pub F : Type 0
  pub lt : F → F → Bool
  pub eq : F → F → Bool
  pub zero : F

pub data DirectionKey : Type 0 where
  direct_origin direct_right direct_right_down direct_down direct_left_down : DirectionKey
  direct_left direct_left_top direct_top direct_top_right : DirectionKey

-- The names of the directions in the ini files: the `switch` of `GetMapKeyValueEx`.
unfoldable pub direction_name : DirectionKey → String
direction_name direct_origin = ""
direction_name direct_right = "RIGHT"
direction_name direct_right_down = "DOWN_RIGHT"
direction_name direct_down = "DOWN"
direction_name direct_left_down = "DOWN_LEFT"
direction_name direct_left = "LEFT"
direction_name direct_left_top = "UP_LEFT"
direction_name direct_top = "UP"
direction_name direct_top_right = "UP_RIGHT"

module _ (fl : Floats) where
  open fl use {F, lt, eq, zero}

  abbrev pub is_above : F → Bool
  is_above x = lt zero x

  abbrev pub is_below : F → Bool
  is_below x = lt x zero

  abbrev pub is_zero : F → Bool
  is_zero x = eq zero x

  -- The chain of tests of `ConvertXYDirection`. `junk` is what the variable `direction`, which is
  -- not initialised, holds if no test passes.
  unfoldable pub direction_of : DirectionKey → F → F → DirectionKey
  direction_of junk x y =
      if is_above x && is_zero y
      then direct_right
      else if is_above x && is_above y
      then direct_right_down
      else if is_zero x && is_above y
      then direct_down
      else if is_below x && is_below y
      then direct_left_top
      else if is_below x && is_zero y
      then direct_left
      else if is_below x && is_above y
      then direct_left_down
      else if is_zero x && is_below y
      then direct_top
      else if is_above x && is_below y
      then direct_top_right
      else junk

  -- What holds of two numbers that can be compared, that is, of all but NaN.
  pub record IsOrdered (x : F) : Type 0 where
    pub some_side : (is_above x ≡ true) ⊎ (is_below x ≡ true) ⊎ (is_zero x ≡ true)
    pub above_only : is_above x ≡ true → (is_below x ≡ false) × (is_zero x ≡ false)
    pub below_only : is_below x ≡ true → is_zero x ≡ false

-- The sides that a direction has, by its name.
abbrev pub goes_right : DirectionKey → Bool
goes_right direct_right = true
goes_right direct_right_down = true
goes_right direct_top_right = true
goes_right _ = false

abbrev pub goes_left : DirectionKey → Bool
goes_left direct_left = true
goes_left direct_left_top = true
goes_left direct_left_down = true
goes_left _ = false

abbrev pub goes_down : DirectionKey → Bool
goes_down direct_down = true
goes_down direct_right_down = true
goes_down direct_left_down = true
goes_down _ = false

abbrev pub goes_up : DirectionKey → Bool
goes_up direct_top = true
goes_up direct_left_top = true
goes_up direct_top_right = true
goes_up _ = false

-- For coordinates that are not NaN and not both 0, the tests choose the direction with just the
-- sides on which the coordinates lie; so the uninitialised value is never used.
pub direction_sides :
    (fl : Floats) (junk : DirectionKey) (x y : fl.F)
    → IsOrdered fl x
    → IsOrdered fl y
    → is_zero fl x && is_zero fl y ≡ false
    → let d = direction_of fl junk x y in
      (goes_right d ≡ is_above fl x)
      × (goes_left d ≡ is_below fl x)
      × (goes_down d ≡ is_above fl y)
      × (goes_up d ≡ is_below fl y)
unfolding direction_of
direction_sides fl junk x y ox oy h =
    ground (
      arith, ox.some_side, ox.above_only, ox.below_only, oy.some_side, oy.above_only, oy.below_only,
    )
