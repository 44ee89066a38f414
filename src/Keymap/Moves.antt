-- ===== src/Keymap/Moves.antt =====
-- The theorem of a moving stick of keyvaluetransformt.cpp: releases come before presses.
use push_streamer_client.Prelude.{◌≡◌, Bool, ◌&&◌, ◌||◌, some, List, [], ◌∷◌, ◌++◌, if◌then◌else◌}
use push_streamer_client.Prelude.Int.{ℤ, pos, eq_ℤ}
use push_streamer_client.Qt.{Qt}
use push_streamer_client.Device.{Callback, direct_up, direct_down}
use push_streamer_client.Consumer.{Consumer, handle_shake_direct_key}
use push_streamer_client.Keymap.Direction.{
  Floats, DirectionKey, direct_right, direct_left, direct_top, direct_down as down_key, is_zero,
}
use push_streamer_client.Keymap.Cache.{products, queue}
use push_streamer_client.Keymap.{Keymap, get_map_key_value_ex}
use push_streamer_client.Keymap.Stick.{same_side, bounce_keys, stick_keys}

module _ (qt : Qt) (fl : Floats) where
  -- Two positions on one side of the centre.
  abbrev pub is_kept : fl.F → fl.F → Bool
  is_kept a b = (fl.lt fl.zero a && fl.lt fl.zero b) || (fl.lt a fl.zero && fl.lt b fl.zero)

  -- The directions of the sides that a stick at the last point leaves when it moves: right of the
  -- centre or left of it, below the centre or above it; none from the centre.
  unfoldable pub sides_left : Keymap qt fl → fl.F → fl.F → List DirectionKey
  sides_left s x y =
      let across = if fl.lt fl.zero s.last_x then direct_right else direct_left in
      let along = if fl.lt fl.zero s.last_y then down_key else direct_top in
      if fl.eq fl.zero s.last_x && fl.eq fl.zero s.last_y
      then []
      else (if is_kept x s.last_x then [] else across ∷ [])
        ++ (if is_kept y s.last_y then [] else along ∷ [])

  -- The keys of some directions, looked up one after the other.
  unfoldable pub look_up_all : List DirectionKey → Keymap qt fl → List ℤ → List ℤ
  look_up_all [] s v = v
  look_up_all (d ∷ ds) s v =
      let (s', ret, v') = get_map_key_value_ex qt fl s d v in look_up_all ds s' v'

  -- The keys of the sides that the stick leaves.
  abbrev pub left_keys : Keymap qt fl → fl.F → fl.F → List ℤ
  left_keys s x y = look_up_all (sides_left s x y) s []

  -- The keys that `ReverseBounce` releases.
  abbrev bounced : Keymap qt fl → fl.F → fl.F → List ℤ
  bounced s x y =
      if is_zero fl s.last_x && is_zero fl s.last_y
      then []
      else if same_side fl x s.last_x && same_side fl y s.last_y
      then []
      else (bounce_keys qt fl s x y).1

  -- The keys that `ConvertXYDirection` presses.
  abbrev pub pressed : Keymap qt fl → DirectionKey → List ℤ
  pressed s d = let (_, ret, ks) = stick_keys qt fl s d in if eq_ℤ ret (pos 0) then ks else []

  -- A queue that was lengthened by products, with a consumer still there.
  abbrev Grows : (ℤ → Callback) → Keymap qt fl → Keymap qt fl → List ℤ → Type 0
  Grows f s r ks =
      (queue qt fl r ≡ queue qt fl s ++ products handle_shake_direct_key f ks)
      × ((e : Consumer) × (r.consumer ≡ some e))

  abbrev Adds : Keymap qt fl → Keymap qt fl → List ℤ → Type 0
  Adds = Grows direct_up
