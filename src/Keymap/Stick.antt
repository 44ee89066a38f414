-- ===== src/Keymap/Stick.antt =====
-- The stick of keyvaluetransformt.cpp: `ReverseBounce`, `ConvertXYDirection`, `DirectionAllUp`.
use push_streamer_client.Prelude.{Bool, true, false, not, ◌&&◌, ◌||◌, List, [], if◌then◌else◌}
use push_streamer_client.Prelude.Int.{ℤ, pos, negsuc, eq_ℤ}
use push_streamer_client.Qt.{Qt}
use push_streamer_client.Device.{direct_up, direct_down}
use push_streamer_client.Consumer.{handle_shake_direct_key}
use push_streamer_client.Keymap.Direction.{
  Floats, DirectionKey, direct_origin, direct_right, direct_left, direct_top,
  direct_down as down_key, direction_of, is_above, is_below, is_zero,
}
use push_streamer_client.Keymap.{Keymap, get_map_key_value_ex, add_all, no_tables, is_null}

abbrev pub is_origin : DirectionKey → Bool
is_origin direct_origin = true
is_origin _ = false

-- Both coordinates lie on one side of 0.
abbrev pub same_side : (fl : Floats) → fl.F → fl.F → Bool
same_side fl a b = (is_above fl a && is_above fl b) || (is_below fl a && is_below fl b)

module _ (qt : Qt) (fl : Floats) where
  -- `GetMapKeyValueEx` under a test; the vector collects the keys.
  unfoldable pub collect : Bool → DirectionKey → Keymap qt fl × List ℤ → Keymap qt fl × List ℤ
  collect false d (s, v) = (s, v)
  collect true d (s, v) = let (s', _, v') = get_map_key_value_ex qt fl s d v in (s', v')

  -- The two lookups of `ReverseBounce`: the keys of the axes on which the stick left its side.
  unfoldable pub bounce_keys : Keymap qt fl → fl.F → fl.F → Keymap qt fl × List ℤ
  bounce_keys s x y =
      let across = if is_above fl s.last_x then direct_right else direct_left in
      let along = if is_above fl s.last_y then down_key else direct_top in
      collect (not (same_side fl y s.last_y)) along
        (collect (not (same_side fl x s.last_x)) across (s, []))

  -- `ReverseBounce`.
  unfoldable pub reverse_bounce : Keymap qt fl → fl.F → fl.F → Keymap qt fl
  reverse_bounce s x y =
      let (s', ks) = bounce_keys s x y in
      if is_zero fl s.last_x && is_zero fl s.last_y
      then s
      else if same_side fl x s.last_x && same_side fl y s.last_y
      then s
      else add_all qt fl s' handle_shake_direct_key direct_up ks

  -- `m_lastDirectPoint` set.
  abbrev pub with_point : Keymap qt fl → fl.F → fl.F → Keymap qt fl
  with_point s x y = record s { last_x = x; last_y = y }

  -- The lookup of `ConvertXYDirection`, skipped for `DIRECT_ORIGIN`.
  unfoldable pub stick_keys : Keymap qt fl → DirectionKey → Keymap qt fl × ℤ × List ℤ
  stick_keys s d = if is_origin d then (s, negsuc 0, []) else get_map_key_value_ex qt fl s d []

  -- The part of `ConvertXYDirection` after its tests, for a stick that is not centred.
  unfoldable pub move_stick : Keymap qt fl → DirectionKey → fl.F → fl.F → Keymap qt fl × ℤ
  move_stick s d x y =
      let (s1, ret, ks) = stick_keys s d in
      let s2 = reverse_bounce s1 x y in
      let s3 = record s2 { last_direct = d; last_x = x; last_y = y } in
      (
        (if eq_ℤ ret (pos 0) then add_all qt fl s3 handle_shake_direct_key direct_down ks else s3),
        ret,
      )

  -- `ConvertXYDirection`; `junk` is the content of its uninitialised variable.
  unfoldable pub convert_xy_direction : DirectionKey → Keymap qt fl → fl.F → fl.F → Keymap qt fl × ℤ
  convert_xy_direction junk s x y =
      if no_tables qt fl s
      then (with_point s fl.zero fl.zero, negsuc 0)
      else if is_zero fl x && is_zero fl y
      then (with_point s fl.zero fl.zero, negsuc 1)
      else move_stick s (direction_of fl junk x y) x y

  -- `DirectionAllUp`.
  unfoldable pub direction_all_up : Keymap qt fl → Keymap qt fl
  direction_all_up s =
      let (s', _, ks) = get_map_key_value_ex qt fl s s.last_direct [] in
      if not (is_null s.consumer) then s else add_all qt fl s' handle_shake_direct_key direct_up ks
