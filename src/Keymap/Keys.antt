-- ===== src/Keymap/Keys.antt =====
-- The buttons and the mouse of keyvaluetransformt.cpp: `KeyDown_C`, `KeyUP_C`, `MouseMove_C`,
-- `MouseUp_C` and `MouseDown_C`.
use push_streamer_client.Prelude.{List, [], ◌∷◌, if◌then◌else◌}
use push_streamer_client.Prelude.Int.{ℤ, pos, negsuc, eq_ℤ}
use push_streamer_client.Qt.{Qt}
use push_streamer_client.Device.{Callback, press, release, move_to, button_down}
use push_streamer_client.Consumer.{Products, normal_key_action, mouse_action}
use push_streamer_client.Keymap.Direction.{Floats}
use push_streamer_client.Keymap.{
  Keymap, get_map_key_value, add_all, add_key_value_to_thread, key_list, no_tables,
}

-- `if(key)`: a part that is no number, or is 0, is skipped.
unfoldable pub nonzero : List ℤ → List ℤ
nonzero [] = []
nonzero (k ∷ ks) = if eq_ℤ k (pos 0) then nonzero ks else k ∷ nonzero ks

module _ (qt : Qt) (fl : Floats) where
  -- The body that `KeyDown_C` and `KeyUP_C` share: the keys of a button, each with a callback.
  unfoldable pub queue_keys : Keymap qt fl → ℤ → (ℤ → Callback) → Keymap qt fl × ℤ
  queue_keys s key f =
      let (v, s') = get_map_key_value qt fl s (qt.number key) in
      if no_tables qt fl s
      then (s, negsuc 0)
      else (add_all qt fl s' normal_key_action f (nonzero (key_list qt fl v)), pos 0)

  -- `KeyDown_C`: the new state and the return code.
  unfoldable pub key_down_c : Keymap qt fl → ℤ → Keymap qt fl × ℤ
  key_down_c s key = queue_keys s key press

  -- `KeyUP_C`.
  unfoldable pub key_up_c : Keymap qt fl → ℤ → Keymap qt fl × ℤ
  key_up_c s key = queue_keys s key release

  -- `MouseMove_C`.
  unfoldable pub mouse_move_c : Keymap qt fl → ℤ → ℤ → ℤ → Keymap qt fl × ℤ
  mouse_move_c s x y c =
      let p : Products = record { type = mouse_action; callback = move_to x y c } in
      if no_tables qt fl s then (s, negsuc 0) else (add_key_value_to_thread qt fl s p, pos 0)

  -- `MouseUp_C`: the callback is built and never queued.
  unfoldable pub mouse_up_c : Keymap qt fl → ℤ → ℤ → ℤ → Keymap qt fl × ℤ
  mouse_up_c s x y c = if no_tables qt fl s then (s, negsuc 0) else (s, pos 0)

  -- `MouseDown_C`.
  unfoldable pub mouse_down_c : Keymap qt fl → ℤ → ℤ → ℤ → Keymap qt fl × ℤ
  mouse_down_c s x y c =
      let p : Products = record { type = mouse_action; callback = button_down x y c } in
      if no_tables qt fl s then (s, negsuc 0) else (add_key_value_to_thread qt fl s p, pos 0)
