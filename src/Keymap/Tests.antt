-- ===== src/Keymap/Tests.antt =====
-- Runs of keyvaluetransformt.cpp, and its theorems at concrete inputs. The game's files map the
-- button 1 to the keys 87 and 65, and the right side of the stick to the key 68.
use push_streamer_client.Prelude.{◌≡◌, refl, Bool, true, false, [], ◌∷◌, ◌++◌, inl, ltb}
use push_streamer_client.Prelude.Int.{ℤ, pos, negsuc, eq_ℤ}
use push_streamer_client.Qt.{Qt}
use push_streamer_client.Qt.Example.{
  File, lookup, to_int, number, split, load_from, is_there, example_qt,
}
use push_streamer_client.Ini.{open_file, get_value}
use push_streamer_client.Device.{press, release, button_down, direct_down}
use push_streamer_client.Consumer.{
  normal_key_action, mouse_action, handle_shake_direct_key, new_consumer, produce,
}
use push_streamer_client.Keymap.{
  Keymap, new_keymap, no_tables, map_find, map_assign, get_key_value_in_map, set_key_value_in_map,
  add_key_value_to_thread, add_all, lookup_direction, get_map_key_value_ex, lookup_key,
  get_map_key_value,
}
use push_streamer_client.Keymap.Direction.{
  Floats, direct_origin, direction_of, direction_name, goes_right, goes_left, goes_down, goes_up,
  direction_sides,
}
use push_streamer_client.Keymap.Cache.{
  products, queue, get_map_key_value_twice, get_map_key_value_miss,
}
use push_streamer_client.Keymap.Stick.{
  collect, bounce_keys, reverse_bounce, stick_keys, move_stick, convert_xy_direction,
  direction_all_up,
}
use push_streamer_client.Keymap.StickLaws.{centre_forgets, direction_all_up_idle}
use push_streamer_client.Keymap.Keys.{nonzero, key_down_c, key_up_c, mouse_up_c, mouse_down_c}
use push_streamer_client.Keymap.KeysLaws.{key_down_up, mouse_up_lost}

abbrev lt_ℤ : ℤ → ℤ → Bool
lt_ℤ (pos a) (pos b) = ltb a b
lt_ℤ (pos a) (negsuc b) = false
lt_ℤ (negsuc a) (pos b) = true
lt_ℤ (negsuc a) (negsuc b) = ltb b a

abbrev whole : Floats
whole = record { F = ℤ; lt = lt_ℤ; eq = eq_ℤ; zero = pos 0 }

abbrev names : File
names = record { groups = []; values = ("KeyboardMapValue/1", "A") ∷ [] }

abbrev defaults : File
defaults = record {
  groups = [];
  values =
      ("KeyboardMapValue/A", "87:0:65")
      ∷ ("KeyboardMapValue/RIGHT", "68")
      ∷ ("KeyboardMapValue/LEFT", "65")
      ∷ [];
}

abbrev qt : Qt
qt = example_qt (("/names.ini", names) ∷ ("/defaults.ini", defaults) ∷ [])

abbrev fresh : Keymap qt whole
fresh = new_keymap qt whole "/names.ini" "/defaults.ini" "/game.ini"

direction_sides_test :
    let d = direction_of whole direct_origin (pos 3) (pos 4) in
    (goes_right d ≡ true) × (goes_left d ≡ false) × (goes_down d ≡ true) × (goes_up d ≡ false)
unfolding eq_ℤ
direction_sides_test =
    direction_sides whole direct_origin (pos 3) (pos 4)
      (record { some_side = inl refl; above_only = λ e. (refl, refl); below_only = λ e. refl })
      (record { some_side = inl refl; above_only = λ e. (refl, refl); below_only = λ e. refl }) refl

get_map_key_value_twice_example :
    get_map_key_value qt whole (get_map_key_value qt whole fresh "1").1 "1"
    ≡ get_map_key_value qt whole fresh "1"
get_map_key_value_twice_example = get_map_key_value_twice qt whole fresh "1" refl

get_map_key_value_miss_test : (get_map_key_value qt whole fresh "1").0 ≡ "87:0:65"
unfolding new_keymap open_file get_value no_tables get_key_value_in_map map_find lookup is_there
    load_from new_consumer
get_map_key_value_miss_test = get_map_key_value_miss qt whole fresh "1" "A" refl refl refl refl

key_down_up_example :
    queue qt whole (key_up_c qt whole (key_down_c qt whole fresh (pos 1)).0 (pos 1)).0
    ≡ products normal_key_action press (pos 87 ∷ pos 65 ∷ [])
      ++ products normal_key_action release (pos 87 ∷ pos 65 ∷ [])
unfolding new_keymap open_file get_value no_tables get_key_value_in_map map_find lookup is_there
    load_from number to_int split nonzero lookup_key get_map_key_value new_consumer eq_ℤ
key_down_up_example = key_down_up qt whole fresh new_consumer (pos 1) refl refl refl

mouse_up_lost_test :
    let s' = (mouse_down_c qt whole fresh (pos 5) (pos 6) (pos 1)).0 in
    (queue qt whole (mouse_up_c qt whole s' (pos 5) (pos 6) (pos 1)).0
      ≡ record { type = mouse_action; callback = button_down (pos 5) (pos 6) (pos 1) } ∷ [])
    × ((mouse_up_c qt whole s' (pos 5) (pos 6) (pos 1)).1 ≡ pos 0)
unfolding new_keymap open_file no_tables is_there new_consumer
mouse_up_lost_test = mouse_up_lost qt whole fresh new_consumer (pos 5) (pos 6) (pos 1) refl refl

centre_forgets_test :
    let s = (convert_xy_direction qt whole direct_origin fresh (pos 1) (pos 0)).0 in
    let s' = (convert_xy_direction qt whole direct_origin s (pos 0) (pos 0)).0 in
    (queue qt whole s' ≡ queue qt whole s) × (reverse_bounce qt whole s' (negsuc 0) (pos 0) ≡ s')
unfolding new_keymap open_file get_value no_tables get_key_value_in_map map_find lookup is_there
    load_from number to_int split lookup_direction get_map_key_value_ex new_consumer eq_ℤ
    convert_xy_direction move_stick stick_keys reverse_bounce bounce_keys collect add_all
    add_key_value_to_thread direction_name direction_of produce set_key_value_in_map map_assign
centre_forgets_test =
    centre_forgets qt whole direct_origin
      (convert_xy_direction qt whole direct_origin fresh (pos 1) (pos 0)).0 (pos 0) (pos 0)
      (negsuc 0) (pos 0) refl refl refl

direction_all_up_idle_test :
    let s = (convert_xy_direction qt whole direct_origin fresh (pos 1) (pos 0)).0 in
    queue qt whole (direction_all_up qt whole s)
    ≡ record { type = handle_shake_direct_key; callback = direct_down (pos 68) } ∷ []
unfolding new_keymap open_file get_value no_tables get_key_value_in_map map_find lookup is_there
    load_from number to_int split lookup_direction get_map_key_value_ex new_consumer eq_ℤ
    convert_xy_direction move_stick stick_keys reverse_bounce bounce_keys collect add_all
    add_key_value_to_thread direction_name direction_of produce set_key_value_in_map map_assign
direction_all_up_idle_test =
    direction_all_up_idle qt whole
      (convert_xy_direction qt whole direct_origin fresh (pos 1) (pos 0)).0
