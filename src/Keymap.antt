-- ===== src/Keymap.antt =====
-- keyvaluetransformt.cpp: the class `KeyValueTransformt`, which maps the keys and the stick of a
-- gamepad to keyboard keys by three ini files and a cache, and queues what the device shall do.
pub mod Direction
pub mod Range
pub mod Cache
pub mod Stick
pub mod StickLaws
pub mod Moves
pub mod Keys
pub mod KeysLaws
mod Tests
use push_streamer_client.Prelude.{
  ◌≡◌, Bool, true, false, not, ◌&&◌, ◌||◌, Option, none, some, List, [], ◌∷◌, ◌++◌, map, String,
  str_eq, if◌then◌else◌,
}
use push_streamer_client.Prelude.Int.{ℤ, pos, negsuc, eq_ℤ}
use push_streamer_client.Qt.{Qt, is_empty}
use push_streamer_client.Ini.{Ini, to_string, get_value, open_file}
use push_streamer_client.Device.{
  Callback, direct_up, direct_down, press, release, move_to, button_down,
}
use push_streamer_client.Consumer.{
  Consumer, Products, KeyBoardType, normal_key_action, handle_shake_direct_key, mouse_action,
  produce, new_consumer, stop,
}
use Direction.{
  Floats, DirectionKey, direct_origin, direct_left, direct_top, direct_right,
  direct_down as down_key, direction_name, direction_of,
}

-- The fields of the class. `none` is a null pointer; `m_consumerKeyboard` is its queue. The last
-- direction point has the two coordinates of the stick.
pub record Keymap (qt : Qt) (fl : Floats) : Type 0 where
  pub name_key_table : Option (Ini qt)
  pub default_key_board : Option (Ini qt)
  pub game_key_board : Option (Ini qt)
  pub key_value_map : List (String × String)
  pub last_direct : DirectionKey
  pub last_x : fl.F
  pub last_y : fl.F
  pub consumer : Option Consumer

-- `m_keyValueMap.find`.
unfoldable pub map_find : String → List (String × String) → Option String
map_find k [] = none
map_find k ((j, v) ∷ m) = if str_eq j k then some v else map_find k m

-- `m_keyValueMap[k] = v`.
unfoldable pub map_assign : String → String → List (String × String) → List (String × String)
map_assign k v [] = (k, v) ∷ []
map_assign k v ((j, w) ∷ m) = if str_eq j k then (j, v) ∷ m else (j, w) ∷ map_assign k v m

abbrev pub topic : String
topic = "KeyboardMapValue"

-- The text of a value in a file behind a pointer.
abbrev pub file_text : (qt : Qt) → Option (Ini qt) → String → String
file_text qt none key = ""
file_text qt (some ini) key = to_string (get_value qt ini topic key)

abbrev pub is_null : {A : Type 0} → Option A → Bool
is_null none = true
is_null (some a) = false

module _ (qt : Qt) (fl : Floats) where
  open qt use {to_int, to_local, split, number}

  -- The constructor: the three files are opened, whether or not that succeeds.
  unfoldable pub new_keymap : String → String → String → Keymap qt fl
  new_keymap name_path default_path game_path = record {
    name_key_table = some (open_file qt none name_path).0;
    default_key_board = some (open_file qt none default_path).0;
    game_key_board = some (open_file qt none game_path).0;
    key_value_map = [];
    last_direct = direct_origin;
    last_x = fl.zero;
    last_y = fl.zero;
    consumer = some new_consumer;
  }

  -- `!m_nameKeyTable.get() && !m_defaultKeyBoardPath.get()`.
  unfoldable pub no_tables : Keymap qt fl → Bool
  no_tables s = is_null s.name_key_table && is_null s.default_key_board

  -- `GetKeyValueInMap`.
  unfoldable pub get_key_value_in_map : Keymap qt fl → String → String
  unfolding map_find
  get_key_value_in_map s key =
      if is_empty key then "" else to_string (map_find (to_local key) s.key_value_map)

  -- `SetKeyValueInMap`: an empty key is inserted only if it is not there.
  unfoldable pub set_key_value_in_map : Keymap qt fl → String → String → Keymap qt fl
  unfolding map_assign map_find
  set_key_value_in_map s key v =
      let k = to_local key in
      let m = map_assign k (to_local v) s.key_value_map in
      if not (is_empty key)
      then record s { key_value_map = m }
      else if is_null (map_find k s.key_value_map)
      then record s { key_value_map = m }
      else s

  -- `AddKeyValueToThread`.
  unfoldable pub add_key_value_to_thread : Keymap qt fl → Products → Keymap qt fl
  add_key_value_to_thread s p = elim s.consumer [
    | none ↦ s
    | some c ↦ record s { consumer = some (produce c p) }
  ]

  -- The loops that queue one callback for each key, in order.
  unfoldable pub add_all : Keymap qt fl → KeyBoardType → (ℤ → Callback) → List ℤ → Keymap qt fl
  add_all s t f [] = s
  add_all s t f (k ∷ ks) =
      add_all (add_key_value_to_thread s (record { type = t; callback = f k })) t f ks

  -- The keys of a value such as "87:68".
  abbrev pub key_list : String → List ℤ
  key_list v = map to_int (split v ":")

  -- The part of `GetMapKeyValueEx` after the cache: the game's file first, then the default.
  unfoldable pub lookup_direction : Keymap qt fl → String → String
  lookup_direction s key =
      let game = file_text qt s.game_key_board key in
      if is_empty key || (is_null s.name_key_table || is_null s.default_key_board)
      then ""
      else if is_empty game
      then file_text qt s.default_key_board key
      else game

  -- `GetMapKeyValueEx`: the state, the return code, and the vector with the keys appended.
  unfoldable pub get_map_key_value_ex :
      Keymap qt fl → DirectionKey → List ℤ → Keymap qt fl × ℤ × List ℤ
  get_map_key_value_ex s d vector =
      let key = direction_name d in
      let cached = get_key_value_in_map s key in
      let v = lookup_direction s key in
      if not (is_empty cached)
      then (s, pos 0, vector ++ key_list cached)
      else if no_tables s
      then (s, negsuc 0, vector)
      else if is_empty v
      then (s, negsuc 0, vector)
      else (set_key_value_in_map s key v, pos 0, vector ++ key_list v)

  -- The part of `GetMapKeyValue` after the cache: the key's name, then the value of the name.
  unfoldable pub lookup_key : Keymap qt fl → String → String
  lookup_key s key =
      let name = file_text qt s.name_key_table key in
      let game = file_text qt s.game_key_board name in
      if is_empty name
      then ""
      else if is_empty game
      then file_text qt s.default_key_board name
      else game

  -- `GetMapKeyValue`.
  unfoldable pub get_map_key_value : Keymap qt fl → String → String × Keymap qt fl
  get_map_key_value s key =
      let cached = get_key_value_in_map s key in
      let v = lookup_key s key in
      if no_tables s || is_empty key
      then ("", s)
      else if not (is_empty cached)
      then (cached, s)
      else if is_empty v
      then ("", s)
      else (v, set_key_value_in_map s key v)
