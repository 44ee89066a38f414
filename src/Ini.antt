-- ===== src/Ini.antt =====
-- dealinifile.cpp: the class `DealIniFile`, a wrapper of one `QSettings` file. Its only field is
-- the pointer `m_iniFileParse`; `none` is the null pointer.
pub mod Laws
mod Tests
use push_streamer_client.Prelude.{
  ℕ, ◌≡◌, Bool, true, false, ◌&&◌, ◌||◌, not, Option, none, some, List, [], ◌∷◌, String, str_append,
  str_eq, if◌then◌else◌,
}
use push_streamer_client.Prelude.Int.{ℤ, pos, negsuc}
use push_streamer_client.Qt.{Qt, is_empty}

abbrev pub Ini : Qt → Type 0
Ini qt = Option qt.Settings

-- `QVariant::toString`.
abbrev pub to_string : Option String → String
to_string none = ""
to_string (some v) = v

-- `topic + "/" + key`.
abbrev pub key_path : String → String → String
key_path topic key = str_append (str_append topic "/") key

module _ (qt : Qt) where
  open qt use {Settings, load, value, set_value, child_groups, file_exists, to_local}

  -- `OpenFile`: the new pointer and the return code.
  unfoldable pub open_file : Ini qt → String → Ini qt × ℤ
  open_file ini path =
      if is_empty path
      then (ini, negsuc 0)
      else if file_exists path
      then (some (load path), pos 0)
      else (none, negsuc 0)

  -- `GetValue(topic, key)`.
  unfoldable pub get_value : Ini qt → String → String → Option String
  get_value none topic key = none
  get_value (some s) topic key = value s (key_path topic key)

  -- The loop of `GetValue(key, keyValue, goalKey)` over the groups.
  unfoldable pub find_group : Ini qt → String → String → String → List String → Option String
  find_group ini key key_value goal_key [] = none
  find_group ini key key_value goal_key (g ∷ gs) =
      if str_eq key_value (to_string (get_value ini g key))
      then get_value ini g goal_key
      else find_group ini key key_value goal_key gs

  -- `GetValue(key, keyValue, goalKey)`: the goal of the first group whose key has the value.
  unfoldable pub get_value_where : Ini qt → String → String → String → Option String
  get_value_where none key key_value goal_key = none
  get_value_where (some s) key key_value goal_key =
      if not (is_empty key) || not (is_empty goal_key)
      then find_group (some s) key key_value goal_key (child_groups s)
      else none

  -- The part of `SetValue` under its guard on the names.
  unfoldable pub put : Ini qt → String → String → Ini qt × Bool
  put none k v = (none, false)
  put (some s) k v = (some (set_value s k (to_local v)), true)

  -- `SetValue`: the new contents and the result.
  unfoldable pub set_ini_value : Ini qt → String → String → String → Ini qt × Bool
  unfolding put
  set_ini_value ini topic key v =
      if not (is_empty topic) && not (is_empty key)
      then put ini (key_path topic key) v
      else (ini, false)
