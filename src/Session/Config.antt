-- ===== src/Session/Config.antt =====
-- The lookups of cloudstreamer.cpp in cloudGameConfig.ini.
use push_streamer_client.Prelude.{
  Bool, true, ◌||◌, Option, none, some, String, str_append, if◌then◌else◌,
}
use push_streamer_client.Prelude.Int.{pos, eq_ℤ}
use push_streamer_client.Qt.{Qt, is_empty}
use push_streamer_client.Ini.{Ini, to_string, open_file, get_value_where}
use push_streamer_client.Session.{Session}

abbrev pub cloud_stream_config_file : String
cloud_stream_config_file = "//cloudGameConfig.ini"

module _ (qt : Qt) where
  open qt use {app_dir}

  -- The first part of the lookups: the file is opened once. The pointer is set even if the file
  -- cannot be opened, but then the lookup of this call gives "".
  unfoldable pub open_config : Session qt → Session qt × Bool
  open_config s = elim s.config [
    | some ini ↦ (s, true)
    | none ↦
        let (ini, ret) = open_file qt none (str_append app_dir cloud_stream_config_file) in
        (record s { config = some ini }, eq_ℤ ret (pos 0))
  ]

  -- The value of a game in the file behind the pointer.
  unfoldable pub config_value : Option (Ini qt) → String → String → String
  config_value none game_id key_name = ""
  config_value (some ini) game_id key_name =
      to_string (get_value_where qt ini "id" game_id key_name)

  -- `GetValueByGameID`: the value, and the state after the file was opened.
  unfoldable pub get_value_by_game_id : Session qt → String → String → Session qt × String
  get_value_by_game_id s game_id key_name =
      let (s', ok) = open_config s in
      if is_empty game_id || (is_empty key_name || is_empty app_dir)
      then (s, "")
      else if ok
      then (s', config_value s'.config game_id key_name)
      else (s', "")

  -- `GetGamePathByID`.
  unfoldable pub get_game_path_by_id : Session qt → String → Session qt × String
  get_game_path_by_id s game_id =
      let (s', ok) = open_config s in
      if is_empty game_id || is_empty app_dir
      then (s, "")
      else if ok
      then (s', config_value s'.config game_id "path")
      else (s', "")

  -- `GetGameStopByID`.
  unfoldable pub get_game_stop_by_id : Session qt → String → Session qt × String
  get_game_stop_by_id s game_id =
      let (s', ok) = open_config s in
      if is_empty game_id || is_empty app_dir
      then (s, "")
      else if ok
      then (s', config_value s'.config game_id "gameExeName")
      else (s', "")
