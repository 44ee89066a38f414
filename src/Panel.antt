-- ===== src/Panel.antt =====
-- cloudstreamer.cpp: the window of the class `CloudStreamer`. The widgets are a record of texts, and the
-- modes enable groups of them. Panel/Files has the constructor as far as it reads the two
-- configuration files, Panel/Presses the buttons and the exit.
pub mod Files
pub mod Presses
pub mod Laws
pub mod Alone
mod Tests
use push_streamer_client.Prelude.{
  Bool, true, false, not, ◌&&◌, ◌||◌, Option, none, some, List, [], ◌∷◌, map, String, str_append,
  if◌then◌else◌,
}
use push_streamer_client.Prelude.Int.{ℤ, pos, eq_ℤ}
use push_streamer_client.Qt.{Qt, is_empty}
use push_streamer_client.Ini.{Ini, to_string, open_file, get_value, set_ini_value}
use push_streamer_client.Session.{
  World, Session, KeyBoardThread, UiMode, default_mode, only_push_streamer, only_key_board,
  set_log_path, download, start_script, close_push, push, emit, tick,
}
use push_streamer_client.Session.Config.{get_value_by_game_id, cloud_stream_config_file}
use push_streamer_client.Session.Process.{kill_game_by_name}
use push_streamer_client.Session.Actions.{drop_keyboard, start_thread}
use push_streamer_client.Session.Callbacks.{stops_stream, stops_keyboard}

-- The texts of the widgets: lineEdit_3, lineEdit, lineEdit_2, lineEdit_4 to lineEdit_9, the current
-- indices of comboBox to comboBox_3, lineEdit_11, lineEdit_10, textEdit; lineEdit_14,
-- lineEdit_12, lineEdit_13 and lineEdit_15.
pub record Form : Type 0 where
  pub room_name : String
  pub push_server : String
  pub push_domain : String
  pub framerate : String
  pub bitrate : String
  pub deadline : String
  pub cpuused : String
  pub screen_width : String
  pub screen_height : String
  pub mode : ℤ
  pub capmode : ℤ
  pub vol : ℤ
  pub key_host : String
  pub key_port : String
  pub login_command : String
  pub game_path : String
  pub game_params : String
  pub file_url : String
  pub save_path : String

-- The groups of widgets that are enabled: groupBox, and those with a number.
pub record Groups : Type 0 where
  pub box : Bool
  pub box_2 : Bool
  pub box_3 : Bool
  pub box_7 : Bool
  pub box_9 : Bool

-- The session; the pointer `m_StreamConfigIniParse`; `g_gStreamerLogPath`; the text of label_16.
pub record Panel (qt : Qt) : Type 0 where
  pub session : Session qt
  pub stream_config : Option (Ini qt)
  pub log_path : String
  pub label : String
  pub groups : Groups
  pub form : Form

-- The groups of a mode.
unfoldable pub mode_groups : UiMode → Groups
mode_groups only_push_streamer = record {
  box = true;
  box_2 = false;
  box_3 = false;
  box_7 = true;
  box_9 = false;
}
mode_groups only_key_board = record {
  box = false;
  box_2 = true;
  box_3 = false;
  box_7 = true;
  box_9 = false;
}
mode_groups default_mode = record {
  box = true;
  box_2 = true;
  box_3 = true;
  box_7 = true;
  box_9 = true;
}

module _ (qt : Qt) where
  -- `SetUIModel`.
  unfoldable pub set_ui_model : Panel qt → UiMode → Panel qt
  set_ui_model p m = record p { session = record p.session { mode = m }; groups = mode_groups m }
