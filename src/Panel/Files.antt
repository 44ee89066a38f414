-- ===== src/Panel/Files.antt =====
-- cloudstreamer.cpp: what the class `CloudStreamer` reads from streamConfig.ini in its constructor, and
-- the flag that `QuitForce` writes there.
use push_streamer_client.Prelude.{
  Bool, true, false, Option, none, some, String, str_append, if◌then◌else◌,
}
use push_streamer_client.Prelude.Int.{pos, eq_ℤ}
use push_streamer_client.Qt.{Qt, is_empty}
use push_streamer_client.Ini.{Ini, to_string, open_file, get_value, set_ini_value}
use push_streamer_client.Session.Config.{cloud_stream_config_file}
use push_streamer_client.Panel.{Panel, Form}

abbrev pub stream_config_file : String
stream_config_file = "//streamConfig.ini"

module _ (qt : Qt) where
  open qt use {app_dir}

  -- The pointer to streamConfig.ini, and whether the function goes on.
  unfoldable pub open_stream_config : Option (Ini qt) → Ini qt × Bool
  open_stream_config (some ini) = (ini, true)
  open_stream_config none =
      let (ini, ret) = open_file qt none (str_append app_dir stream_config_file) in
      (ini, eq_ℤ ret (pos 0))

  -- `QuitForce`.
  unfoldable pub quit_force : Panel qt → Bool → Panel qt
  quit_force p value =
      let (ini, ok) = open_stream_config p.stream_config in
      let ini' = (set_ini_value qt ini "streamConfig" "forceQuit" (if value then "1" else "0")).0 in
      if is_empty app_dir
      then p
      else if ok
      then record p { stream_config = some ini' }
      else record p { stream_config = some ini }

  -- A text of streamConfig.ini.
  abbrev pub config_text : Ini qt → String → String
  config_text ini key = to_string (get_value qt ini "streamConfig" key)

  -- The first texts of the widgets; the last four are not set.
  unfoldable pub form_of : Ini qt → Form → Form
  form_of ini f =
      let ip = config_text ini "videoIp" in
      record f {
        room_name = config_text ini "roomId";
        push_server =
            str_append "https://"
              (str_append ip (str_append ":" (str_append (config_text ini "videoPort") "/")));
        push_domain = ip;
        framerate = config_text ini "framerate";
        bitrate = config_text ini "bitrate";
        deadline = config_text ini "deadline";
        cpuused = config_text ini "cpuused";
        screen_width = config_text ini "x";
        screen_height = config_text ini "y";
        mode = qt.to_int (config_text ini "mode");
        capmode = qt.to_int (config_text ini "capmode");
        vol = qt.to_int (config_text ini "vol");
        key_host = config_text ini "keyboardIp";
        key_port = config_text ini "keyboardPort";
        login_command = config_text ini "keyboardLoginParams";
      }

  -- The part of the constructor that has both files.
  unfoldable pub read_config : Panel qt → Ini qt → Panel qt
  read_config p ini = record p {
    log_path = config_text ini "g_gStreamerLogPath";
    form = form_of ini p.form;
  }

  -- The part of the constructor after `QuitForce(false)`.
  unfoldable pub open_game_config : Panel qt → Panel qt
  open_game_config p =
      let (games, ret) = open_file qt none (str_append app_dir cloud_stream_config_file) in
      let p' = record p { session = record p.session { config = some games } } in
      if eq_ℤ ret (pos 0)
      then elim p.stream_config [ none ↦ p' | some ini ↦ read_config p' ini ]
      else p'

  -- The constructor, on the fields as they are before it reads the files.
  unfoldable pub read_files : Panel qt → Panel qt
  read_files p =
      let (ini, ret) = open_file qt none (str_append app_dir stream_config_file) in
      let p' = record p { stream_config = some ini } in
      if is_empty app_dir
      then record p { stream_config = some none }
      else if eq_ℤ ret (pos 0)
      then open_game_config (quit_force p' false)
      else p'
