-- ===== src/Panel/Laws.antt =====
-- The theorems of the window of cloudstreamer.cpp: what its exit leaves behind.
use push_streamer_client.Prelude.{
  ◌≡◌, refl, ◌∙◌, sym, ap, ◌≢◌, str_eq_iff, Bool, true, false, not, ◌&&◌, some, String,
  if◌then◌else◌, arith,
}
use push_streamer_client.Qt.{Qt, SettingsLaws, is_empty}
use push_streamer_client.Ini.{Ini, key_path, get_value, set_ini_value}
use push_streamer_client.Ini.Laws.{get_value-set_ini_value}
use push_streamer_client.Keymap.{is_null}
use push_streamer_client.Session.{World, Session}
use push_streamer_client.Session.Config.{open_config, get_value_by_game_id}
use push_streamer_client.Session.Process.{kill_game_by_name}
use push_streamer_client.Session.Actions.{drop_keyboard}
use push_streamer_client.Session.Callbacks.{stops_keyboard}
use push_streamer_client.Panel.{Panel}
use push_streamer_client.Panel.Files.{open_stream_config, quit_force}
use push_streamer_client.Panel.Presses.{kill_on_exit, on_push_button_3, on_exit}

abbrev pub flag : Bool → String
flag v = if v then "1" else "0"

abbrev pub force_quit_topic : String
force_quit_topic = "streamConfig"

abbrev pub force_quit_key : String
force_quit_key = "forceQuit"

topic_ne : force_quit_topic ≢ ""
topic_ne = ground (arith, str_eq_iff force_quit_topic "")

force_quit_key_ne : force_quit_key ≢ ""
force_quit_key_ne = ground (arith, str_eq_iff force_quit_key "")

module _ (qt : Qt) (w : World) where
  -- What `QuitForce` has written.
  abbrev pub written : qt.Settings → String → Ini qt
  written st text = (set_ini_value qt (some st) force_quit_topic force_quit_key text).0

  written-reads :
      SettingsLaws qt
      → (st : qt.Settings) (text : String)
      → get_value qt (written st text) force_quit_topic force_quit_key ≡ some (qt.to_local text)
  written-reads l st text =
      get_value-set_ini_value qt l st force_quit_topic force_quit_key text force_quit_topic
        force_quit_key topic_ne force_quit_key_ne
      ∙ rw (l.same_key_refl (key_path force_quit_topic force_quit_key)) refl

  quit_force-writes :
      (p : Panel qt) (st : qt.Settings) (v : Bool)
      → is_empty qt.app_dir ≡ false
      → p.stream_config ≡ some (some st)
      → (quit_force qt p v).stream_config ≡ some (written st (flag v))
  unfolding quit_force open_stream_config
  quit_force-writes p st v a e = ground arith

  pub quit_force-session : (p : Panel qt) (v : Bool) → (quit_force qt p v).session ≡ p.session
  unfolding quit_force
  quit_force-session p v = ground arith

  -- A part of the exit that leaves the record of the game and the mode as they are.
  abbrev pub Keeps : Session qt → Session qt → Type 0
  Keeps s s' = (s'.info ≡ s.info) × (s'.mode ≡ s.mode)

  kill_on_exit-Keeps : (s : Session qt) → Keeps s (kill_on_exit qt w s)
  unfolding kill_on_exit get_value_by_game_id open_config kill_game_by_name
  kill_on_exit-Keeps s = ground arith

  button_3-info : (p : Panel qt) → Keeps p.session (on_push_button_3 qt w p).session
  unfolding on_push_button_3 drop_keyboard
  button_3-info p = ground arith

  button_3-keyboard :
      (p : Panel qt)
      → (stops_keyboard p.session.mode
          && not (is_null (on_push_button_3 qt w p).session.key_board_thread))
        ≡ false
  unfolding on_push_button_3 drop_keyboard
  button_3-keyboard p = ground arith

  -- `OnExit`, with streamConfig.ini open: the file says that the exit was wanted, the window says
  -- that the program stopped, no keyboard thread is left in a mode that has one, and the record of
  -- the game is not touched, so that a game that it calls running stays so.
  pub on_exit-Closed :
      SettingsLaws qt
      → (p : Panel qt) (st : qt.Settings) → is_empty qt.app_dir ≡ false
      → p.stream_config ≡ some (some st)
      → let q = on_exit qt w p in
        (q.stream_config ≡ some (written st "1"))
        × (get_value qt (written st "1") force_quit_topic force_quit_key ≡ some (qt.to_local "1"))
        × (q.label ≡ "stop!")
        × ((stops_keyboard p.session.mode && not (is_null q.session.key_board_thread)) ≡ false)
        × (q.session.info ≡ p.session.info)
  unfolding on_exit on_push_button_3
  on_exit-Closed l p st a e =
      let p1 = quit_force qt p true in
      let p2 = record p1 { session = kill_on_exit qt w p1.session } in
      let same = quit_force-session p true in
      let (info, mode) = kill_on_exit-Keeps p1.session in
      let (info', _) = button_3-info p2 in
      (
        quit_force-writes p st true a e,
        written-reads l st "1",
        refl,
        ap
              (λ m.
                stops_keyboard m
                && not (is_null (on_push_button_3 qt w p2).session.key_board_thread))
              (sym (mode ∙ ap (λ s. s.mode) same))
            ∙ button_3-keyboard p2,
        info' ∙ info ∙ ap (λ s. s.info) same,
      )
