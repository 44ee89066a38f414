-- ===== src/Panel/Tests.antt =====
-- The theorems of the window of cloudstreamer.cpp at concrete inputs.
use push_streamer_client.Prelude.{List, ◌≡◌, refl, true, false, not, ◌&&◌, some, none, [], ◌∷◌}
use push_streamer_client.Prelude.Int.{pos}
use push_streamer_client.Qt.Example.{to_int, example_qt-SettingsLaws}
use push_streamer_client.Ini.{get_value}
use push_streamer_client.Keymap.{is_null}
use push_streamer_client.Session.{
  World, default_mode, only_push_streamer, set_log_path, close_push, keyboard_start, keyboard_stop,
  push,
}
use push_streamer_client.Session.Callbacks.{stops_keyboard}
use push_streamer_client.Session.Tests.{qt, files, late, fresh, status}
use push_streamer_client.Panel.Alone.{hear, watch, Alone, presses-Alone}
use push_streamer_client.Panel.{set_ui_model, Panel, Form, mode_groups}
use push_streamer_client.Panel.Presses.{
  Press, start_button, stop_button, mode_chosen, presses, press, on_push_button_3, form_thread,
  on_push_button_2, on_exit, start_stream, push_form, start_keys,
}
use push_streamer_client.Session.Actions.{drop_keyboard, start_thread}
use push_streamer_client.Panel.Laws.{force_quit_topic, force_quit_key, written, on_exit-Closed}

abbrev works : World
works = record late { push_ok = λ t. true }

abbrev form : Form
form = record {
  room_name = "room";
  push_server = "https://stream:1/";
  push_domain = "stream";
  framerate = "30";
  bitrate = "800";
  deadline = "1";
  cpuused = "4";
  screen_width = "640";
  screen_height = "480";
  mode = pos 0;
  capmode = pos 1;
  vol = pos 2;
  key_host = "keys";
  key_port = "2";
  login_command = "login";
  game_path = "";
  game_params = "";
  file_url = "";
  save_path = "";
}

-- The window with an open streamConfig.ini and a keyboard thread.
abbrev panel : Panel qt
panel = record {
  session = record fresh { key_board_thread = some (form_thread qt works form) };
  stream_config = some (some status);
  log_path = "log";
  label = "";
  groups = mode_groups default_mode;
  form = form;
}

-- The start button, in a world in which `push` succeeds.
starts :
    (on_push_button_2 qt works panel).session.effects
    ≡ set_log_path "log"
      ∷ close_push "room" "https://stream:1/"
      ∷ push "room" "https://stream:1/" "stream"
          (pos 30 ∷ pos 800 ∷ pos 1 ∷ pos 4 ∷ pos 640 ∷ pos 480 ∷ pos 0 ∷ pos 1 ∷ pos 2 ∷ [])
      ∷ keyboard_stop
      ∷ keyboard_start (form_thread qt works form)
      ∷ []
unfolding on_push_button_2 start_stream push_form start_keys drop_keyboard start_thread form_thread
    to_int
starts = refl

-- If `push` fails, the label stays and no keyboard thread is started.
stays : (on_push_button_2 qt late panel).label ≡ ""
unfolding on_push_button_2 start_stream push_form
stays = refl

on_exit-Closed_test :
    let q = on_exit qt late panel in
    (q.stream_config ≡ some (written qt late status "1"))
    × (get_value qt (written qt late status "1") force_quit_topic force_quit_key ≡ some "1")
    × (q.label ≡ "stop!")
    × ((stops_keyboard default_mode && not (is_null q.session.key_board_thread)) ≡ false)
    × (q.session.info ≡ none)
on_exit-Closed_test = on_exit-Closed qt late (example_qt-SettingsLaws files) panel status refl refl

-- The session of the window with no thread and no effect.
abbrev still : Panel qt
still = record panel { session = fresh }

abbrev two_starts : List Press
two_starts = start_button ∷ start_button ∷ mode_chosen only_push_streamer ∷ stop_button ∷ []

-- Two starts: the first thread is stopped. In the mode of the stream alone the second one stays.
one_thread : watch false (presses qt works still two_starts).session.effects ≡ some true
unfolding presses press on_push_button_2 on_push_button_3 start_stream push_form start_keys
    drop_keyboard start_thread form_thread to_int set_ui_model watch hear
one_thread = refl

presses-Alone_example : Alone qt works (presses qt works still two_starts).session
unfolding watch
presses-Alone_example = presses-Alone qt works still two_starts (false, refl, refl)
