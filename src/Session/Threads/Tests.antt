-- ===== src/Session/Threads/Tests.antt =====
-- The threads of cloudstreamer.cpp at concrete inputs.
use push_streamer_client.Prelude.{◌≡◌, refl, true, some, List, [], ◌∷◌, ◌++◌}
use push_streamer_client.Prelude.Int.{pos, eq_ℤ}
use push_streamer_client.Qt.Example.{File, lookup, load_from, is_there, example_qt-SettingsLaws}
use push_streamer_client.Ini.{open_file, get_value, get_value_where, find_group, set_ini_value}
use push_streamer_client.Session.Config.{get_value_by_game_id, open_config, config_value}
use push_streamer_client.GameInfo.{record_id_status, write, init_deal_ini_file, get_game_status}
use push_streamer_client.GameInfo.Laws.{Reads}
use push_streamer_client.Session.{close_push, sleep, done, Session, normal_model}
use push_streamer_client.Session.Process.{
  is_process_running, check_running, running_pid, game_is_areadly_running,
}
use push_streamer_client.Session.Messages.{no_params}
use push_streamer_client.Session.Callbacks.{
  stop_game_callback, stop_running, stop_protect_gst_launch,
}
use push_streamer_client.Session.Actions.{push_call, send_report, drop_keyboard}
use push_streamer_client.Session.Frames.{is_watching}
use push_streamer_client.Session.Threads.{
  Pending, launching, checking, pushing, awaiting, stopping, Choice, arrives, runs, Program,
  schedule,
}
use push_streamer_client.Session.Threads.Safe.{Safe}
use push_streamer_client.Session.Threads.Stopped.{Stopped}
use push_streamer_client.Session.Threads.Race.{start_outlives_stop}
use push_streamer_client.Session.Threads.Late.{push_outlives_stop}
use push_streamer_client.Session.Tests.{
  games, status, named, files, qt, late, fresh, js, qt-KeysApart, qt-FlagTexts,
}
use push_streamer_client.Session.CommandTests.{js1}

abbrev choices : List Choice
choices =
    arrives "type=StopGame;code=0;data=stop"
    ∷ arrives "type=SignIn;code=0;data=sign"
    ∷ runs 2
    ∷ runs 0
    ∷ runs 0
    ∷ runs 1
    ∷ runs 0
    ∷ []

abbrev idle : Program qt late js1
idle = record { session = record fresh { protect = some true }; threads = launching ∷ [] }

abbrev pending : Pending
pending = record {
  game_id = "race";
  data_text = "{}";
  message = record {
    control_url = "c";
    port = "1";
    params = no_params;
    force = pos 0;
    login = "login";
    start_params = "";
  };
  model = normal_model;
}

-- The game runs.
abbrev playing : Session qt
playing = record fresh { now = 2 }

-- The state after a stop without data.
abbrev stopped : Session qt
stopped = stop_running qt late js playing

stops : stop_game_callback qt late js playing "" ≡ done stopped
unfolding stop_game_callback
stops = refl

-- The status file after it.
abbrev recorded : File
recorded = record {
  groups = [];
  values = ("pushStreamerInfo/startGameStatus", "0") ∷ ("pushStreamerInfo/gameId", "race") ∷ [];
}

still_open : init_deal_ini_file qt stopped.info ≡ some (some recorded)
unfolding stop_running stop_protect_gst_launch send_report drop_keyboard get_value_by_game_id
    open_config get_game_status init_deal_ini_file record_id_status write set_ini_value open_file
    is_there load_from eq_ℤ
still_open = refl

still_seen : (game_is_areadly_running qt late stopped "race").1 ≡ true
unfolding stop_running stop_protect_gst_launch send_report drop_keyboard get_value_by_game_id
    open_config config_value get_value_where find_group get_value lookup game_is_areadly_running
    check_running running_pid is_process_running
still_seen = refl

start_outlives_stop_example :
    (cs : List Choice) × (q : Session qt) × (schedule qt late js 9
        (record { session = playing; threads = awaiting pending ∷ stopping "" ∷ [] })
        cs
      ≡ done (record { session = q; threads = launching ∷ [] }))
    × Reads qt q.info "{}" "race" (pos 1)
    × (is_watching q.protect ≡ true)
start_outlives_stop_example =
    start_outlives_stop qt late js 9 playing stopped recorded pending ""
      (example_qt-SettingsLaws files) qt-KeysApart qt-FlagTexts stops still_seen still_open refl

-- The game runs, and the streamer has ended.
abbrev ending : Session qt
ending = record fresh {
  now = 2;
  push_streamer_params = record no_params { room_id = "r"; server_url = "u" };
}

abbrev ended : Session qt
ended = stop_running qt late js ending

ends : stop_game_callback qt late js ending "" ≡ done ended
unfolding stop_game_callback
ends = refl

push_outlives_stop_example :
    let p = ended.push_streamer_params in
    (cs : List Choice) × (q : Session qt) × (schedule qt late js 9
        (record { session = ending; threads = pushing ∷ stopping "" ∷ [] })
        cs
      ≡ done (record { session = q; threads = checking ∷ [] }))
    × (q.effects ≡ ended.effects ++ close_push "r" "u" ∷ push_call qt late p ∷ sleep 8000 ∷ [])
unfolding stop_running stop_protect_gst_launch send_report drop_keyboard get_value_by_game_id
    open_config is_process_running
push_outlives_stop_example =
    push_outlives_stop qt late js (some games) status 9 ending ended "" "race.exe" ends
      (refl, refl, refl, named) refl refl refl refl refl
