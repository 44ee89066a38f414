-- ===== src/Session/CommandTests.antt =====
-- The messages of the relay server and the thread that restarts the streamer in cloudstreamer.cpp, at
-- concrete inputs.
use push_streamer_client.Prelude.{
  arith, ◌≡◌, refl, ◌++◌, none, some, [], ◌∷◌, String, str_eq, str_eq_iff, str_append, List, true,
  false, if◌then◌else◌,
}
use push_streamer_client.Prelude.Int.{pos, eq_ℤ}
use push_streamer_client.Qt.Example.{
  lookup, to_int, split, load_from, is_there, example_qt-SettingsLaws,
}
use push_streamer_client.Ini.{open_file, get_value, set_ini_value}
use push_streamer_client.GameInfo.{
  GameInfo, init_deal_ini_file, get_game_id, get_game_info, get_game_status, read, record_all,
  write,
}
use push_streamer_client.GameInfo.Laws.{Reads}
use push_streamer_client.Session.{done, Session, close_push, report, only_push_streamr}
use push_streamer_client.Session.Process.{is_process_running}
use push_streamer_client.Session.Messages.{Json, no_params, read_stop}
use push_streamer_client.Session.Actions.{push_call}
use push_streamer_client.Session.Callbacks.{start_game_callback, stop_game_callback}
use push_streamer_client.Session.Resolution.{rates_value, change_resolution_callback}
use push_streamer_client.Session.Dispatch.{handle_message}
use push_streamer_client.Session.Protect.{protect_round, protect_loop}
use push_streamer_client.Session.Commands.{IsCommand, stop_then_sign_in}
use push_streamer_client.Session.Resolutions.{SetTextLaws, change_resolution_callback-Reads}
use push_streamer_client.Session.Number.{
  generate_random_number, random_loop, draws_digit, Result, generate_random_number-Result,
}
use push_streamer_client.Session.Watch.{protect_round-restarts, stop_ends_protection}
use push_streamer_client.Session.Tests.{
  games, status, files, qt, late, fresh, js, null, add, is_object, stop_text, stop_value, Value,
  str, obj, get, pair, text, int, is_string, is_member, qt-KeysApart, qt-FlagTexts, opens, named,
}

-- The same JSON, in which the data of a stop and of a sign-in stand for their texts.
unfoldable pub write1 : Value → String
write1 (str t) =
    if str_eq t "stop" then stop_text else if str_eq t "sign" then "sessionId=abc" else t
write1 v = "{}"

abbrev pub js1 : Json
js1 = record js { write = write1 }

pub stop-IsCommand : IsCommand js1 "type=StopGame;code=0;data=stop" "StopGame" stop_text
unfolding get lookup pair text split to_int is_member is_string write1
stop-IsCommand = record {
  value = obj (("type", "StopGame") ∷ ("code", "0") ∷ ("data", "stop") ∷ []);
  code = "0";
  parsed = refl;
  has_type = refl;
  type_is = refl;
  code_is = refl;
  code_zero = refl;
  has_data = refl;
  data_is = refl;
}

sign_in-IsCommand : IsCommand js1 "type=SignIn;code=0;data=sign" "SignIn" "sessionId=abc"
unfolding get lookup pair text split to_int is_member is_string write1
sign_in-IsCommand = record {
  value = obj (("type", "SignIn") ∷ ("code", "0") ∷ ("data", "sign") ∷ []);
  code = "0";
  parsed = refl;
  has_type = refl;
  type_is = refl;
  code_is = refl;
  code_zero = refl;
  has_data = refl;
  data_is = refl;
}

stop_then_sign_in_example :
    (r1 : Session qt) × (r2 : Session qt) × (handle_message qt late js1 9 fresh
        "type=StopGame;code=0;data=stop"
      ≡ done r1)
    × (handle_message qt late js1 9 r1 "type=SignIn;code=0;data=sign" ≡ done r2)
    × (r2.effects ≡ r1.effects ++ report r1.device_no r1.session_id r1.game_id 0 ∷ [])
unfolding get lookup pair text int split to_int is_member is_string read_stop
stop_then_sign_in_example =
    stop_then_sign_in qt late js1 9 fresh status "type=StopGame;code=0;data=stop" stop_text
      "type=SignIn;code=0;data=sign" "sessionId=abc" "abc" stop_value
      (obj (("sessionId", "abc") ∷ [])) (record { server_url = "u"; control_url = "c"; port = "1" })
      (pos 1) (example_qt-SettingsLaws files) qt-KeysApart qt-FlagTexts opens stop-IsCommand refl
      refl refl sign_in-IsCommand refl refl refl refl refl

stop_ends_protection_test :
    (r : Session qt) × (stop_game_callback qt late js fresh stop_text ≡ done r)
    × (protect_loop qt late 1 r ≡ done r)
unfolding get lookup pair text int split to_int read_stop
stop_ends_protection_test =
    stop_ends_protection qt late js 0 fresh status stop_text stop_value
      (record { server_url = "u"; control_url = "c"; port = "1" }) (pos 1)
      (example_qt-SettingsLaws files) qt-KeysApart qt-FlagTexts opens refl refl refl

-- The game runs and the streamer has ended.
abbrev streaming : Session qt
streaming = record fresh {
  now = 2;
  push_streamer_params = record no_params { room_id = "r"; server_url = "u" };
}

protect_round-restarts_example :
    let p = streaming.push_streamer_params in
    let r = protect_round qt late streaming in
    (r.push_streamer_params ≡ p) × (r.effects ≡ close_push "r" "u" ∷ push_call qt late p ∷ [])
unfolding is_process_running
protect_round-restarts_example =
    protect_round-restarts qt late (some games) status streaming "race.exe"
      (refl, refl, refl, named) refl refl refl refl

-- A game that runs, with recorded parameters.
abbrev running : Session qt
running = record fresh { info = record_all qt none "gameId=race" "race" (pos 1) }

abbrev running_settings : qt.Settings
running_settings = record status {
  values =
      ("pushStreamerInfo/gameId", "race")
      ∷ ("pushStreamerInfo/startGameStatus", "1")
      ∷ ("pushStreamerInfo/startGameParame", "gameId=race")
      ∷ [];
}

running-open : init_deal_ini_file qt running.info ≡ some (some running_settings)
unfolding init_deal_ini_file record_all write open_file is_there load_from set_ini_value eq_ℤ
running-open = refl

abbrev change_value : Value
change_value = obj (("framerate", "60") ∷ ("bitrate", "900") ∷ ("deadline", "1") ∷ [])

-- The same JSON, in which an object is written as it is parsed.
unfoldable write_members : List (String × String) → String
write_members [] = ""
write_members ((k, t) ∷ []) = str_append k (str_append "=" t)
write_members ((k, t) ∷ m) =
    str_append k (str_append "=" (str_append t (str_append ";" (write_members m))))

unfoldable write2 : Value → String
write2 (obj m) = write_members m
write2 v = "{}"

abbrev js2 : Json
js2 = record js { write = write2 }

js2-SetTextLaws : SetTextLaws js2
unfolding add get lookup text is_object
js2-SetTextLaws = record { set_text_object = set_object; get-set = set_same; get-other = set_other }
  where
    set_object : (v : Value) (k t : String) → is_object v ≡ true → is_object (add v k t) ≡ true
    set_object (obj m) k t o = refl
    set_object null k t o = ground arith
    set_object (str x) k t o = ground arith

    set_same : (v : Value) (k t : String) → is_object v ≡ true → text (get (add v k t) k) ≡ some t
    set_same (obj m) k t o = rw (text, (str_eq_iff k k).1 refl) refl
    set_same null k t o = ground arith
    set_same (str x) k t o = ground arith

    set_other :
        (v : Value) (k j t : String)
        → is_object v ≡ true
        → str_eq k j ≡ false
        → get (add v k t) j ≡ get v j
    set_other (obj m) k j t o e = rw (get, e) refl
    set_other null k j t o e = ground arith
    set_other (str x) k j t o e = ground arith

change_resolution_callback-Reads_example :
    (i : GameInfo qt) × (new : String) × (x : Value) × (change_resolution_callback qt late js2 9
        running "framerate=60;bitrate=900;deadline=1"
      ≡ start_game_callback qt late js2 9 (record running { info = i }) new only_push_streamr)
    × Reads qt i new (get_game_id qt running.info).0 (pos 1)
    × (js2.parse new ≡ some x)
    × (text (get x "framerate") ≡ some "60")
    × (text (get x "bitrate") ≡ some "900")
    × (text (get x "deadline") ≡ some "1")
    × (get x "gameId" ≡ str "race")
unfolding init_deal_ini_file record_all write open_file is_there load_from set_ini_value eq_ℤ
    get_game_info get_game_status read get_value get_game_id lookup pair split to_int text get
    is_member is_string rates_value is_object add write2 write_members
change_resolution_callback-Reads_example =
    change_resolution_callback-Reads qt late js2 9 running running_settings
      "framerate=60;bitrate=900;deadline=1" "60" "900" "1" "gameId=race" "gameId" change_value
      (obj (("gameId", "race") ∷ [])) (example_qt-SettingsLaws files) qt-KeysApart js2-SetTextLaws
      running-open refl refl refl refl refl refl refl (refl, refl, refl) (refl, refl, refl)
      (refl, refl, refl) refl refl refl refl refl refl refl refl

-- The digits 3, 3, 7, 8: the second 3 is skipped.
number_run : generate_random_number (3 ∷ 13 ∷ 17 ∷ 8 ∷ []) ≡ some 3780
unfolding generate_random_number random_loop
number_run = refl

generate_random_number-Result_test : Result 3 7 8 (generate_random_number (3 ∷ 13 ∷ 17 ∷ 8 ∷ []))
unfolding draws_digit
generate_random_number-Result_test =
    generate_random_number-Result 3 7 8 (3 ∷ 13 ∷ 17 ∷ 8 ∷ []) (ground arith) refl refl refl
