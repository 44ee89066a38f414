-- ===== src/Session/Tests.antt =====
-- Runs of the game session of cloudstreamer.cpp, and its theorems at concrete inputs. The game
-- "race" has the program race.exe, which is seen from the third question on. A JSON object is
-- written here as "name=value;name=value".
use push_streamer_client.Prelude.{
  ℕ, ◌≡◌, ◌≤◌, refl, Bool, true, false, Option, none, some, List, [], ◌∷◌, map, String, ltb,
  if◌then◌else◌,
}
use push_streamer_client.Prelude.Int.{ℤ, pos, negsuc}
use push_streamer_client.Qt.{Qt}
use push_streamer_client.Qt.Example.{
  File, lookup, to_int, split, load_from, is_there, example_qt, example_qt-SettingsLaws,
}
use push_streamer_client.Ini.{open_file, get_value, get_value_where, find_group}
use push_streamer_client.GameInfo.{
  init_deal_ini_file, record_all, get_game_info, get_game_status, read,
}
use push_streamer_client.GameInfo.Laws.{KeysApart, FlagTexts, Reads}
use push_streamer_client.Session.{
  done, World, Session, PushStreamerParams, default_mode, normal_model, close_push,
}
use push_streamer_client.Session.Config.{config_value, get_value_by_game_id, open_config}
use push_streamer_client.Session.Process.{is_process_running, kill_areadly_running_game}
use push_streamer_client.Session.Messages.{Json, no_params, read_stop}
use push_streamer_client.Session.Actions.{push_call, push_streamer_action, start_game_action}
use push_streamer_client.Session.Callbacks.{start_game_callback, stop_game_callback, recovery_game}
use push_streamer_client.Session.Frames.{Ends, is_watching, Unplugged}
use push_streamer_client.Session.Starts.{start_game_action-Ends}
use push_streamer_client.Session.Stops.{stop_game_callback-Stopped, recovery_game-Stopped}
use push_streamer_client.Session.Streams.{
  push_streamer_action_lem, stop_call, waits, kill_areadly_running_game-ends,
  recovery_game-record_all,
}

abbrev pub games : File
games = record {
  groups = "race" ∷ [];
  values =
      ("race/id", "race")
      ∷ ("race/gameexeName", "race.exe")
      ∷ ("race/gameExeName", "race.exe")
      ∷ ("race/path", "race.exe&&games")
      ∷ [];
}

abbrev pub status : File
status = record { groups = []; values = [] }

abbrev pub files : List (String × File)
files = ("/app//cloudGameConfig.ini", games) ∷ ("/app/pushStreamerRunningStatus.ini", status) ∷ []

abbrev pub qt : Qt
qt = example_qt files

-- The program runs from the third question on.
abbrev pub late : World
late = record {
  processes = λ t. if ltb 1 t then ("race.exe", 7) ∷ [] else ("explorer.exe", 3) ∷ [];
  close_push_ok = λ t. true;
  push_ok = λ t. false;
  epoch_time = λ t. "0";
  md5 = λ s. s;
  ws_server_key = "ND857fxx*3";
  device_file = some "d1";
}

-- The program runs at the first question only.
abbrev early : World
early = record late { processes = λ t. if ltb t 1 then ("race.exe", 7) ∷ [] else [] }

abbrev pub fresh : Session qt
fresh = record {
  device_no = "d1";
  session_id = "";
  game_id = "race";
  game_pid = 0;
  control_url = "";
  mode = default_mode;
  config = some (some games);
  info = none;
  push_streamer_params = no_params;
  start_game_params = record {
    game_id = "";
    start_game_params = "";
    data_text = "";
    force = pos 0;
  };
  key_board_thread = none;
  protect = some true;
  now = 0;
  effects = [];
}

pub data Value : Type 0 where
  null : Value
  str : String → Value
  obj : List (String × String) → Value

unfoldable pub get : Value → String → Value
unfolding lookup
get (obj m) k = elim (lookup k m) [ none ↦ null | some t ↦ str t ]
get _ k = null

unfoldable pub pair : List String → String × String
pair (k ∷ t ∷ _) = (k, t)
pair _ = ("", "")

unfoldable pub text : Value → Option String
text (str t) = some t
text _ = none

unfoldable pub int : Value → Option ℤ
int null = some (pos 0)
int (str t) = some (to_int t)
int (obj m) = none

unfoldable pub add : Value → String → String → Value
add (obj m) k t = obj ((k, t) ∷ m)
add v k t = v

unfoldable pub is_object : Value → Bool
is_object (obj m) = true
is_object _ = false

unfoldable pub is_string : Value → Bool
is_string (str t) = true
is_string _ = false

unfoldable pub is_member : Value → String → Bool
unfolding get is_string
is_member v k = is_string (get v k)

abbrev pub js : Json
js = record {
  Value = Value;
  parse = λ t. some (obj (map (λ s. pair (split s "=")) (split t ";")));
  get = get;
  is_member = is_member;
  is_object = is_object;
  is_string = is_string;
  text = text;
  number = int;
  as_string = text;
  atoi = to_int;
  set_text = add;
  set_init = λ v. add v "init" "123";
  write = λ v. "{}";
}

pub qt-KeysApart : KeysApart qt
qt-KeysApart = record {
  params_status = refl;
  params_id = refl;
  status_params = refl;
  status_id = refl;
  id_params = refl;
  id_status = refl;
}

pub qt-FlagTexts : FlagTexts qt
unfolding to_int
qt-FlagTexts = record {
  local_0 = refl;
  local_1 = refl;
  int_0 = refl;
  int_1 = refl;
  int_empty = refl;
}

pub opens : init_deal_ini_file qt none ≡ some (some status)
unfolding init_deal_ini_file open_file is_there load_from
opens = refl

pub named : config_value qt (some (some games)) "race" "gameexeName" ≡ "race.exe"
unfolding config_value get_value_where find_group get_value lookup
named = refl

start_game_action-Ends_example :
    Ends qt
      (λ r. Reads qt r.info "{}" "race" (pos 1) × (ltb 0 r.game_pid ≡ true))
      (start_game_action qt late 3 fresh "race" "null" "{}" (pos 0))
unfolding is_process_running
start_game_action-Ends_example =
    start_game_action-Ends qt late (some games) status "race" "race.exe" 2 fresh "null" "{}" (pos 0)
      (example_qt-SettingsLaws files) qt-KeysApart qt-FlagTexts (refl, refl, refl, named)
      (record { config_open = refl; info_open = opens }) refl refl

abbrev pub stop_text : String
stop_text = "gameId=race;roomId=r;serverUrl=u;playerUrl=p;controlUrl=c;port=1;isForce=1"

abbrev pub stop_value : Value
stop_value = obj (
    ("gameId", "race")
    ∷ ("roomId", "r")
    ∷ ("serverUrl", "u")
    ∷ ("playerUrl", "p")
    ∷ ("controlUrl", "c")
    ∷ ("port", "1")
    ∷ ("isForce", "1")
    ∷ [])

stop_game_callback-Stopped_example :
    Ends qt
      (λ r. Reads qt r.info "" "race" (pos 0) × (is_watching r.protect ≡ false) × Unplugged qt r)
      (stop_game_callback qt late js fresh stop_text)
unfolding get lookup pair text int split to_int read_stop get_game_info init_deal_ini_file open_file
    is_there load_from read get_value
stop_game_callback-Stopped_example =
    stop_game_callback-Stopped qt late js fresh status stop_text stop_value
      (record { server_url = "u"; control_url = "c"; port = "1" }) (pos 1)
      (example_qt-SettingsLaws files) qt-KeysApart qt-FlagTexts opens refl refl refl

recovery_game-Stopped_test :
    recovery_game qt late js 9 fresh ≡ done (record fresh { info = some (some status) })
unfolding init_deal_ini_file open_file is_there load_from get_game_status read get_value lookup
    to_int
recovery_game-Stopped_test = recovery_game-Stopped qt late js 9 fresh refl

recovery_game-record_all_example :
    let i = record_all qt none "gameId=race" "race" (pos 1) in
    recovery_game qt late js 9 (record fresh { info = i })
    ≡ start_game_callback qt late js 9 (record fresh { info = i }) "gameId=race" normal_model
recovery_game-record_all_example =
    recovery_game-record_all qt late js 9 fresh status "gameId=race" "race"
      (example_qt-SettingsLaws files) qt-KeysApart qt-FlagTexts opens

abbrev params : PushStreamerParams
params = record no_params { room_id = "r"; server_url = "u"; framerate = "30" }

push_streamer_action_lem_test :
    let (r, code) = push_streamer_action qt late fresh params in
    (r.push_streamer_params ≡ params)
    × (r.effects ≡ close_push "r" "u" ∷ push_call qt late params ∷ [])
    × (code ≡ negsuc 3)
push_streamer_action_lem_test = push_streamer_action_lem qt late fresh params

kill_areadly_running_game-ends_example :
    (r : Session qt) × (j : ℕ) × (kill_areadly_running_game qt early 2 fresh "race"
      ≡ done (r, true))
    × (r.effects ≡ stop_call qt early "race.exe" ∷ waits qt early j)
    × (j ≤ 1)
unfolding is_process_running get_value_by_game_id open_config config_value get_value_where
    find_group get_value lookup
kill_areadly_running_game-ends_example =
    kill_areadly_running_game-ends qt early 1 fresh "race" "race.exe" refl refl refl refl
