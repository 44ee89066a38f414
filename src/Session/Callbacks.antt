-- ===== src/Session/Callbacks.antt =====
-- The callbacks of cloudstreamer.cpp for the messages of the relay server: `StartGameCallback`,
-- `StopGameCallback`, `SignInCloudGameCallback` and `RecoveryGame`. Each runs in its own thread in
-- the program; here a callback runs alone.
use push_streamer_client.Prelude.{
  ℕ, Bool, true, false, not, ◌||◌, none, some, String, str_append, if◌then◌else◌,
}
use push_streamer_client.Prelude.Int.{pos, eq_ℤ}
use push_streamer_client.Qt.{Qt, is_empty}
use push_streamer_client.GameInfo.{get_game_status, get_game_info, record_id_status}
use push_streamer_client.Session.{
  Run, done, ◌>>=◌, World, Session, PushStreamerParams, UiMode, only_push_streamer, only_key_board,
  StartGameModel, normal_model, only_push_streamr, kill_streamer, close_push, feed_back, emit, tick,
}
use push_streamer_client.Session.Messages.{
  Json, StartMessage, no_params, need, field, read_start, read_stop,
}
use push_streamer_client.Session.Config.{get_value_by_game_id}
use push_streamer_client.Session.Process.{kill_game_by_name, foreach_kill_exe}
use push_streamer_client.Session.Actions.{
  send_report, active_report_game_status, start_game_action, push_streamer_action, drop_keyboard,
  start_keyboard_action,
}

-- The modes of the user interface in which the stream, or the keyboard, is stopped.
abbrev pub stops_stream : UiMode → Bool
stops_stream only_key_board = false
stops_stream _ = true

abbrev pub stops_keyboard : UiMode → Bool
stops_keyboard only_push_streamer = false
stops_keyboard _ = true

abbrev pub is_normal : StartGameModel → Bool
is_normal normal_model = true
is_normal only_push_streamr = false

abbrev pub format_failure : String
format_failure = "StartGameCallback json param format failure!"

module _ (qt : Qt) (w : World) (js : Json) where
  open js use {Value}

  -- `ClearFunctionParams`.
  unfoldable pub clear_function_params : Session qt → Session qt
  clear_function_params s = record s {
    push_streamer_params = no_params;
    start_game_params = record {
      game_id = "";
      start_game_params = "";
      data_text = "";
      force = pos 0;
    };
  }

  -- The test of the members of a StartGame message.
  unfoldable pub is_incomplete : StartMessage → String → Bool
  is_incomplete m game_id =
      is_empty m.params.server_url
      || (is_empty m.control_url
          || (is_empty m.port
              || (is_empty m.params.room_id || (is_empty game_id || is_empty m.login))))

  -- The parameters of the streamer, with the url of the push server.
  abbrev pub push_url : StartMessage → PushStreamerParams
  push_url m = record m.params {
    server_url = str_append (str_append "https://" m.params.server_url) ":4443/";
  }

  -- The part of `StartGameCallback` after the message was read; the exception that it throws for an
  -- incomplete message ends in `MessageFeedBack`.
  unfoldable pub start_checked :
      ℕ → Session qt → String → String → StartMessage → StartGameModel → Run (Session qt)
  start_checked n s game_id data_text m model =
      let started = start_game_action qt w n s game_id m.start_params data_text m.force in
      if is_incomplete m game_id
      then done (emit qt s (feed_back "StartGame" "-2" format_failure))
      else do
        s1 ← started
        let s2 = (push_streamer_action qt w s1 (push_url m)).0
        done (
            if is_normal model
            then start_keyboard_action qt w s2 game_id m.control_url m.login
            else s2)

  unfoldable pub start_parsed : ℕ → Session qt → Value → String → StartGameModel → Run (Session qt)
  start_parsed n s v data_text model = do
    game_id ← field js v "gameId"
    s1 ← foreach_kill_exe qt w n s game_id
    m ← read_start js v (qt.to_local s.device_no)
    start_checked n (record s1 { game_id = game_id }) game_id data_text m model

  -- `StartGameCallback`. `isUpdate` is false: its body is a `return false` before the rest.
  unfoldable pub start_game_callback : ℕ → Session qt → String → StartGameModel → Run (Session qt)
  start_game_callback n s data_text model =
      let s1 = emit qt (clear_function_params s) kill_streamer in
      if is_empty data_text then done s1 else elim (js.parse data_text) [
        | none ↦ done s1
        | some v ↦ start_parsed n s1 v data_text model
      ]

  -- `StopProtectGstLaunch`: the thread is detached, so its end is not waited for.
  unfoldable pub stop_protect_gst_launch : Session qt → Session qt
  stop_protect_gst_launch s = elim s.protect [
    | none ↦ s
    | some flag ↦ record s { protect = some false }
  ]

  -- The game of the session is killed by name, and that is reported.
  unfoldable pub kill_current : Session qt → Session qt
  kill_current s =
      let (s', name) = get_value_by_game_id qt s s.game_id "gameExeName" in
      if is_empty name then s' else active_report_game_status qt w (kill_game_by_name qt w s' name)

  -- The part of `StopGameCallback` before it reads the message.
  unfoldable pub stop_running : Session qt → Session qt
  stop_running s =
      let s1 = emit qt s kill_streamer in
      let (s2, _) = get_value_by_game_id qt s1 s.game_id "gameExeName" in
      let s3 = record s2 { info = record_id_status qt s2.info s.game_id (pos 0) } in
      let s4 = send_report qt w (stop_protect_gst_launch s3) in
      let p = s4.push_streamer_params in
      let s5 =
        if stops_stream s.mode
        then tick qt (emit qt s4 (close_push p.room_id p.server_url))
        else s4 in
      if stops_keyboard s.mode then drop_keyboard qt w s5 else s5

  -- The test for "isForce" in `StopGameCallback`.
  unfoldable pub stop_forced : Session qt → Value → Run (Session qt)
  stop_forced s v =
      let n = need js (js.number (js.get v "isForce")) in
      if js.is_member v "isForce"
      then (n >>= λ k. done (if eq_ℤ k (pos 1) then kill_current s else s))
      else done s

  unfoldable pub stop_parsed : Session qt → Value → Run (Session qt)
  stop_parsed s v = do
    s1 ← stop_forced s v
    m ← read_stop js v
    done (
        if is_empty m.server_url || (is_empty m.control_url || is_empty m.port)
        then s1
        else kill_current s1)

  -- `StopGameCallback`.
  unfoldable pub stop_game_callback : Session qt → String → Run (Session qt)
  stop_game_callback s data_text =
      let s1 = stop_running s in
      if is_empty data_text
      then done s1
      else elim (js.parse data_text) [ none ↦ done s1 | some v ↦ stop_parsed s1 v ]

  -- `RecoveryGame`: a game that was running when the program ended is started again.
  unfoldable pub recovery_game : ℕ → Session qt → Run (Session qt)
  recovery_game n s =
      let (status, i1) = get_game_status qt s.info in
      let (data_text, i2) = get_game_info qt i1 in
      let s1 = record s { info = i2 } in
      let restarted = start_game_callback n s1 data_text normal_model in
      if eq_ℤ status (pos 0) then done s1 else restarted

  -- `SignInCloudGameCallback`.
  unfoldable pub sign_in_cloud_game_callback : ℕ → Session qt → String → Run (Session qt)
  sign_in_cloud_game_callback n s data_text = elim (js.parse data_text) [
    | none ↦ done s
    | some v ↦
        let id = js.get v "sessionId" in
        let recovered =
          need js (js.text id) >>= λ t. recovery_game n (record s { session_id = t }) in
        if is_empty data_text || (not (js.is_member v "sessionId") || not (js.is_string id))
        then done s
        else recovered
  ]
