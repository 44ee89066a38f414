-- ===== src/Session/Actions.antt =====
-- The actions of cloudstreamer.cpp that start a game: the report of its state, `StartGameAction`,
-- `PushStreamerAction`, `AssembleWSServer` and `StartKeyboardAction`.
use push_streamer_client.Prelude.{
  ℕ, zero, suc, true, not, ◌||◌, none, some, [], ◌∷◌, map, String, str_append, str_eq,
  if◌then◌else◌,
}
use push_streamer_client.Prelude.Int.{ℤ, pos, negsuc, eq_ℤ, is_pos}
use push_streamer_client.Qt.{Qt, is_empty}
use push_streamer_client.GameInfo.{get_game_status, record_all}
use push_streamer_client.Session.{
  Run, done, waiting, ◌>>=◌, World, Session, PushStreamerParams, KeyBoardThread, Effect, sleep,
  report, close_push, push, keyboard_start, keyboard_stop, protect_start, emit, tick,
}
use push_streamer_client.Session.Config.{get_value_by_game_id}
use push_streamer_client.Session.Process.{
  game_is_areadly_running, kill_areadly_running_game, start_game_by_game_id,
}

-- `AssembleWSServer` at some moment; the playing sign hashes the device and the time.
unfoldable pub assemble_ws_server : World → ℕ → String → String → String → String
assemble_ws_server w t ws_url key device_no =
    let time = w.epoch_time t in
    let sign = w.md5 (str_append (str_append device_no w.ws_server_key) time) in
    if is_empty ws_url || (is_empty key || is_empty device_no)
    then ""
    else str_append "ws://" (
        str_append ws_url (
          str_append "/?deviceNo=" (
            str_append device_no
              (str_append "&playSign=" (str_append sign (str_append "&timeStame=" time))))))

module _ (qt : Qt) (w : World) where
  open qt use {app_dir}

  -- `WSServiceTransferSignStringEx` and the `Send` of its text: the state of the game as recorded.
  unfoldable pub send_report : Session qt → Session qt
  send_report s =
      let (status, info) = get_game_status qt s.info in
      emit qt (record s { info = info })
        (report s.device_no s.session_id s.game_id (if eq_ℤ status (pos 0) then 0 else 1))

  -- `ActiveReportGameStatus`; it also looks up the game's name, which the report does not use.
  unfoldable pub active_report_game_status : Session qt → Session qt
  active_report_game_status s = send_report (get_value_by_game_id qt s s.game_id "gameExeName").0

  -- The loop of `StartGameAction` that waits until the game runs.
  unfoldable pub wait_running : ℕ → Session qt → String → Run (Session qt)
  wait_running zero s game_id = waiting
  wait_running (suc n) s game_id =
      let (s', running) = game_is_areadly_running qt w s game_id in
      let rest = wait_running n (emit qt s' (sleep 2000)) game_id in
      if running then done s' else rest

  -- The test for "null" in `StartGameAction`: the state, and the parameters to start with.
  unfoldable pub null_params : Session qt → String → String → Session qt × String
  null_params s game_id params =
      if is_empty game_id || is_empty params
      then (s, params)
      else if str_eq params "null"
      then (active_report_game_status s, "")
      else (s, params)

  -- The part of `StartGameAction` that kills and starts: a game that runs is restarted by force only.
  unfoldable pub ensure_started : ℕ → Session qt → String → String → ℤ → Run (Session qt)
  ensure_started n s game_id params force =
      let (s', running) = game_is_areadly_running qt w s game_id in
      let killed = kill_areadly_running_game qt w n s' game_id in
      if running
      then if is_pos force
        then (killed >>= λ r. done (start_game_by_game_id qt w r.0 game_id params).0)
        else done s'
      else done (start_game_by_game_id qt w s' game_id params).0

  -- `StartGameAction`; it returns 0.
  unfoldable pub start_game_action :
      ℕ → Session qt → String → String → String → ℤ → Run (Session qt)
  start_game_action n s game_id params data_text force = do
    let s1 = record s {
      start_game_params = record {
        game_id = game_id;
        start_game_params = params;
        data_text = data_text;
        force = force;
      };
    }
    let r = null_params s1 game_id params
    s2 ← ensure_started n r.0 game_id r.1 force
    s3 ← wait_running n s2 game_id
    done (record s3 { info = record_all qt s3.info data_text game_id (pos 1) })

  -- The call of `push`.
  unfoldable pub push_call : PushStreamerParams → Effect
  push_call p = push (qt.to_local p.room_id) (qt.to_local p.server_url) (qt.to_local p.domain) (
      map qt.to_int (
        p.framerate ∷ p.bitrate ∷ p.deadline ∷ p.cpuused ∷ p.x ∷ p.y ∷ p.mode ∷ p.capmode ∷ p.vol
        ∷ []))

  -- `PushStreamerAction`: the state and the return code.
  unfoldable pub push_streamer_action : Session qt → PushStreamerParams → Session qt × ℤ
  push_streamer_action s p =
      let s1 = tick qt (
        emit qt (record s { push_streamer_params = p })
          (close_push (qt.to_local p.room_id) (qt.to_local p.server_url))) in
      let s2 = tick qt (emit qt s1 (push_call p)) in
      if not (w.close_push_ok s.now)
      then (s1, negsuc 2)
      else (s2, (if w.push_ok s1.now then pos 0 else negsuc 3))

  -- `m_keyBoardThread->stop()` and its reset, if there is one.
  unfoldable pub drop_keyboard : Session qt → Session qt
  drop_keyboard s = elim s.key_board_thread [
    | none ↦ s
    | some k ↦ emit qt (record s { key_board_thread = none }) keyboard_stop
  ]

  -- The three lookups of `StartKeyboardAction`.
  unfoldable pub key_paths_of : Session qt → String → Session qt × String × String × String
  key_paths_of s game_id =
      let (s1, names) = get_value_by_game_id qt s game_id "keyBoardNameValueMappingTable" in
      let (s2, defaults) = get_value_by_game_id qt s1 game_id "keyBoardDefaultConfig" in
      let (s3, game) = get_value_by_game_id qt s2 game_id "keyBoardGameConfig" in
      let dir = str_append app_dir "/" in (s3, str_append dir names, str_append dir defaults, game)

  -- `KeyBoardThread::start`, under the test of its arguments.
  unfoldable pub start_thread : Session qt → KeyBoardThread → Session qt
  start_thread s k =
      let s' = record s { key_board_thread = some k } in
      if is_empty k.ws_url || is_empty k.login_command then s' else emit qt s' (keyboard_start k)

  -- `StartProtectGstLaunch`: the new thread sets the flag.
  unfoldable pub start_protect_gst_launch : Session qt → Session qt
  start_protect_gst_launch s = emit qt (record s { protect = some true }) protect_start

  -- `StartKeyboardAction`. The paths that `SetKeyBoardModel` tests are not empty: they end a folder.
  unfoldable pub start_keyboard_action : Session qt → String → String → String → Session qt
  start_keyboard_action s game_id control_url login =
      let (s1, names, defaults, game) = key_paths_of (drop_keyboard s) game_id in
      let s2 = tick qt (record s1 { control_url = control_url }) in
      let k : KeyBoardThread = record {
        device_number = s.device_no;
        game_pid = s.game_pid;
        key_paths = some (names, defaults, game);
        ws_url = assemble_ws_server w s1.now control_url w.ws_server_key s.device_no;
        login_command = login;
      } in
      start_protect_gst_launch (start_thread s2 k)
