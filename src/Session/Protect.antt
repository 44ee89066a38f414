-- ===== src/Session/Protect.antt =====
-- cloudstreamer.cpp: `ProtectGstLaunch`, the loop of the thread that starts the streamer again when it
-- has ended. The loops have fuel.
use push_streamer_client.Prelude.{
  ℕ, zero, suc, not, ◌&&◌, ◌||◌, none, some, String, ltb, if◌then◌else◌,
}
use push_streamer_client.Prelude.Int.{pos, eq_ℤ}
use push_streamer_client.Qt.{Qt, is_empty}
use push_streamer_client.GameInfo.{get_game_status}
use push_streamer_client.Session.{Run, done, waiting, World, Session, sleep, emit}
use push_streamer_client.Session.Process.{running_pid, game_is_areadly_running}
use push_streamer_client.Session.Actions.{push_streamer_action}
use push_streamer_client.Session.Frames.{is_watching}

abbrev pub gst_launch_name : String
gst_launch_name = "gst-launch-1.0.exe"

module _ (qt : Qt) (w : World) where
  -- The first loop: it waits while the streamer runs.
  unfoldable pub wait_streamer : ℕ → Session qt → Run (Session qt)
  wait_streamer zero s = waiting
  wait_streamer (suc n) s =
      let (s', pid) = running_pid qt w s gst_launch_name in
      let rest = wait_streamer n (emit qt s' (sleep 1000)) in
      if ltb 0 pid && is_watching s.protect then rest else done s'

  -- `m_keyBoardThread->SetGamePid`: a pid of 0 is not set.
  unfoldable pub set_game_pid : Session qt → Session qt
  set_game_pid s = elim s.key_board_thread [
    | none ↦ s
    | some k ↦
        if ltb 0 s.game_pid
        then record s { key_board_thread = some (record k { game_pid = s.game_pid }) }
        else s
  ]

  -- The streamer is started again with the parameters that it had.
  unfoldable pub push_again : Session qt → Session qt
  push_again s =
      if is_empty qt.app_dir || is_empty s.push_streamer_params.server_url
      then s
      else (push_streamer_action qt w s s.push_streamer_params).0

  -- The part of a round after the game was seen running.
  unfoldable pub check_streamer : Session qt → Session qt
  check_streamer s =
      let (s', pid) = running_pid qt w (set_game_pid s) gst_launch_name in
      if ltb 0 pid then s' else push_again s'

  -- A round of the second loop, without its sleep.
  unfoldable pub protect_round : Session qt → Session qt
  protect_round s =
      let (s', running) = game_is_areadly_running qt w s s.game_id in
      if running then check_streamer s' else s'

  -- The second loop: it ends when the flag is cleared or the recorded status is 0.
  unfoldable pub protect_loop : ℕ → Session qt → Run (Session qt)
  protect_loop zero s = waiting
  protect_loop (suc n) s =
      let (status, i) = get_game_status qt s.info in
      let s1 = record s { info = i } in
      let rest = protect_loop n (emit qt (protect_round s1) (sleep 8000)) in
      if not (is_watching s.protect) then done s else if eq_ℤ status (pos 0) then done s1 else rest
