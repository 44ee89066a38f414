-- ===== src/Session/Threads.antt =====
-- cloudstreamer.cpp: the threads of the session. `ParseMessageCallback` starts a thread for a message, and
-- `RecoveryGame` and `ChangeResolutionCallback` start one for StartGameCallback. Each is detached, so
-- `StopWorkThread` never waits for one, and they interleave. A thread runs in turns: StartGameCallback
-- has one up to the loop that waits for the game, one for each round of it, and one for the rest,
-- which starts the thread of ProtectGstLaunch; that thread has a turn that sets its flag, one for each
-- round of the loop that waits for the end of the streamer, and two for each round of its second loop,
-- its tests and the rest of the round. The other callbacks have one turn.
pub mod Safe
pub mod Silence
pub mod Calm
pub mod Stopped
pub mod Race
pub mod Late
mod Tests
use push_streamer_client.Prelude.{
  ℕ, zero, suc, ◌≡◌, Bool, true, not, ◌&&◌, ◌||◌, ltb, Option, none, some, List, [], ◌∷◌, ◌++◌,
  String, if◌then◌else◌,
}
use push_streamer_client.Prelude.Int.{ℤ, pos, eq_ℤ}
use push_streamer_client.Qt.{Qt, is_empty}
use push_streamer_client.GameInfo.{GameInfo, get_game_status, get_game_info, record_all}
use push_streamer_client.Session.{
  Run, done, waiting, aborted, ◌>>=◌, World, Session, StartGameModel, normal_model,
  only_push_streamr, kill_streamer, feed_back, sleep, emit,
}
use push_streamer_client.Session.Frames.{is_watching}
use push_streamer_client.Session.Protect.{gst_launch_name, protect_round}
use push_streamer_client.Session.Process.{game_is_areadly_running, foreach_kill_exe, running_pid}
use push_streamer_client.Session.Messages.{Json, StartMessage, need, field, read_start}
use push_streamer_client.Session.Actions.{
  null_params, ensure_started, push_streamer_action, start_keyboard_action,
}
use push_streamer_client.Session.Callbacks.{
  is_normal, format_failure, clear_function_params, is_incomplete, push_url, stop_game_callback,
}
use push_streamer_client.Session.Resolution.{optional_text, modifiy_start_params}
use push_streamer_client.Session.Dispatch.{
  Job, start_game, stop_game, signed_in, change_resolution, parse_message_callback,
}

-- The local variables of StartGameCallback in the loop that waits for the game.
pub record Pending : Type 0 where
  pub game_id : String
  pub data_text : String
  pub message : StartMessage
  pub model : StartGameModel

-- A thread, by what it does in its next turn.
pub data Thread : Type 0 where
  starting : String → StartGameModel → Thread
  launching guarding checking pushing : Thread
  awaiting recording : Pending → Thread
  stopping signing changing : String → Thread

-- The thread of a callback.
unfoldable pub thread_of : Job → Thread
thread_of (start_game t) = starting t normal_model
thread_of (stop_game t) = stopping t
thread_of (signed_in t) = signing t
thread_of (change_resolution t) = changing t

unfoldable pub threads_of : Option Job → List Thread
threads_of none = []
threads_of (some j) = thread_of j ∷ []

-- What is left of a thread after its turn, with the thread that it has started.
unfoldable pub awaited : Option Pending → List Thread
awaited none = []
awaited (some p) = awaiting p ∷ []

unfoldable pub spawned : StartGameModel → Option String → List Thread
spawned model none = []
spawned model (some t) = starting t model ∷ []

-- A message that the main thread handles, or the next turn of the thread with an index.
pub data Choice : Type 0 where
  arrives : String → Choice
  runs : ℕ → Choice

module _ (qt : Qt) (w : World) (js : Json) where
  open js use {Value}

  pub record Program : Type 0 where
    pub session : Session qt
    pub threads : List Thread

  -- `StartGameAction` up to its loop.
  unfoldable pub begin_game : ℕ → Session qt → String → String → String → ℤ → Run (Session qt)
  begin_game n s game_id params data_text force =
      let s1 = record s {
        start_game_params = record {
          game_id = game_id;
          start_game_params = params;
          data_text = data_text;
          force = force;
        };
      } in
      let r = null_params qt w s1 game_id params in ensure_started qt w n r.0 game_id r.1 force

  -- StartGameCallback up to the loop of StartGameAction: the state, and what goes into the loop, if
  -- it gets there.
  unfoldable pub begin_checked :
      ℕ
      → Session qt
      → String
      → String
      → StartMessage
      → StartGameModel
      → Run (Session qt × Option Pending)
  begin_checked n s game_id data_text m model =
      let begun = begin_game n s game_id m.start_params data_text m.force >>= λ s'. done (
        s',
        some (record { game_id = game_id; data_text = data_text; message = m; model = model }),
      ) in
      if is_incomplete qt w js m game_id
      then done (emit qt s (feed_back "StartGame" "-2" format_failure), none)
      else begun

  unfoldable pub begin_parsed :
      ℕ → Session qt → Value → String → StartGameModel → Run (Session qt × Option Pending)
  begin_parsed n s v data_text model = do
    game_id ← field js v "gameId"
    s1 ← foreach_kill_exe qt w n s game_id
    m ← read_start js v (qt.to_local s.device_no)
    begin_checked n (record s1 { game_id = game_id }) game_id data_text m model

  unfoldable pub begin_callback :
      ℕ → Session qt → String → StartGameModel → Run (Session qt × Option Pending)
  begin_callback n s data_text model =
      let s1 = emit qt (clear_function_params qt w js s) kill_streamer in
      if is_empty data_text then done (s1, none) else elim (js.parse data_text) [
        | none ↦ done (s1, none)
        | some v ↦ begin_parsed n s1 v data_text model
      ]

  -- A round of the loop: whether the game was seen.
  unfoldable pub wait_round : Session qt → String → Session qt × Bool
  wait_round s game_id =
      let (s', running) = game_is_areadly_running qt w s game_id in
      (if running then s' else emit qt s' (sleep 2000), running)

  -- StartGameCallback after the loop.
  unfoldable pub finish_callback : Session qt → Pending → Session qt
  finish_callback s p =
      let s1 = record s { info = record_all qt s.info p.data_text p.game_id (pos 1) } in
      let s2 = (push_streamer_action qt w s1 (push_url qt w js p.message)).0 in
      if is_normal p.model
      then start_keyboard_action qt w s2 p.game_id p.message.control_url p.message.login
      else s2

  -- `RecoveryGame`: the parameters of the thread that it starts, if it starts one.
  unfoldable pub recovery_turn : Session qt → Session qt × Option String
  recovery_turn s =
      let (status, i1) = get_game_status qt s.info in
      let (data_text, i2) = get_game_info qt i1 in
      (record s { info = i2 }, (if eq_ℤ status (pos 0) then none else some data_text))

  -- `SignInCloudGameCallback`.
  unfoldable pub sign_in_turn : Session qt → String → Run (Session qt × Option String)
  sign_in_turn s data_text = elim (js.parse data_text) [
    | none ↦ done (s, none)
    | some v ↦
        let id = js.get v "sessionId" in
        let recovered =
          need js (js.text id) >>= λ t. done (recovery_turn (record s { session_id = t })) in
        if is_empty data_text || (not (js.is_member v "sessionId") || not (js.is_string id))
        then done (s, none)
        else recovered
  ]

  -- The end of `ChangeResolutionCallback`.
  unfoldable pub restart_turn : Session qt → String → Session qt × Option String
  restart_turn s new =
      let (status, i) = get_game_status qt s.info in
      if is_empty new
      then (s, none)
      else (record s { info = i }, (if eq_ℤ status (pos 0) then none else some new))

  unfoldable pub change_parsed_turn : Session qt → Value → Run (Session qt × Option String)
  change_parsed_turn s v = do
    framerate ← optional_text qt w js v "framerate"
    bitrate ← optional_text qt w js v "bitrate"
    deadline ← optional_text qt w js v "deadline"
    let r = modifiy_start_params qt w js s.info framerate bitrate deadline
    done (restart_turn (record s { info = r.0 }) r.1)

  -- `ChangeResolutionCallback`.
  unfoldable pub change_turn : Session qt → String → Run (Session qt × Option String)
  change_turn s data_text =
      if is_empty data_text
      then done (s, none)
      else elim (js.parse data_text) [ none ↦ done (s, none) | some v ↦ change_parsed_turn s v ]

  -- The thread of `ProtectGstLaunch` that the end of StartGameCallback has started.
  unfoldable pub protectors : StartGameModel → List Thread
  protectors model = if is_normal model then launching ∷ [] else []

  -- A round of the first loop of `ProtectGstLaunch`.
  unfoldable pub guard_round : Session qt → Session qt × List Thread
  guard_round s =
      let (s', pid) = running_pid qt w s gst_launch_name in
      if ltb 0 pid && is_watching s.protect
      then (emit qt s' (sleep 1000), guarding ∷ [])
      else (s', checking ∷ [])

  -- The tests of the second loop of `ProtectGstLaunch`: the flag, and the recorded status.
  unfoldable pub check_status : Session qt → Session qt × List Thread
  check_status s =
      let (status, i) = get_game_status qt s.info in
      if not (is_watching s.protect)
      then (s, [])
      else (record s { info = i }, (if eq_ℤ status (pos 0) then [] else pushing ∷ []))

  unfoldable pub thread_turn : ℕ → Session qt → Thread → Run (Session qt × List Thread)
  thread_turn n s (starting t model) = begin_callback n s t model >>= λ r. done (r.0, awaited r.1)
  thread_turn n s (awaiting p) =
      let (s', seen) = wait_round s p.game_id in
      done (s', (if seen then recording p ∷ [] else awaiting p ∷ []))
  thread_turn n s (recording p) = done (finish_callback s p, protectors p.model)
  thread_turn n s launching = done (record s { protect = some true }, guarding ∷ [])
  thread_turn n s guarding = done (guard_round s)
  thread_turn n s checking = done (check_status s)
  thread_turn n s pushing = done (emit qt (protect_round qt w s) (sleep 8000), checking ∷ [])
  thread_turn n s (stopping t) = stop_game_callback qt w js s t >>= λ r. done (r, [])
  thread_turn n s (signing t) = sign_in_turn s t >>= λ r. done (r.0, spawned normal_model r.1)
  thread_turn n s (changing t) = change_turn s t >>= λ r. done (r.0, spawned only_push_streamr r.1)

  -- The turn of the thread with an index; nothing if there is none.
  unfoldable pub turn_at : ℕ → Session qt → ℕ → List Thread → Run (Session qt × List Thread)
  turn_at n s i [] = done (s, [])
  turn_at n s zero (t ∷ ts) = thread_turn n s t >>= λ r. done (r.0, r.1 ++ ts)
  turn_at n s (suc i) (t ∷ ts) = turn_at n s i ts >>= λ r. done (r.0, t ∷ r.1)

  unfoldable pub choice_step : ℕ → Program → Choice → Run Program
  choice_step n p (arrives text) = parse_message_callback qt w js p.session text >>= λ r.
      done (record { session = r.0; threads = p.threads ++ threads_of r.1 })
  choice_step n p (runs i) =
      turn_at n p.session i p.threads >>= λ r. done (record { session = r.0; threads = r.1 })

  -- An interleaving.
  unfoldable pub schedule : ℕ → Program → List Choice → Run Program
  schedule n p [] = done p
  schedule n p (c ∷ cs) = choice_step n p c >>= λ q. schedule n q cs
