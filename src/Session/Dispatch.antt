-- ===== src/Session/Dispatch.antt =====
-- cloudstreamer.cpp: `ParseMessageCallback`, which reads a message of the relay server and starts the
-- callback for its type, `SignInWsService`, and the timer that reports the state of the game. A
-- callback runs in a thread of its own in the program; here it runs after the dispatch.
use push_streamer_client.Prelude.{ℕ, not, ◌||◌, Option, none, some, String, str_eq, if◌then◌else◌}
use push_streamer_client.Prelude.Int.{pos, eq_ℤ}
use push_streamer_client.Qt.{Qt, is_empty}
use push_streamer_client.Session.{Run, done, ◌>>=◌, World, Session, normal_model, sign_in, emit}
use push_streamer_client.Session.Messages.{Json, need, field}
use push_streamer_client.Session.Actions.{active_report_game_status}
use push_streamer_client.Session.Callbacks.{
  start_game_callback, stop_game_callback, sign_in_cloud_game_callback,
}
use push_streamer_client.Session.Resolution.{change_resolution_callback}

-- The callbacks that a message starts, with its data as text.
pub data Job : Type 0 where
  start_game stop_game signed_in change_resolution : String → Job

module _ (qt : Qt) (w : World) (js : Json) where
  open js use {Value, get, is_member}

  -- `SignInWsService`: the device number is read from a file; "" if it is not there.
  unfoldable pub sign_in_ws_service : Session qt → Session qt
  sign_in_ws_service s =
      let device : String = elim w.device_file [ none ↦ "" | some t ↦ t ] in
      emit qt (record s { device_no = device }) (sign_in device)

  -- The chain of tests of the type. For SignIn the timer of the reports is started again, which
  -- reports at once.
  unfoldable pub job_of : Session qt → String → String → Session qt × Option Job
  job_of s msg_type text =
      if str_eq msg_type "StartGame"
      then (s, some (start_game text))
      else if str_eq msg_type "StopGame"
      then (s, some (stop_game text))
      else if str_eq msg_type "SignIn"
      then (active_report_game_status qt w s, some (signed_in text))
      else if str_eq msg_type "ChangeResolution"
      then (s, some (change_resolution text))
      else (s, none)

  -- A message with a type.
  unfoldable pub dispatch_typed : Session qt → Value → Run (Session qt × Option Job)
  dispatch_typed s v = do
    msg_type ← field js v "type"
    code ← field js v "code"
    done (
        if not (eq_ℤ (js.atoi code) (pos 0)) || (is_empty msg_type || not (is_member v "data"))
        then (s, none)
        else job_of s msg_type (js.write (get v "data")))

  -- A message without a type answers the connection: with the code "0" the device signs in.
  unfoldable pub dispatch_answer : Session qt → Value → Run (Session qt × Option Job)
  dispatch_answer s v =
      let read = need js (js.as_string (get v "code")) >>= λ c.
      done ((if str_eq c "0" then sign_in_ws_service s else s), none) in
      if is_member v "code" then read else done (s, none)

  -- `ParseMessageCallback`.
  unfoldable pub parse_message_callback : Session qt → String → Run (Session qt × Option Job)
  parse_message_callback s data_text = elim (js.parse data_text) [
    | none ↦ done (s, none)
    | some v ↦
        let typed = dispatch_typed s v in
        let answer = dispatch_answer s v in if is_member v "type" then typed else answer
  ]

  -- The callbacks.
  unfoldable pub run_job : ℕ → Session qt → Job → Run (Session qt)
  run_job n s (start_game t) = start_game_callback qt w js n s t normal_model
  run_job n s (stop_game t) = stop_game_callback qt w js s t
  run_job n s (signed_in t) = sign_in_cloud_game_callback qt w js n s t
  run_job n s (change_resolution t) = change_resolution_callback qt w js n s t

  unfoldable pub run_dispatched : ℕ → Session qt × Option Job → Run (Session qt)
  run_dispatched n (s, none) = done s
  run_dispatched n (s, some j) = run_job n s j

  -- A message with its callback, when no other callback runs.
  unfoldable pub handle_message : ℕ → Session qt → String → Run (Session qt)
  handle_message n s data_text = parse_message_callback s data_text >>= run_dispatched n
