-- ===== src/Session/Commands.antt =====
-- The theorems of the messages of the relay server of cloudstreamer.cpp, with their callbacks.
use push_streamer_client.Prelude.{
  ℕ, ◌≡◌, refl, ◌∙◌, sym, ap, subst, true, false, some, none, String, [], ◌∷◌, ◌++◌,
}
use push_streamer_client.Prelude.Int.{ℤ, pos, eq_ℤ}
use push_streamer_client.Qt.{Qt, SettingsLaws, is_empty}
use push_streamer_client.GameInfo.{GameInfo, init_deal_ini_file, get_game_status, read, status_key}
use push_streamer_client.GameInfo.Laws.{KeysApart, FlagTexts}
use push_streamer_client.Session.{done, ◌>>=◌, World, Session, report}
use push_streamer_client.Session.Config.{get_value_by_game_id}
use push_streamer_client.Session.Messages.{Json, StopMessage, read_stop}
use push_streamer_client.Session.Actions.{send_report, active_report_game_status}
use push_streamer_client.Session.Callbacks.{sign_in_cloud_game_callback}
use push_streamer_client.Session.Dispatch.{
  job_of, dispatch_typed, parse_message_callback, run_job, run_dispatched, handle_message,
}
use push_streamer_client.Session.Frames.{get_value-only, init-init}
use push_streamer_client.Session.Stops.{stop_game_callback-Stopped, recovery_game-Stopped}

module _ (js : Json) where
  -- A message with a type, the code 0 and data.
  pub record IsCommand (message msg_type text : String) : Type 0 where
    pub value : js.Value
    pub code : String
    pub parsed : js.parse message ≡ some value
    pub has_type : js.is_member value "type" ≡ true
    pub type_is : js.text (js.get value "type") ≡ some msg_type
    pub code_is : js.text (js.get value "code") ≡ some code
    pub code_zero : js.atoi code ≡ pos 0
    pub has_data : js.is_member value "data" ≡ true
    pub data_is : js.write (js.get value "data") ≡ text

module _ (qt : Qt) (w : World) (js : Json) where
  -- Such a message starts the callback for its type.
  parse_message-command :
      (s : Session qt) (message msg_type text : String)
      → IsCommand js message msg_type text
      → is_empty msg_type ≡ false
      → parse_message_callback qt w js s message ≡ done (job_of qt w js s msg_type text)
  unfolding parse_message_callback dispatch_typed eq_ℤ
  parse_message-command s message msg_type text c e =
      rw
        (
          parse_message_callback, c.parsed, c.has_type, dispatch_typed, c.type_is, c.code_is,
          c.code_zero, e, c.has_data, c.data_is,
        )
        refl

  pub get_game_status-again :
      (i : GameInfo qt) → (get_game_status qt (get_game_status qt i).1).0 ≡ (get_game_status qt i).0
  unfolding get_game_status
  get_game_status-again i =
      ap
        (λ j. elim j as (λ _. ℤ) [
          | none ↦ pos 0
          | some ini ↦ qt.to_int (read qt (some ini) status_key)
        ])
        (init-init qt i)

  pub send_report-stopped :
      (s : Session qt)
      → (get_game_status qt s.info).0 ≡ pos 0
      → ((send_report qt w s).effects
          ≡ s.effects ++ report s.device_no s.session_id s.game_id 0 ∷ [])
        × ((get_game_status qt (send_report qt w s).info).0 ≡ pos 0)
  unfolding send_report eq_ℤ
  send_report-stopped s z = rw z (refl, get_game_status-again s.info ∙ z)

  -- The report of a game that does not run.
  pub report-stopped :
      (s : Session qt)
      → (get_game_status qt s.info).0 ≡ pos 0
      → ((active_report_game_status qt w s).effects
          ≡ s.effects ++ report s.device_no s.session_id s.game_id 0 ∷ [])
        × ((get_game_status qt (active_report_game_status qt w s).info).0 ≡ pos 0)
  unfolding active_report_game_status
  report-stopped s z =
      subst
        (λ x.
          ((send_report qt w x).effects
            ≡ s.effects ++ report s.device_no s.session_id s.game_id 0 ∷ [])
          × ((get_game_status qt (send_report qt w x).info).0 ≡ pos 0))
        (sym (get_value-only qt s s.game_id "gameExeName"))
        (send_report-stopped
          (record s { config = (get_value_by_game_id qt s s.game_id "gameExeName").0.config }) z)

  sign_in-stopped :
      (n : ℕ) (s : Session qt) (text : String) (v : js.Value) (id : String)
      → (get_game_status qt s.info).0 ≡ pos 0
      → is_empty text ≡ false
      → js.parse text ≡ some v
      → js.is_member v "sessionId" ≡ true
      → js.is_string (js.get v "sessionId") ≡ true
      → js.text (js.get v "sessionId") ≡ some id
      → (r : Session qt) × (sign_in_cloud_game_callback qt w js n s text ≡ done r)
        × (r.effects ≡ s.effects)
  unfolding sign_in_cloud_game_callback
  sign_in-stopped n s text v id z e p m t i =
      let s1 : Session qt = record s { session_id = id; info = init_deal_ini_file qt s.info } in
      (
        s1,
        rw (sign_in_cloud_game_callback, p, i, e, m, t)
            (recovery_game-Stopped qt w js n (record s { session_id = id }) z),
        refl,
      )

  -- After a StopGame message, a SignIn message does not start the game again, although a SignIn recovers
  -- a game that was running: it only reports the state 0 of the game. The status file is open or
  -- there to be opened, both messages have the code 0, and their data have members of the types that
  -- are read.
  pub stop_then_sign_in :
      (n : ℕ) (s : Session qt) (st : qt.Settings) (message1 text1 message2 text2 id : String)
      (v1 v2 : js.Value) (m : StopMessage) (k : ℤ)
      → SettingsLaws qt
      → KeysApart qt
      → FlagTexts qt
      → init_deal_ini_file qt s.info ≡ some (some st)
      → IsCommand js message1 "StopGame" text1
      → js.parse text1 ≡ some v1
      → read_stop js v1 ≡ done m
      → js.number (js.get v1 "isForce") ≡ some k
      → IsCommand js message2 "SignIn" text2
      → is_empty text2 ≡ false
      → js.parse text2 ≡ some v2
      → js.is_member v2 "sessionId" ≡ true
      → js.is_string (js.get v2 "sessionId") ≡ true
      → js.text (js.get v2 "sessionId") ≡ some id
      → (r1 : Session qt) × (r2 : Session qt) × (handle_message qt w js n s message1 ≡ done r1)
        × (handle_message qt w js n r1 message2 ≡ done r2)
        × (r2.effects ≡ r1.effects ++ report r1.device_no r1.session_id r1.game_id 0 ∷ [])
  unfolding handle_message job_of run_dispatched run_job
  stop_then_sign_in n s st message1 text1 message2 text2 id v1 v2 m k l keys texts o c1 p1 e1 n1 c2
        z2 p2 m2 t2 i2 =
      let (r1, d1, (reads, _, _)) =
        stop_game_callback-Stopped qt w js s st text1 v1 m k l keys texts o p1 e1 n1 in
      let (effects, status) = report-stopped r1 reads.2 in
      let s2 = active_report_game_status qt w r1 in
      let (r2, d2, same) = sign_in-stopped n s2 text2 v2 id status z2 p2 m2 t2 i2 in
      (
        r1,
        r2,
        ap (λ r. r >>= run_dispatched qt w js n)
              (parse_message-command s message1 "StopGame" text1 c1 refl)
            ∙ d1,
        ap (λ r. r >>= run_dispatched qt w js n)
              (parse_message-command r1 message2 "SignIn" text2 c2 refl)
            ∙ d2,
        same ∙ effects,
      )
