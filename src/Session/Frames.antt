-- ===== src/Session/Frames.antt =====
-- What the functions of the game session leave unchanged.
use push_streamer_client.Prelude.{
  if-both, ◌≡◌, refl, ◌∙◌, ap, ap₂, Bool, true, false, not, ◌&&◌, Option, none, some, String, arith,
  if◌then◌else◌,
}
use push_streamer_client.Prelude.Int.{ℤ, pos}
use push_streamer_client.Qt.{Qt, is_empty}
use push_streamer_client.GameInfo.{
  GameInfo, init_deal_ini_file, write, get_game_status, record_id_status, record_all,
}
use push_streamer_client.Keymap.{is_null}
use push_streamer_client.Session.{Run, done, World, Session, UiMode, emit, kill_streamer}
use push_streamer_client.Session.Config.{open_config, get_value_by_game_id}
use push_streamer_client.Session.Process.{kill_game_by_name}
use push_streamer_client.Session.Messages.{Json}
use push_streamer_client.Session.Actions.{send_report, active_report_game_status, drop_keyboard}
use push_streamer_client.Session.Callbacks.{
  stops_keyboard, stops_stream, kill_current, stop_running, stop_protect_gst_launch,
}

-- The thread that restarts the streamer is there and not told to stop.
abbrev pub is_watching : Option Bool → Bool
is_watching none = false
is_watching (some flag) = flag

module _ (qt : Qt) where
  -- A run that ends, in a state with some property.
  abbrev pub Ends : (Session qt → Type 0) → Run (Session qt) → Type 0
  Ends P r = (s : Session qt) × (r ≡ done s) × P s

  pub get_value-only :
      (s : Session qt) (id key : String)
      → (get_value_by_game_id qt s id key).0
        ≡ record s { config = (get_value_by_game_id qt s id key).0.config }
  unfolding get_value_by_game_id open_config
  get_value-only s id key = ground arith

  -- The status file is opened once.
  pub init-record_id_status :
      (i : GameInfo qt) (id : String) (n : ℤ)
      → init_deal_ini_file qt (record_id_status qt i id n) ≡ record_id_status qt i id n
  unfolding init_deal_ini_file record_id_status write
  init-record_id_status i id n = ground arith

  pub init-record_all :
      (i : GameInfo qt) (params id : String) (n : ℤ)
      → init_deal_ini_file qt (record_all qt i params id n) ≡ record_all qt i params id n
  unfolding init_deal_ini_file record_all write
  init-record_all i params id n = ground arith

  pub init-init :
      (i : GameInfo qt) → init_deal_ini_file qt (init_deal_ini_file qt i) ≡ init_deal_ini_file qt i
  unfolding init_deal_ini_file
  init-init i = ground arith

  -- The fields that a stop settles, and the mode.
  abbrev pub Quiet : Session qt → GameInfo qt → UiMode → Type 0
  Quiet s i m = (s.info ≡ i) × (is_watching s.protect ≡ false) × (s.mode ≡ m)

  -- The thread of the keyboard is gone in the modes that stop it.
  abbrev pub Unplugged : Session qt → Type 0
  Unplugged s = stops_keyboard s.mode && not (is_null s.key_board_thread) ≡ false

module _ (qt : Qt) (w : World) (js : Json) (i : GameInfo qt) (m : UiMode) where
  -- A state in which the session is stopped.
  abbrev pub Settled : Session qt → Type 0
  Settled s = Quiet qt s i m × Unplugged qt s

  get_value-Settled :
      (s : Session qt) (id key : String) → Settled s → Settled (get_value_by_game_id qt s id key).0
  unfolding get_value_by_game_id open_config
  get_value-Settled s id key h = ground arith

  send_report-Settled :
      (s : Session qt) → init_deal_ini_file qt i ≡ i → Settled s → Settled (send_report qt w s)
  unfolding send_report get_game_status
  send_report-Settled s e ((a, b, c), k) = ((ap (init_deal_ini_file qt) a ∙ e, b, c), k)

  -- A kill and its report settle nothing anew.
  pub kill_current-Settled :
      (s : Session qt) → init_deal_ini_file qt i ≡ i → Settled s → Settled (kill_current qt w js s)
  unfolding kill_current active_report_game_status kill_game_by_name
  kill_current-Settled s e h =
      let (s', name) = get_value_by_game_id qt s s.game_id "gameExeName" in
      let g = get_value-Settled s s.game_id "gameExeName" h in
      let k = kill_game_by_name qt w s' name in
      if-both Settled (is_empty name) g (
        send_report-Settled (get_value_by_game_id qt k k.game_id "gameExeName").0 e
          (get_value-Settled k k.game_id "gameExeName" g))

module _ (qt : Qt) (w : World) (js : Json) where
  stop_protect-Quiet :
      (s : Session qt) (i : GameInfo qt)
      → s.info ≡ i
      → Quiet qt (stop_protect_gst_launch qt w js s) i s.mode
  unfolding stop_protect_gst_launch
  stop_protect-Quiet s i e = ground arith

  send_report-Quiet :
      (s : Session qt) (i : GameInfo qt) (m : UiMode)
      → init_deal_ini_file qt i ≡ i
      → Quiet qt s i m
      → Quiet qt (send_report qt w s) i m
  unfolding send_report get_game_status
  send_report-Quiet s i m e (a, b, c) = (ap (init_deal_ini_file qt) a ∙ e, b, c)

  drop_keyboard-Quiet :
      (s : Session qt) (i : GameInfo qt) (m : UiMode)
      → Quiet qt s i m
      → Quiet qt (drop_keyboard qt w s) i m
        × (is_null (drop_keyboard qt w s).key_board_thread ≡ true)
  unfolding drop_keyboard
  drop_keyboard-Quiet s i m h = ground arith

  drop_under :
      (s : Session qt) (i : GameInfo qt) (m : UiMode) (b : Bool)
      → Quiet qt s i m
      → stops_keyboard m ≡ b
      → Settled qt w js i m (if b then drop_keyboard qt w s else s)
  drop_under s i m true h e =
      let (q, n) = drop_keyboard-Quiet s i m h in
      (q, ap₂ (λ o k. stops_keyboard o && not k) q.2 n ∙ ap (λ k. k && false) e)
  drop_under s i m false h e = (
    h,
    ap (λ o. stops_keyboard o && not (is_null s.key_board_thread)) h.2
        ∙ ap (λ k. k && not (is_null s.key_board_thread)) e,
  )

  -- The part of a stop before the message is read.
  pub stop_running-Settled :
      (s : Session qt)
      → Settled qt w js
          (record_id_status qt s.info s.game_id (pos 0))
          s.mode
          (stop_running qt w js s)
  unfolding stop_running
  stop_running-Settled s =
      let i = record_id_status qt s.info s.game_id (pos 0) in
      let s1 = emit qt s kill_streamer in
      let s2 = (get_value_by_game_id qt s1 s.game_id "gameExeName").0 in
      let f = get_value-only qt s1 s.game_id "gameExeName" in
      let s3 = record s2 { info = record_id_status qt s2.info s.game_id (pos 0) } in
      let q3 = stop_protect-Quiet s3 i (ap (λ r. record_id_status qt r.info s.game_id (pos 0)) f) in
      let m3 = ap (λ r. r.mode) f in
      let q4 =
        send_report-Quiet (stop_protect_gst_launch qt w js s3) i s.mode
          (init-record_id_status qt s.info s.game_id (pos 0)) (q3.0, q3.1, q3.2 ∙ m3) in
      drop_under _ i s.mode (stops_keyboard s.mode)
        (if-both (λ r. Quiet qt r i s.mode) (stops_stream s.mode) q4 q4) refl
