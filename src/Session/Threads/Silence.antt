-- ===== src/Session/Threads/Silence.antt =====
-- The threads of cloudstreamer.cpp: what a stop records, and the effects that start something.
use push_streamer_client.Prelude.{
  ℕ, ◌+◌, ◌≡◌, ◌⊎◌, refl, ◌∙◌, sym, ap, subst, Bool, true, false, ◌||◌, none, some, List, [], ◌∷◌,
  ◌++◌, String, Option-cases, inl, inr, if-both, if◌then◌else◌, arith,
}
use push_streamer_client.Prelude.Int.{pos, eq_ℤ}
use push_streamer_client.Qt.{Qt, SettingsLaws, is_empty}
use push_streamer_client.Ini.{Ini}
use push_streamer_client.GameInfo.{
  GameInfo, init_deal_ini_file, record_id_status, record_params, get_game_status,
}
use push_streamer_client.GameInfo.Laws.{
  KeysApart, FlagTexts, record_id_status-Reads, record_without_file,
}
use push_streamer_client.GameInfo.Laws.Params.{record_params-Reads}
use push_streamer_client.Session.{
  World, Session, Effect, execute_script, push, keyboard_start, keyboard_stop, close_push,
  kill_streamer, emit,
}
use push_streamer_client.Session.Config.{get_value_by_game_id}
use push_streamer_client.Session.Process.{kill_game_by_name}
use push_streamer_client.Session.Messages.{Json, need, read_stop}
use push_streamer_client.Session.Actions.{send_report, active_report_game_status, drop_keyboard}
use push_streamer_client.Session.Callbacks.{
  stops_stream, stops_keyboard, stop_protect_gst_launch, kill_current, stop_running, stop_forced,
  stop_parsed, stop_game_callback,
}
use push_streamer_client.Session.Threads.Safe.{Safe, Safe-bind, Safe-any, Safe-option}
use push_streamer_client.Session.Frames.{get_value-only}
use push_streamer_client.Session.Commands.{send_report-stopped, report-stopped}

-- An effect that starts a game, its stream or its keyboard.
unfoldable pub is_launch : Effect → Bool
is_launch (execute_script p a) = true
is_launch (push r s d n) = true
is_launch (keyboard_start k) = true
is_launch _ = false

-- How many effects do.
unfoldable pub launches : List Effect → ℕ
launches [] = 0
launches (e ∷ es) = (if is_launch e then 1 else 0) + launches es

pub launches-other :
    (es : List Effect) (e : Effect) → is_launch e ≡ false → launches (es ++ e ∷ []) ≡ launches es
unfolding launches
launches-other [] e h = ground arith
launches-other (d ∷ es) e h = ground (arith, launches-other es e h)

module _ (qt : Qt) where
  abbrev Opened : GameInfo qt → Type 0
  Opened i = (i ≡ some none) ⊎ ((st : qt.Settings) × (i ≡ some (some st)))

  Opened-cases : (ini : Ini qt) → Opened (some ini)
  Opened-cases none = inl refl
  Opened-cases (some st) = inr (st, refl)

  init-cases : (i : GameInfo qt) → Opened (init_deal_ini_file qt i)
  unfolding init_deal_ini_file
  init-cases (some ini) = Opened-cases ini
  init-cases none = if-both Opened (is_empty qt.app_dir) (inl refl) (Opened-cases _)

  -- The recorded status is 0, and so many effects have started something.
  abbrev pub Still : ℕ → Session qt → Type 0
  Still k s = ((get_game_status qt s.info).0 ≡ pos 0) × (launches s.effects ≡ k)

module _ (qt : Qt) (l : SettingsLaws qt) (keys : KeysApart qt) (texts : FlagTexts qt) where
  record_id_status-stopped :
      (i : GameInfo qt) (id : String)
      → (get_game_status qt (record_id_status qt i id (pos 0))).0 ≡ pos 0
  unfolding eq_ℤ
  record_id_status-stopped i id = elim (init-cases qt i) [
    | inl e ↦ (record_without_file qt texts i "" id (pos 0) e).1.2
    | inr (st, e) ↦ (record_id_status-Reads qt l keys texts i st id (pos 0) e).2
  ]

  pub record_params-status :
      (i : GameInfo qt) (t : String)
      → (get_game_status qt i).0 ≡ pos 0
      → (get_game_status qt (record_params qt i t)).0 ≡ pos 0
  record_params-status i t h = elim (init-cases qt i) [
    | inl e ↦ (record_without_file qt texts i t "" (pos 0) e).2.2
    | inr (st, e) ↦ (record_params-Reads qt l keys i st t e).2 ∙ h
  ]

module _ (qt : Qt) (w : World) (js : Json) (k : ℕ) where
  pub emit-Still :
      (s : Session qt) (e : Effect) → is_launch e ≡ false → Still qt k s → Still qt k (emit qt s e)
  emit-Still s e h (z, c) = (z, launches-other s.effects e h ∙ c)

  get_value-Still :
      (s : Session qt) (id key : String)
      → Still qt k s
      → Still qt k (get_value_by_game_id qt s id key).0
  get_value-Still s id key h = subst (Still qt k) (sym (get_value-only qt s id key)) h

  pub send_report-Still : (s : Session qt) → Still qt k s → Still qt k (send_report qt w s)
  unfolding is_launch
  send_report-Still s (z, c) =
      let (e, z') = send_report-stopped qt w js s z in
      (z', ap launches e ∙ launches-other s.effects _ refl ∙ c)

  pub active_report-Still :
      (s : Session qt) → Still qt k s → Still qt k (active_report_game_status qt w s)
  unfolding is_launch
  active_report-Still s (z, c) =
      let (e, z') = report-stopped qt w js s z in
      (z', ap launches e ∙ launches-other s.effects _ refl ∙ c)

  kill_game-Still :
      (s : Session qt) (name : String) → Still qt k s → Still qt k (kill_game_by_name qt w s name)
  unfolding kill_game_by_name is_launch
  kill_game-Still s name h = emit-Still s _ refl h

  kill_current-Still : (s : Session qt) → Still qt k s → Still qt k (kill_current qt w js s)
  unfolding kill_current
  kill_current-Still s h =
      let (s', name) = get_value_by_game_id qt s s.game_id "gameExeName" in
      let g = get_value-Still s s.game_id "gameExeName" h in
      if-both (Still qt k) (is_empty name) g (active_report-Still _ (kill_game-Still s' name g))

  drop_keyboard-Still : (s : Session qt) → Still qt k s → Still qt k (drop_keyboard qt w s)
  unfolding drop_keyboard is_launch
  drop_keyboard-Still s h = elim (Option-cases s.key_board_thread) [
    | inl e ↦ rw e h
    | inr (t, e) ↦ rw e (emit-Still (record s { key_board_thread = none }) keyboard_stop refl h)
  ]

module _ (qt : Qt) (w : World) (js : Json) (l : SettingsLaws qt) (keys : KeysApart qt)
    (texts : FlagTexts qt) (k : ℕ) where
  stop_protect-Still :
      (s : Session qt) → Still qt k s → Still qt k (stop_protect_gst_launch qt w js s)
  unfolding stop_protect_gst_launch
  stop_protect-Still s h = ground arith

  -- A stop records the status 0, whatever was recorded, and starts nothing.
  stop_running-Still :
      (s : Session qt) → launches s.effects ≡ k → Still qt k (stop_running qt w js s)
  unfolding stop_running is_launch
  stop_running-Still s c =
      let s1 = emit qt s kill_streamer in
      let s2 = (get_value_by_game_id qt s1 s.game_id "gameExeName").0 in
      let c1 = launches-other s.effects kill_streamer refl ∙ c in
      let c2 =
        subst (λ r. launches r.effects ≡ k) (sym (get_value-only qt s1 s.game_id "gameExeName"))
          c1 in
      let s3 = record s2 { info = record_id_status qt s2.info s.game_id (pos 0) } in
      let h3 : Still qt k s3 = (record_id_status-stopped qt l keys texts s2.info s.game_id, c2) in
      let s4 = send_report qt w (stop_protect_gst_launch qt w js s3) in
      let h4 = send_report-Still qt w js k _ (stop_protect-Still s3 h3) in
      let p = s4.push_streamer_params in
      let h5 =
        if-both (Still qt k) (stops_stream s.mode)
          (emit-Still qt w js k s4 (close_push p.room_id p.server_url) refl h4) h4 in
      if-both (Still qt k) (stops_keyboard s.mode) (drop_keyboard-Still qt w js k _ h5) h5

  stop_forced-Still :
      (s : Session qt) (v : js.Value) → Still qt k s → Safe (Still qt k) (stop_forced qt w js s v)
  unfolding stop_forced
  stop_forced-Still s v h =
      if-both (Safe (Still qt k)) (js.is_member v "isForce")
        (Safe-bind (λ x. Unit) (Still qt k) (need js (js.number (js.get v "isForce"))) _
          (Safe-any _)
          (λ x u. if-both (Still qt k) (eq_ℤ x (pos 1)) (kill_current-Still qt w js k s h) h))
        h

  stop_parsed-Still :
      (s : Session qt) (v : js.Value) → Still qt k s → Safe (Still qt k) (stop_parsed qt w js s v)
  unfolding stop_parsed
  stop_parsed-Still s v h =
      Safe-bind (Still qt k) (Still qt k) (stop_forced qt w js s v) _ (stop_forced-Still s v h)
        (λ r g.
          Safe-bind (λ x. Unit) (Still qt k) (read_stop js v) _ (Safe-any _)
            (λ m u.
              if-both (Still qt k)
                (is_empty m.server_url || (is_empty m.control_url || is_empty m.port)) g
                (kill_current-Still qt w js k r g)))

  pub stop_game_callback-Still :
      (s : Session qt) (t : String)
      → launches s.effects ≡ k
      → Safe (Still qt k) (stop_game_callback qt w js s t)
  unfolding stop_game_callback
  stop_game_callback-Still s t c =
      let h = stop_running-Still s c in
      if-both (Safe (Still qt k)) (is_empty t) h
        (Safe-option (Still qt k) (js.parse t) _ _ h (λ v. stop_parsed-Still _ v h))
