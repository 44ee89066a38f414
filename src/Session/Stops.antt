-- ===== src/Session/Stops.antt =====
-- The theorems of `StopGameCallback` of cloudstreamer.cpp.
use push_streamer_client.Prelude.{
  ℕ, ◌≡◌, refl, sym, ap, false, some, String, if-both, if-apply, subst, if◌then◌else◌, ◌||◌,
}
use push_streamer_client.Prelude.Int.{ℤ, pos, eq_ℤ}
use push_streamer_client.Qt.{Qt, SettingsLaws, is_empty}
use push_streamer_client.GameInfo.{
  init_deal_ini_file, record_id_status, get_game_info, get_game_status,
}
use push_streamer_client.GameInfo.Laws.{KeysApart, FlagTexts, Reads, record_id_status-Reads}
use push_streamer_client.Session.{done, World, Session}
use push_streamer_client.Session.Messages.{Json, StopMessage, read_stop}
use push_streamer_client.Session.Callbacks.{
  kill_current, stop_running, stop_forced, stop_parsed, stop_game_callback, recovery_game,
}
use push_streamer_client.Session.Frames.{
  Ends, is_watching, Unplugged, Settled, kill_current-Settled, stop_running-Settled,
  init-record_id_status, init-init,
}

module _ (qt : Qt) (w : World) (js : Json) where
  -- The state after the test for "isForce".
  abbrev forced : Session qt → js.Value → ℤ → Session qt
  forced s v k =
      if js.is_member v "isForce" then (if eq_ℤ k (pos 1) then kill_current qt w js s else s) else s

  stop_forced-done :
      (s : Session qt) (v : js.Value) (k : ℤ)
      → js.number (js.get v "isForce") ≡ some k
      → stop_forced qt w js s v ≡ done (forced s v k)
  unfolding stop_forced
  stop_forced-done s v k n = rw n (if-apply done (js.is_member v "isForce") _ s)

  stop_parsed-Ends :
      (P : Session qt → Type 0) (s : Session qt) (v : js.Value) (m : StopMessage) (k : ℤ)
      → read_stop js v ≡ done m
      → js.number (js.get v "isForce") ≡ some k
      → ((r : Session qt) → P r → P (kill_current qt w js r))
      → P s
      → Ends qt P (stop_parsed qt w js s v)
  unfolding stop_parsed
  stop_parsed-Ends P s v m k e n next p =
      let q = if-both P (js.is_member v "isForce") (if-both P (eq_ℤ k (pos 1)) (next s p) p) p in
      let incomplete = is_empty m.server_url || (is_empty m.control_url || is_empty m.port) in
      rw (stop_forced-done s v k n, e) (_, refl, if-both P incomplete q (next (forced s v k) q))

  -- The end of `StopGameCallback` for a message with members of the types that are read.
  stop_game_callback-Ends :
      (s : Session qt) (data_text : String) (v : js.Value) (m : StopMessage) (k : ℤ)
      → js.parse data_text ≡ some v
      → read_stop js v ≡ done m
      → js.number (js.get v "isForce") ≡ some k
      → Ends qt
          (Settled qt w js (record_id_status qt s.info s.game_id (pos 0)) s.mode)
          (stop_game_callback qt w js s data_text)
  unfolding stop_game_callback
  stop_game_callback-Ends s data_text v m k p e n =
      let i = record_id_status qt s.info s.game_id (pos 0) in
      let h = stop_running-Settled qt w js s in
      let r =
        stop_parsed-Ends (Settled qt w js i s.mode) (stop_running qt w js s) v m k e n
          (λ r.
            kill_current-Settled qt w js i s.mode r
              (init-record_id_status qt s.info s.game_id (pos 0)))
          h in
      rw p (if-both (Ends qt (Settled qt w js i s.mode)) (is_empty data_text) (_, refl, h) r)

  -- `StopGameCallback`, with the status file open or there to be opened, and for a message whose
  -- members have the types that are read: it returns; the recorded status is 0, with the game's id
  -- and its start parameters kept; the thread that restarts the streamer is told to stop; and the
  -- thread of the keyboard is gone unless the mode is the one for the stream only.
  pub stop_game_callback-Stopped :
      (s : Session qt) (st : qt.Settings) (data_text : String) (v : js.Value) (m : StopMessage)
      (k : ℤ)
      → SettingsLaws qt
      → KeysApart qt
      → FlagTexts qt
      → init_deal_ini_file qt s.info ≡ some (some st)
      → js.parse data_text ≡ some v
      → read_stop js v ≡ done m
      → js.number (js.get v "isForce") ≡ some k
      → Ends qt
          (λ r.
            Reads qt r.info (get_game_info qt s.info).0 (qt.to_local s.game_id) (pos 0)
            × (is_watching r.protect ≡ false)
            × Unplugged qt r)
          (stop_game_callback qt w js s data_text)
  unfolding eq_ℤ
  stop_game_callback-Stopped s st data_text v m k l keys texts o p e n =
      let (r, d, ((i, f, _), u)) = stop_game_callback-Ends s data_text v m k p e n in
      let reads = record_id_status-Reads qt l keys texts s.info st s.game_id (pos 0) o in
      (
        r,
        d,
        (
          subst (λ j. Reads qt j (get_game_info qt s.info).0 (qt.to_local s.game_id) (pos 0))
              (sym i) reads,
          f,
          u,
        ),
      )

  -- A game whose recorded status is 0 is not recovered: `RecoveryGame` opens the status file and
  -- does nothing else.
  pub recovery_game-Stopped :
      (n : ℕ) (s : Session qt)
      → (get_game_status qt s.info).0 ≡ pos 0
      → recovery_game qt w js n s ≡ done (record s { info = init_deal_ini_file qt s.info })
  unfolding recovery_game get_game_status get_game_info eq_ℤ
  recovery_game-Stopped n s z = rw z (ap (λ i. done (record s { info = i })) (init-init qt s.info))
