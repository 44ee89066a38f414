-- ===== src/Session/Watch.antt =====
-- The theorems of `ProtectGstLaunch` of cloudstreamer.cpp: when it starts the streamer again, and when
-- it ends.
use push_streamer_client.Prelude.{
  ℕ, suc, ◌≡◌, refl, ◌∙◌, ap, true, false, some, String, List, [], ◌∷◌, ◌++◌, ltb, if◌then◌else◌,
  arith,
}
use push_streamer_client.Prelude.Int.{ℤ}
use push_streamer_client.Qt.{Qt, SettingsLaws, is_empty}
use push_streamer_client.Ini.{Ini}
use push_streamer_client.GameInfo.{init_deal_ini_file}
use push_streamer_client.GameInfo.Laws.{KeysApart, FlagTexts}
use push_streamer_client.Session.{
  done, World, Session, Effect, PushStreamerParams, close_push, tick,
}
use push_streamer_client.Session.Process.{running_pid}
use push_streamer_client.Session.Messages.{Json, StopMessage, read_stop}
use push_streamer_client.Session.Actions.{push_call}
use push_streamer_client.Session.Callbacks.{stop_game_callback}
use push_streamer_client.Session.Protect.{
  gst_launch_name, set_game_pid, push_again, check_streamer, protect_round, protect_loop,
}
use push_streamer_client.Session.Frames.{is_watching}
use push_streamer_client.Session.Starts.{Named, pid_at, check-named}
use push_streamer_client.Session.Stops.{stop_game_callback-Stopped}
use push_streamer_client.Session.Streams.{push_streamer_action_lem, runs_at}

module _ (qt : Qt) (w : World) where
  protect_loop-unwatched :
      (n : ℕ) (s : Session qt)
      → is_watching s.protect ≡ false
      → protect_loop qt w (suc n) s ≡ done s
  unfolding protect_loop
  protect_loop-unwatched n s h = rw (protect_loop, h) refl

  -- The fields that a restart of the streamer depends on.
  abbrev pub SameStream : Session qt → Session qt → Type 0
  SameStream r s =
      (r.push_streamer_params ≡ s.push_streamer_params) × (r.effects ≡ s.effects) × (r.now ≡ s.now)

  set_game_pid-SameStream : (s : Session qt) → SameStream (set_game_pid qt w s) s
  unfolding set_game_pid
  set_game_pid-SameStream s = ground arith

  push_again-effects :
      (s : Session qt)
      → is_empty qt.app_dir ≡ false
      → is_empty s.push_streamer_params.server_url ≡ false
      → let p = s.push_streamer_params in
        let r = push_again qt w s in
        (r.push_streamer_params ≡ p)
        × (r.effects
            ≡ s.effects
              ++ close_push (qt.to_local p.room_id) (qt.to_local p.server_url)
                ∷ (if w.close_push_ok s.now then push_call qt w p ∷ [] else []))
  unfolding push_again
  push_again-effects s a b =
      let (p, e, c) = push_streamer_action_lem qt w s s.push_streamer_params in
      rw (push_again, a, b) (p, e)

  -- What a push does to a state with the fields of another one.
  abbrev Pushed : Session qt → Session qt → Type 0
  Pushed r s =
      let p = s.push_streamer_params in
      (r.push_streamer_params ≡ p)
      × (r.effects
          ≡ s.effects
            ++ close_push (qt.to_local p.room_id) (qt.to_local p.server_url)
              ∷ (if w.close_push_ok (suc s.now) then push_call qt w p ∷ [] else []))

  push_again-Pushed :
      (x s : Session qt)
      → SameStream x s
      → is_empty qt.app_dir ≡ false
      → is_empty s.push_streamer_params.server_url ≡ false
      → Pushed (push_again qt w (tick qt x)) s
  push_again-Pushed x s (p, e, n) a b =
      let (p', e') = push_again-effects (tick qt x) a (ap (λ q. is_empty q.server_url) p ∙ b) in
      let effects : List Effect → PushStreamerParams → ℕ → List Effect = λ es q t.
        es
        ++ close_push (qt.to_local q.room_id) (qt.to_local q.server_url)
          ∷ (if w.close_push_ok (suc t) then push_call qt w q ∷ [] else []) in
      (
        p' ∙ p,
        e'
            ∙ ap (λ es. effects es x.push_streamer_params x.now) e
            ∙ ap (λ q. effects s.effects q x.now) p
            ∙ ap (effects s.effects s.push_streamer_params) n,
      )

  check_streamer-gone :
      (s : Session qt)
      → runs_at qt w gst_launch_name s.now ≡ false
      → is_empty qt.app_dir ≡ false
      → is_empty s.push_streamer_params.server_url ≡ false
      → Pushed (check_streamer qt w s) s
  unfolding check_streamer running_pid
  check_streamer-gone s z a b =
      let same = set_game_pid-SameStream s in
      let gone = ap (runs_at qt w gst_launch_name) same.2 ∙ z in
      rw (check_streamer, gone) (push_again-Pushed (set_game_pid qt w s) s same a b)

module _ (qt : Qt) (w : World) (ini : Ini qt) (st : qt.Settings) where
  -- A round of the thread's loop, while the game of the session runs and the streamer has ended: the
  -- room is closed, and if that succeeds the stream is pushed again, with the parameters that it had,
  -- which stay for the next round. The configuration file is open and names the game's program, and
  -- the stream has a server.
  pub protect_round-restarts :
      (s : Session qt) (name : String)
      → Named qt w ini st s.game_id name
      → s.config ≡ some ini
      → ltb 0 (pid_at qt w ini st s.game_id name s.now) ≡ true
      → runs_at qt w gst_launch_name (suc s.now) ≡ false
      → is_empty s.push_streamer_params.server_url ≡ false
      → let p = s.push_streamer_params in
        let r = protect_round qt w s in
        (r.push_streamer_params ≡ p)
        × (r.effects
            ≡ s.effects
              ++ close_push (qt.to_local p.room_id) (qt.to_local p.server_url)
                ∷ (if w.close_push_ok (suc (suc s.now)) then push_call qt w p ∷ [] else []))
  unfolding protect_round
  protect_round-restarts s name h o g z e =
      let s1 = record (tick qt s) { game_pid = pid_at qt w ini st s.game_id name s.now } in
      rw (protect_round, check-named qt w ini st s.game_id name s h o, g)
        (check_streamer-gone qt w s1 z h.0 e)

module _ (qt : Qt) (w : World) (js : Json) where
  -- After a stop, the thread that starts the streamer again ends at its next test and pushes nothing. The
  -- status file is open or there to be opened, and the message has members of the types that are
  -- read.
  pub stop_ends_protection :
      (n : ℕ) (s : Session qt) (st : qt.Settings) (data_text : String) (v : js.Value)
      (m : StopMessage) (k : ℤ)
      → SettingsLaws qt
      → KeysApart qt
      → FlagTexts qt
      → init_deal_ini_file qt s.info ≡ some (some st)
      → js.parse data_text ≡ some v
      → read_stop js v ≡ done m
      → js.number (js.get v "isForce") ≡ some k
      → (r : Session qt) × (stop_game_callback qt w js s data_text ≡ done r)
        × (protect_loop qt w (suc n) r ≡ done r)
  stop_ends_protection n s st data_text v m k l keys texts o p e i =
      let (r, d, (_, f, _)) =
        stop_game_callback-Stopped qt w js s st data_text v m k l keys texts o p e i in
      (r, d, protect_loop-unwatched qt w n r f)
