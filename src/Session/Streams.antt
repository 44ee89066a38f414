-- ===== src/Session/Streams.antt =====
-- The theorems of `PushStreamerAction`, `KillAreadlyRunningGame` and `RecoveryGame` of
-- cloudstreamer.cpp.
use mathlib.Core.List.{append_assoc, append-nil}
use push_streamer_client.Prelude.{
  ℕ, zero, suc, ◌+◌, ◌≡◌, ◌≤◌, refl, ◌∙◌, sym, ap, ap₂, Bool, true, false, some, List, [], ◌∷◌,
  ◌++◌, String, str_append, arith, replicate, if◌then◌else◌, ltb, Bool-cases, inl, inr,
}
use push_streamer_client.Prelude.Int.{pos, negsuc, eq_ℤ}
use push_streamer_client.Qt.{Qt, SettingsLaws, is_empty}
use push_streamer_client.GameInfo.{
  init_deal_ini_file, record_all, get_game_status, get_game_info, GameInfo, read, params_key,
}
use push_streamer_client.GameInfo.Laws.{KeysApart, FlagTexts, record_all-Reads}
use push_streamer_client.Session.{
  Run, done, World, Session, PushStreamerParams, Effect, normal_model, close_push, sleep,
  start_script, emit, tick,
}
use push_streamer_client.Session.Config.{get_value_by_game_id}
use push_streamer_client.Session.Process.{
  cloud_path_bat, is_process_running, running_pid, wait_gone, kill_game_by_name,
  kill_areadly_running_game,
}
use push_streamer_client.Session.Messages.{Json}
use push_streamer_client.Session.Actions.{push_call, push_streamer_action}
use push_streamer_client.Session.Callbacks.{start_game_callback, recovery_game}
use push_streamer_client.Session.Frames.{init-record_all}

module _ (qt : Qt) (w : World) where
  -- `PushStreamerAction` keeps its parameters for a restart, and always closes the room on the
  -- server first; it pushes only if that succeeded. The result tells the three outcomes apart: 0,
  -- -3 for a failed close, -4 for a failed push.
  pub push_streamer_action_lem :
      (s : Session qt) (p : PushStreamerParams)
      → let (r, code) = push_streamer_action qt w s p in
        let closed = w.close_push_ok s.now in
        (r.push_streamer_params ≡ p)
        × (r.effects
            ≡ s.effects
              ++ close_push (qt.to_local p.room_id) (qt.to_local p.server_url)
                ∷ (if closed then push_call qt w p ∷ [] else []))
        × (code
            ≡ (if closed then (if w.push_ok (suc s.now) then pos 0 else negsuc 3) else negsuc 2))
  unfolding push_streamer_action
  push_streamer_action_lem s p =
      let c = close_push (qt.to_local p.room_id) (qt.to_local p.server_url) in
      ground (arith, append_assoc s.effects (c ∷ []) (push_call qt w p ∷ []))

  -- Whether the program runs at a moment.
  abbrev pub runs_at : String → ℕ → Bool
  runs_at name t = ltb 0 (is_process_running name (w.processes t))

  -- The effects of waiting some rounds.
  abbrev pub waits : ℕ → List Effect
  waits j = replicate j (sleep 100)

  wait_gone-ends :
      (k : ℕ) (s : Session qt) (name : String)
      → runs_at name (k + s.now) ≡ false
      → (r : Session qt) × (j : ℕ) × (wait_gone qt w (suc k) s name ≡ done r)
        × (r.effects ≡ s.effects ++ waits j)
        × (j ≤ k)
  unfolding wait_gone running_pid
  wait_gone-ends zero s name p =
      let p' : runs_at name s.now ≡ false = ap (runs_at name) (omega arith) ∙ p in
      rw p' (_, 0, refl, sym (append-nil s.effects), omega arith)
  wait_gone-ends (suc k) s name p =
      let s' = emit qt (tick qt s) (sleep 100) in
      let p' : runs_at name (k + suc s.now) ≡ false = ap (runs_at name) (omega arith) ∙ p in
      elim (Bool-cases (runs_at name s.now)) [
        | inl q ↦
            let (r, j, d, e, h) = wait_gone-ends k s' name p' in
            rw q (r, suc j, d, e ∙ append_assoc s.effects (sleep 100 ∷ []) (waits j), omega arith)
        | inr q ↦ rw q (_, 0, refl, sym (append-nil s.effects), omega arith)
      ]

  -- The call of the script that stops a game by the name of its program.
  abbrev pub stop_call : String → Effect
  stop_call name =
      start_script (str_append (str_append qt.app_dir "/") cloud_path_bat)
        (str_append (str_append "stop  \"" name) "\"")

  -- `KillAreadlyRunningGame` of a game with a program runs its stop script once and then waits; it
  -- ends, and waited at most `k` rounds, if the program is gone by the `k`th question.
  pub kill_areadly_running_game-ends :
      (k : ℕ) (s : Session qt) (id name : String)
      → is_empty id ≡ false
      → is_empty name ≡ false
      → get_value_by_game_id qt s id "gameExeName" ≡ (s, name)
      → runs_at name (k + s.now) ≡ false
      → (r : Session qt) × (j : ℕ) × (kill_areadly_running_game qt w (suc k) s id ≡ done (r, true))
        × (r.effects ≡ s.effects ++ stop_call name ∷ waits j)
        × (j ≤ k)
  unfolding kill_areadly_running_game kill_game_by_name
  kill_areadly_running_game-ends k s id name a b g p =
      let s' = emit qt s (stop_call name) in
      let (r, j, d, e, h) = wait_gone-ends k s' name p in
      rw (g, a, b, d) (r, j, refl, e ∙ append_assoc s.effects (stop_call name ∷ []) (waits j), h)

module _ (qt : Qt) (w : World) (js : Json) where
  recovery_game-again :
      (n : ℕ) (s : Session qt)
      → (get_game_status qt s.info).0 ≡ pos 1
      → init_deal_ini_file qt s.info ≡ s.info
      → recovery_game qt w js n s
        ≡ start_game_callback qt w js n s (get_game_info qt s.info).0 normal_model
  unfolding recovery_game get_game_status get_game_info eq_ℤ
  recovery_game-again n s z e =
      let f : GameInfo qt → GameInfo qt → Run (Session qt) = λ i j.
        start_game_callback qt w js n (record s { info = i }) (read qt j params_key) normal_model in
      rw z (ap₂ f (ap (init_deal_ini_file qt) e ∙ e) (ap (init_deal_ini_file qt) e))

  -- What `RecordInfo` stored for a game that runs is what `RecoveryGame` starts again, in any later
  -- session that reads the same status file.
  pub recovery_game-record_all :
      (n : ℕ) (s : Session qt) (st : qt.Settings) (data_text id : String)
      → SettingsLaws qt
      → KeysApart qt
      → FlagTexts qt
      → init_deal_ini_file qt s.info ≡ some (some st)
      → let i = record_all qt s.info data_text id (pos 1) in
        recovery_game qt w js n (record s { info = i })
        ≡ start_game_callback qt w js n (record s { info = i }) (qt.to_local data_text) normal_model
  unfolding eq_ℤ
  recovery_game-record_all n s st data_text id l keys texts o =
      let i = record_all qt s.info data_text id (pos 1) in
      let (a, _, c) = record_all-Reads qt l keys texts s.info st data_text id (pos 1) o in
      recovery_game-again n (record s { info = i }) c
        (init-record_all qt s.info data_text id (pos 1))
      ∙ ap (λ t. start_game_callback qt w js n (record s { info = i }) t normal_model) a
