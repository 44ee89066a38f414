-- ===== src/Session/Starts.antt =====
-- The theorems of `StartGameAction` of cloudstreamer.cpp: it ends when the game runs.
use push_streamer_client.Prelude.{
  ℕ, zero, suc, ◌+◌, ◌≡◌, refl, ◌∙◌, sym, ap, subst, Bool, true, false, some, String, str_eq, List,
  [], ◌∷◌, arith, if-both, ◌||◌, ltb, Bool-cases, inl, inr,
}
use push_streamer_client.Prelude.Int.{ℤ, pos, eq_ℤ, is_pos}
use push_streamer_client.Qt.{Qt, SettingsLaws, is_empty}
use push_streamer_client.Ini.{Ini}
use push_streamer_client.GameInfo.{init_deal_ini_file, get_game_status}
use push_streamer_client.GameInfo.Laws.{KeysApart, FlagTexts, Reads, record_all-Reads}
use push_streamer_client.Session.{World, Session, emit, tick, sleep}
use push_streamer_client.Text.{split as tokens_of}
use push_streamer_client.Session.Config.{
  open_config, config_value, get_value_by_game_id, get_game_path_by_id,
}
use push_streamer_client.Session.Process.{
  is_process_running, running_pid, check_running, game_is_areadly_running, start_parts,
  start_game_by_game_id,
}
use push_streamer_client.Session.Actions.{
  send_report, active_report_game_status, wait_running, null_params, ensure_started,
  start_game_action,
}
use push_streamer_client.Session.Frames.{Ends, init-init}

-- What a start relies on: the configuration file is open and names the program of the game, and
-- the status file is open or there to be opened.
pub record Ready (qt : Qt) (s : Session qt) (ini : Ini qt) (st : qt.Settings) : Type 0 where
  pub config_open : s.config ≡ some ini
  pub info_open : init_deal_ini_file qt s.info ≡ some (some st)

module _ (qt : Qt) (w : World) (ini : Ini qt) (st : qt.Settings) where
  get_value-open :
      (s : Session qt) (id key : String)
      → s.config ≡ some ini
      → (get_value_by_game_id qt s id key).0 ≡ s
  unfolding get_value_by_game_id open_config
  get_value-open s id key e = ground arith

  get_game_path-open :
      (s : Session qt) (id : String) → s.config ≡ some ini → (get_game_path_by_id qt s id).0 ≡ s
  unfolding get_game_path_by_id open_config
  get_game_path-open s id e = ground arith

  active_report-Ready :
      (s : Session qt)
      → Ready qt s ini st
      → Ready qt (active_report_game_status qt w s) ini st
        × ((active_report_game_status qt w s).now ≡ s.now)
  unfolding active_report_game_status send_report get_game_status
  active_report-Ready s r =
      let g = get_value-open s s.game_id "gameExeName" r.config_open in
      (
        record {
          config_open = ap (λ r. r.config) g ∙ r.config_open;
          info_open =
              ap (λ r. init_deal_ini_file qt (init_deal_ini_file qt r.info)) g
              ∙ init-init qt s.info
              ∙ r.info_open;
        },
        ap (λ r. r.now) g,
      )

  null_params-Ready :
      (s : Session qt) (id params : String)
      → Ready qt s ini st
      → Ready qt (null_params qt w s id params).0 ini st
        × ((null_params qt w s id params).0.now ≡ s.now)
  unfolding null_params
  null_params-Ready s id params r =
      let P : Session qt × String → Type 0 = λ x. Ready qt x.0 ini st × (x.0.now ≡ s.now) in
      if-both P (is_empty id || is_empty params) (r, refl)
        (if-both P (str_eq params "null") (active_report-Ready s r) (r, refl))

  start_parts-Ready :
      (s : Session qt) (parts : List String)
      → Ready qt s ini st
      → Ready qt (start_parts qt w s parts) ini st × ((start_parts qt w s parts).now ≡ s.now)
  unfolding start_parts
  start_parts-Ready s [] r = (r, refl)
  start_parts-Ready s (exe ∷ []) r = (r, refl)
  start_parts-Ready s (exe ∷ folder ∷ parts) r =
      (record { config_open = r.config_open; info_open = r.info_open }, refl)

  start_game-Ready :
      (s : Session qt) (id params : String)
      → Ready qt s ini st
      → Ready qt (start_game_by_game_id qt w s id params).0 ini st
        × ((start_game_by_game_id qt w s id params).0.now ≡ s.now)
  unfolding start_game_by_game_id
  start_game-Ready s id params r =
      let P : Session qt → Type 0 = λ x. Ready qt x ini st × (x.now ≡ s.now) in
      let (s', path) = get_game_path_by_id qt s id in
      let start : P (start_parts qt w s' (tokens_of path "&&")) =
        subst (λ x. P (start_parts qt w x (tokens_of path "&&")))
          (sym (get_game_path-open s id r.config_open))
          (start_parts-Ready s (tokens_of path "&&") r) in
      if-both (λ (x : Session qt × Bool). P x.0) (is_empty id) (r, refl) start

module _ (qt : Qt) (w : World) (ini : Ini qt) (st : qt.Settings) (id name : String) where
  -- The configuration file has the name of the program.
  abbrev pub Named : Type 0
  Named =
      (is_empty qt.app_dir ≡ false)
      × (is_empty id ≡ false)
      × (is_empty name ≡ false)
      × (config_value qt (some ini) id "gameexeName" ≡ name)

  -- The pid of the program at a moment.
  abbrev pub pid_at : ℕ → ℕ
  pid_at t = is_process_running name (w.processes t)

  key_not_empty : is_empty "gameexeName" ≡ false
  key_not_empty = refl

  get_value-named :
      (s : Session qt)
      → Named
      → s.config ≡ some ini
      → get_value_by_game_id qt s id "gameexeName" ≡ (s, name)
  unfolding get_value_by_game_id open_config
  get_value-named s (a, b, c, d) e = rw (a, b, e, d) (ground arith)

  pub check-named :
      (s : Session qt)
      → Named
      → s.config ≡ some ini
      → game_is_areadly_running qt w s id
        ≡ (record (tick qt s) { game_pid = pid_at s.now }, ltb 0 (pid_at s.now))
  unfolding game_is_areadly_running check_running running_pid
  check-named s h e = rw (h.1, get_value-named s h e, h.2) refl

  -- The game was seen running, and the files are open.
  abbrev pub Seen : Session qt → Type 0
  Seen r = Ready qt r ini st × (ltb 0 r.game_pid ≡ true)

  wait_running-Ends :
      (k : ℕ) (s : Session qt)
      → Named
      → Ready qt s ini st
      → ltb 0 (pid_at (k + s.now)) ≡ true
      → Ends qt Seen (wait_running qt w (suc k) s id)
  unfolding wait_running
  wait_running-Ends zero s h r p =
      let p' : ltb 0 (pid_at s.now) ≡ true = ap (λ t. ltb 0 (pid_at t)) (omega arith) ∙ p in
      rw (check-named s h r.config_open, p')
        (_, refl, (record { config_open = r.config_open; info_open = r.info_open }, p'))
  wait_running-Ends (suc k) s h r p =
      let s' = emit qt (record (tick qt s) { game_pid = pid_at s.now }) (sleep 2000) in
      let r' : Ready qt s' ini st = record {
        config_open = r.config_open;
        info_open = r.info_open;
      } in
      let p' : ltb 0 (pid_at (k + suc s.now)) ≡ true =
        ap (λ t. ltb 0 (pid_at t)) (omega arith) ∙ p in
      elim (Bool-cases (ltb 0 (pid_at s.now))) [
        | inl q ↦
            rw (check-named s h r.config_open, q)
              (_, refl, (record { config_open = r.config_open; info_open = r.info_open }, q))
        | inr q ↦ rw (check-named s h r.config_open, q) (wait_running-Ends k s' h r' p')
      ]

  ensure_started-Ends :
      (n : ℕ) (s : Session qt) (params : String) (force : ℤ)
      → Named
      → Ready qt s ini st
      → is_pos force ≡ false
      → Ends qt
          (λ r. Ready qt r ini st × (r.now ≡ suc s.now))
          (ensure_started qt w n s id params force)
  unfolding ensure_started
  ensure_started-Ends n s params force h r f =
      let s' = record (tick qt s) { game_pid = pid_at s.now } in
      let r' : Ready qt s' ini st = record {
        config_open = r.config_open;
        info_open = r.info_open;
      } in
      let P : Session qt → Type 0 = λ x. Ready qt x ini st × (x.now ≡ suc s.now) in
      rw (check-named s h r.config_open, f)
        (if-both (Ends qt P) (ltb 0 (pid_at s.now)) (s', refl, (r', refl))
          (_, refl, start_game-Ready qt w ini st s' id params r'))

  -- `StartGameAction` without force ends, and then has seen the game run and has recorded its
  -- parameters, its id and the status 1. The files are open and name the game's program, and the
  -- program runs at the `k`th moment after the first question; `k + 1` rounds of the loop are
  -- enough. Qt keeps its laws.
  pub start_game_action-Ends :
      (k : ℕ) (s : Session qt) (params data_text : String) (force : ℤ)
      → SettingsLaws qt
      → KeysApart qt
      → FlagTexts qt
      → Named
      → Ready qt s ini st
      → is_pos force ≡ false
      → ltb 0 (pid_at (k + suc s.now)) ≡ true
      → Ends qt
          (λ r.
            Reads qt r.info (qt.to_local data_text) (qt.to_local id) (pos 1)
            × (ltb 0 r.game_pid ≡ true))
          (start_game_action qt w (suc k) s id params data_text force)
  unfolding start_game_action eq_ℤ
  start_game_action-Ends k s params data_text force l keys texts h r f p =
      let s1 = record s {
        start_game_params = record {
          game_id = id;
          start_game_params = params;
          data_text = data_text;
          force = force;
        };
      } in
      let (r1, n1) =
        null_params-Ready qt w ini st s1 id params
          (record { config_open = r.config_open; info_open = r.info_open }) in
      let (x, xs) = null_params qt w s1 id params in
      let (s2, e2, (r2, n2)) = ensure_started-Ends (suc k) x xs force h r1 f in
      let p' : ltb 0 (pid_at (k + s2.now)) ≡ true =
        ap (λ t. ltb 0 (pid_at (k + t))) (n2 ∙ ap suc n1) ∙ p in
      let (s3, e3, (r3, q3)) = wait_running-Ends k s2 h r2 p' in
      rw (e2, e3)
        (
          _,
          refl,
          (record_all-Reads qt l keys texts s3.info st data_text id (pos 1) r3.info_open, q3),
        )
