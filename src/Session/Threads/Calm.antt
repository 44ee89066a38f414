-- ===== src/Session/Threads/Calm.antt =====
-- The turns of the threads of cloudstreamer.cpp that cannot start anything, while the recorded status is 0.
use push_streamer_client.Prelude.{
  ℕ, zero, suc, ◌≡◌, refl, ◌∙◌, ap, Bool, true, false, not, ◌||◌, ◌&&◌, ltb, Option, none, some,
  List, [], ◌∷◌, ◌++◌, All, String, if-both, option-both, arith,
}
use push_streamer_client.Prelude.Int.{pos, eq_ℤ}
use push_streamer_client.Qt.{Qt, SettingsLaws, is_empty}
use push_streamer_client.GameInfo.{GameInfo, init_deal_ini_file, get_game_status, get_game_info}
use push_streamer_client.GameInfo.Laws.{KeysApart, FlagTexts}
use push_streamer_client.Session.{
  World, Session, StartGameModel, normal_model, only_push_streamr, sleep,
}
use push_streamer_client.Session.Messages.{Json, need}
use push_streamer_client.Session.Resolution.{optional_text, modifiy_start_params, with_rates}
use push_streamer_client.Session.Callbacks.{stop_game_callback}
use push_streamer_client.Session.Frames.{init-init, is_watching}
use push_streamer_client.Session.Process.{running_pid}
use push_streamer_client.Session.Protect.{gst_launch_name}
use push_streamer_client.Session.Commands.{get_game_status-again}
use push_streamer_client.Session.Threads.{
  Thread, starting, awaiting, recording, stopping, signing, changing, launching, guarding, checking,
  pushing, guard_round, check_status, recovery_turn, sign_in_turn, restart_turn, change_parsed_turn,
  change_turn, spawned, thread_turn, turn_at,
}
use push_streamer_client.Session.Threads.Safe.{Safe, Safe-bind, Safe-any, Safe-option}
use push_streamer_client.Session.Threads.Silence.{
  Still, is_launch, emit-Still, record_params-status, stop_game_callback-Still,
}

-- A thread that is no StartGameCallback, and no ProtectGstLaunch after the tests of a round.
unfoldable pub is_calm : Thread → Bool
is_calm (stopping t) = true
is_calm (signing t) = true
is_calm (changing t) = true
is_calm launching = true
is_calm guarding = true
is_calm checking = true
is_calm _ = false

abbrev pub AllCalm : List Thread → Type 0
AllCalm ts = All (λ t. is_calm t ≡ true) ts

pub append-AllCalm : (ts us : List Thread) → AllCalm ts → AllCalm us → AllCalm (ts ++ us)
append-AllCalm [] us h k = k
append-AllCalm (t ∷ ts) us h k = (h.0, append-AllCalm ts us h.1 k)

module _ (qt : Qt) (w : World) (js : Json) (l : SettingsLaws qt) (keys : KeysApart qt)
    (texts : FlagTexts qt) (k : ℕ) where
  -- A turn that goes on without a new thread.
  abbrev pub Lone : Session qt × Option String → Type 0
  Lone r = Still qt k r.0 × (r.1 ≡ none)

  recovery_turn-Lone : (s : Session qt) → Still qt k s → Lone (recovery_turn qt w js s)
  unfolding recovery_turn get_game_info get_game_status init_deal_ini_file eq_ℤ
  recovery_turn-Lone s (z, c) =
      let opened : (get_game_info qt (get_game_status qt s.info).1).1
          ≡ (get_game_status qt s.info).1 =
        init-init qt s.info in
      (
        (ap (λ i. (get_game_status qt i).0) opened ∙ (get_game_status-again qt w js s.info ∙ z), c),
        rw z refl,
      )

  sign_in_turn-Lone :
      (s : Session qt) (t : String) → Still qt k s → Safe Lone (sign_in_turn qt w js s t)
  unfolding sign_in_turn
  sign_in_turn-Lone s t h =
      Safe-option Lone (js.parse t) _ _ (h, refl)
        (λ v.
          let id = js.get v "sessionId" in
          if-both (Safe Lone)
            (is_empty t || (not (js.is_member v "sessionId") || not (js.is_string id))) (h, refl)
            (Safe-bind (λ x. Unit) Lone (need js (js.text id)) _ (Safe-any _)
              (λ x u. recovery_turn-Lone (record s { session_id = x }) h)))

  restart_turn-Lone :
      (s : Session qt) (new : String) → Still qt k s → Lone (restart_turn qt w js s new)
  unfolding restart_turn eq_ℤ
  restart_turn-Lone s new (z, c) =
      if-both Lone (is_empty new) ((z, c), refl)
        ((get_game_status-again qt w js s.info ∙ z, c), rw z refl)

  modifiy-status :
      (i : GameInfo qt) (a b c : String)
      → (get_game_status qt i).0 ≡ pos 0
      → (get_game_status qt (modifiy_start_params qt w js i a b c).0).0 ≡ pos 0
  unfolding modifiy_start_params get_game_info get_game_status
  modifiy-status i a b c z =
      let Zero : GameInfo qt × String → Type 0 = λ x. (get_game_status qt x.0).0 ≡ pos 0 in
      let i1 = (get_game_info qt i).1 in
      let z1 : (get_game_status qt i1).0 ≡ pos 0 = get_game_status-again qt w js i ∙ z in
      if-both Zero (is_empty a || (is_empty b || is_empty c)) z (
        if-both Zero (is_empty (get_game_info qt i).0) z1 (
          option-both Zero (js.parse (get_game_info qt i).0) _ _ z1
            (λ v. record_params-status qt l keys texts i1 (with_rates qt w js v a b c) z1)))

  change_parsed-Lone :
      (s : Session qt) (v : js.Value) → Still qt k s → Safe Lone (change_parsed_turn qt w js s v)
  unfolding change_parsed_turn
  change_parsed-Lone s v (z, c) =
      Safe-bind (λ x. Unit) Lone (optional_text qt w js v "framerate") _ (Safe-any _)
        (λ f u.
          Safe-bind (λ x. Unit) Lone (optional_text qt w js v "bitrate") _ (Safe-any _)
            (λ b u.
              Safe-bind (λ x. Unit) Lone (optional_text qt w js v "deadline") _ (Safe-any _)
                (λ d u.
                  let r = modifiy_start_params qt w js s.info f b d in
                  restart_turn-Lone (record s { info = r.0 }) r.1
                    (modifiy-status s.info f b d z, c))))

  change_turn-Lone :
      (s : Session qt) (t : String) → Still qt k s → Safe Lone (change_turn qt w js s t)
  unfolding change_turn
  change_turn-Lone s t h =
      if-both (Safe Lone) (is_empty t) (h, refl)
        (Safe-option Lone (js.parse t) _ _ (h, refl) (λ v. change_parsed-Lone s v h))

  -- The state after a turn, with the threads that are left of it.
  abbrev pub Calmed : Session qt × List Thread → Type 0
  Calmed r = Still qt k r.0 × AllCalm r.1

  lone-spawned : (model : StartGameModel) (o : Option String) → o ≡ none → AllCalm (spawned model o)
  unfolding spawned
  lone-spawned model none e = tt
  lone-spawned model (some t) e = ground arith

  guard_round-Calmed : (s : Session qt) → Still qt k s → Calmed (guard_round qt w js s)
  unfolding guard_round running_pid is_calm is_launch
  guard_round-Calmed s h =
      let (s', pid) = running_pid qt w s gst_launch_name in
      if-both Calmed (ltb 0 pid && is_watching s.protect)
        (emit-Still qt w js k s' (sleep 1000) refl h, (refl, tt)) (h, (refl, tt))

  check_status-Calmed : (s : Session qt) → Still qt k s → Calmed (check_status qt w js s)
  unfolding check_status eq_ℤ
  check_status-Calmed s (z, c) =
      if-both Calmed (not (is_watching s.protect)) ((z, c), tt)
        ((get_game_status-again qt w js s.info ∙ z, c), rw z tt)

  thread_turn-Calmed :
      (n : ℕ) (s : Session qt) (t : Thread)
      → Still qt k s
      → is_calm t ≡ true
      → Safe Calmed (thread_turn qt w js n s t)
  unfolding thread_turn is_calm
  thread_turn-Calmed n s (starting t m) h e = ground arith
  thread_turn-Calmed n s (awaiting p) h e = ground arith
  thread_turn-Calmed n s (recording p) h e = ground arith
  thread_turn-Calmed n s pushing h e = ground arith
  thread_turn-Calmed n s launching h e = (h, (refl, tt))
  thread_turn-Calmed n s guarding h e = guard_round-Calmed s h
  thread_turn-Calmed n s checking h e = check_status-Calmed s h
  thread_turn-Calmed n s (stopping t) h e =
      Safe-bind (Still qt k) Calmed (stop_game_callback qt w js s t) _
        (stop_game_callback-Still qt w js l keys texts k s t h.1) (λ r g. (g, tt))
  thread_turn-Calmed n s (signing t) h e =
      Safe-bind Lone Calmed (sign_in_turn qt w js s t) _ (sign_in_turn-Lone s t h)
        (λ r g. (g.0, lone-spawned normal_model r.1 g.1))
  thread_turn-Calmed n s (changing t) h e =
      Safe-bind Lone Calmed (change_turn qt w js s t) _ (change_turn-Lone s t h)
        (λ r g. (g.0, lone-spawned only_push_streamr r.1 g.1))

  pub turn_at-Calmed :
      (n : ℕ) (s : Session qt) (i : ℕ) (ts : List Thread)
      → Still qt k s
      → AllCalm ts
      → Safe Calmed (turn_at qt w js n s i ts)
  unfolding turn_at
  turn_at-Calmed n s i [] h c = (h, c)
  turn_at-Calmed n s zero (t ∷ ts) h c =
      Safe-bind Calmed Calmed (thread_turn qt w js n s t) _ (thread_turn-Calmed n s t h c.0)
        (λ r g. (g.0, append-AllCalm r.1 ts g.1 c.1))
  turn_at-Calmed n s (suc i) (t ∷ ts) h c =
      Safe-bind Calmed Calmed (turn_at qt w js n s i ts) _ (turn_at-Calmed n s i ts h c.1)
        (λ r g. (g.0, (c.0, g.1)))
