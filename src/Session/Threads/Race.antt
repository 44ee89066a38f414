-- ===== src/Session/Threads/Race.antt =====
-- A stop of cloudstreamer.cpp while a start still waits for its game: the start goes on.
use push_streamer_client.Prelude.{
  ℕ, ◌≡◌, refl, ◌∙◌, sym, ap, subst, true, some, List, [], ◌∷◌, ◌++◌, String, arith, if-both,
}
use push_streamer_client.Prelude.Int.{pos, eq_ℤ}
use push_streamer_client.Qt.{Qt, SettingsLaws}
use push_streamer_client.GameInfo.{init_deal_ini_file, record_all}
use push_streamer_client.GameInfo.Laws.{KeysApart, FlagTexts, Reads, record_all-Reads}
use push_streamer_client.Session.{done, World, Session, PushStreamerParams, KeyBoardThread}
use push_streamer_client.Session.Messages.{Json}
use push_streamer_client.Session.Config.{get_value_by_game_id}
use push_streamer_client.Session.Process.{game_is_areadly_running, check_running, running_pid}
use push_streamer_client.Session.Frames.{get_value-only, is_watching}
use push_streamer_client.Session.Actions.{
  push_streamer_action, start_keyboard_action, drop_keyboard, key_paths_of, start_thread,
  start_protect_gst_launch,
}
use push_streamer_client.Session.Callbacks.{is_normal, push_url, stop_game_callback}
use push_streamer_client.Session.Threads.{
  Thread, launching, protectors, Pending, awaiting, stopping, Choice, runs, finish_callback,
  wait_round, thread_turn, turn_at, choice_step, schedule,
}

module _ (qt : Qt) (w : World) (js : Json) where
  -- The three turns: the stop, a round of the loop that sees the game, and the rest of the start.
  stop_then_record :
      (n : ℕ) (s r : Session qt) (p : Pending) (text : String)
      → stop_game_callback qt w js s text ≡ done r
      → (game_is_areadly_running qt w r p.game_id).1 ≡ true
      → schedule qt w js n
          (record { session = s; threads = awaiting p ∷ stopping text ∷ [] })
          (runs 1 ∷ runs 0 ∷ runs 0 ∷ [])
        ≡ done (record {
          session = finish_callback qt w js (game_is_areadly_running qt w r p.game_id).0 p;
          threads = protectors qt w js p.model ++ [];
        })
  unfolding schedule choice_step turn_at thread_turn wait_round
  stop_then_record n s r p text h g = rw (h, g) refl

  protectors-normal :
      (p : Pending) → is_normal p.model ≡ true → protectors qt w js p.model ++ [] ≡ launching ∷ []
  unfolding protectors
  protectors-normal p m = rw m refl

  get_value-info :
      (s : Session qt) (id key : String) → (get_value_by_game_id qt s id key).0.info ≡ s.info
  get_value-info s id key = ap (λ r. r.info) (get_value-only qt s id key)

  running-info :
      (s : Session qt) (id : String) → (game_is_areadly_running qt w s id).0.info ≡ s.info
  unfolding game_is_areadly_running check_running running_pid
  running-info s id = ground (arith, get_value-info s id "gameexeName")

  push-info :
      (s : Session qt) (p : PushStreamerParams) → (push_streamer_action qt w s p).0.info ≡ s.info
  unfolding push_streamer_action
  push-info s p = ground arith

  drop-info : (s : Session qt) → (drop_keyboard qt w s).info ≡ s.info
  unfolding drop_keyboard
  drop-info s = ground arith

  paths-info : (s : Session qt) (id : String) → (key_paths_of qt w s id).0.info ≡ s.info
  unfolding key_paths_of
  paths-info s id =
      let names : String = "keyBoardNameValueMappingTable" in
      let s1 = (get_value_by_game_id qt s id names).0 in
      let s2 = (get_value_by_game_id qt s1 id "keyBoardDefaultConfig").0 in
      get_value-info s2 id "keyBoardGameConfig"
      ∙ get_value-info s1 id "keyBoardDefaultConfig"
      ∙ get_value-info s id names

  start_thread-info : (s : Session qt) (k : KeyBoardThread) → (start_thread qt w s k).info ≡ s.info
  unfolding start_thread
  start_thread-info s k = ground arith

  keyboard-info :
      (s : Session qt) (id url login : String)
      → (start_keyboard_action qt w s id url login).info ≡ s.info
  unfolding start_keyboard_action start_protect_gst_launch
  keyboard-info s id url login =
      start_thread-info _ _ ∙ paths-info (drop_keyboard qt w s) id ∙ drop-info s

  keyboard-watching :
      (s : Session qt) (id url login : String)
      → is_watching (start_keyboard_action qt w s id url login).protect ≡ true
  unfolding start_keyboard_action start_protect_gst_launch
  keyboard-watching s id url login = refl

  finish_callback-info :
      (s : Session qt) (p : Pending)
      → (finish_callback qt w js s p).info ≡ record_all qt s.info p.data_text p.game_id (pos 1)
  unfolding finish_callback
  finish_callback-info s p =
      let i = record_all qt s.info p.data_text p.game_id (pos 1) in
      let s1 : Session qt = record s { info = i } in
      let e = push-info s1 (push_url qt w js p.message) in
      if-both (λ (r : Session qt). r.info ≡ i) (is_normal p.model)
        (keyboard-info (push_streamer_action qt w s1 (push_url qt w js p.message)).0 p.game_id
            p.message.control_url p.message.login
          ∙ e)
        e

  finish_callback-watching :
      (s : Session qt) (p : Pending)
      → is_normal p.model ≡ true
      → is_watching (finish_callback qt w js s p).protect ≡ true
  unfolding finish_callback
  finish_callback-watching s p h =
      rw h (keyboard-watching _ p.game_id p.message.control_url p.message.login)

  -- A StopGame that runs while a StartGame waits for its game is undone by the start, which the stop
  -- does not tell to end: there is an order of the turns of the two in which the stop returns first,
  -- and in the end the recorded status is 1, and ProtectGstLaunch is started, with its flag set.
  -- The game is still seen once after the stop, and the status file is open or there to be opened.
  pub start_outlives_stop :
      (n : ℕ) (s r : Session qt) (st : qt.Settings) (p : Pending) (text : String)
      → SettingsLaws qt
      → KeysApart qt
      → FlagTexts qt
      → stop_game_callback qt w js s text ≡ done r
      → (game_is_areadly_running qt w r p.game_id).1 ≡ true
      → init_deal_ini_file qt r.info ≡ some (some st)
      → is_normal p.model ≡ true
      → (cs : List Choice) × (q : Session qt) × (schedule qt w js n
            (record { session = s; threads = awaiting p ∷ stopping text ∷ [] })
            cs
          ≡ done (record { session = q; threads = launching ∷ [] }))
        × Reads qt q.info (qt.to_local p.data_text) (qt.to_local p.game_id) (pos 1)
        × (is_watching q.protect ≡ true)
  unfolding eq_ℤ
  start_outlives_stop n s r st p text l keys texts h g o m =
      let r1 = (game_is_areadly_running qt w r p.game_id).0 in
      let opened = ap (init_deal_ini_file qt) (running-info r p.game_id) ∙ o in
      (
        runs 1 ∷ runs 0 ∷ runs 0 ∷ [],
        finish_callback qt w js r1 p,
        stop_then_record n s r p text h g
            ∙ ap
                (λ (ts : List Thread).
                  done (record { session = finish_callback qt w js r1 p; threads = ts }))
                (protectors-normal p m),
        subst (λ i. Reads qt i (qt.to_local p.data_text) (qt.to_local p.game_id) (pos 1))
            (sym (finish_callback-info r1 p))
            (record_all-Reads qt l keys texts r1.info st p.data_text p.game_id (pos 1) opened),
        finish_callback-watching r1 p m,
      )
