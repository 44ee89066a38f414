-- ===== src/Panel/Alone.antt =====
-- The keyboard threads that the buttons of the window of cloudstreamer.cpp start and stop.
use push_streamer_client.Prelude.{
  ◌≡◌, refl, ◌∙◌, sym, Bool, true, false, ◌&&◌, Option, none, some, String, List, [], ◌∷◌, ◌++◌,
  if◌then◌else◌, arith, subst, if-both, Bool-cases, inl, inr, ◌||◌,
}
use push_streamer_client.Qt.{Qt, is_empty}
use push_streamer_client.Keymap.{is_null}
use push_streamer_client.Session.{
  World, Session, KeyBoardThread, Effect, keyboard_start, keyboard_stop, set_log_path, close_push,
  emit,
}
use push_streamer_client.Session.Config.{open_config, get_value_by_game_id}
use push_streamer_client.Session.Process.{kill_game_by_name}
use push_streamer_client.Panel.Laws.{quit_force-session}
use push_streamer_client.Session.Actions.{drop_keyboard, start_thread}
use push_streamer_client.Session.Callbacks.{stops_stream, stops_keyboard}
use push_streamer_client.Panel.{Panel, Form, set_ui_model}
use push_streamer_client.Panel.Presses.{
  Press, start_button, stop_button, game_button, download_button, mode_chosen, exit_chosen, press,
  presses, on_exit, kill_on_exit, push_form, close_form, start_stream, form_thread, start_keys,
  on_push_button_2, on_push_button_3, on_push_button_6, on_push_button_7,
}

-- Whether a keyboard thread runs after an effect; `none` if one is started while another runs.
unfoldable pub hear : Bool → Effect → Option Bool
hear true (keyboard_start k) = none
hear false (keyboard_start k) = some true
hear b keyboard_stop = some false
hear b _ = some b

unfoldable pub watch : Bool → List Effect → Option Bool
watch b [] = some b
watch b (e ∷ es) = elim (hear b e) [ none ↦ none | some c ↦ watch c es ]

watch-append :
    (es : List Effect) (e : Effect) (b c : Bool)
    → watch b es ≡ some c
    → watch b (es ++ e ∷ []) ≡ hear c e
unfolding watch
watch-append [] e b c h = ground arith
watch-append (d ∷ es) e b c h = ground (arith, watch-append es e true c, watch-append es e false c)

module _ (qt : Qt) (w : World) where
  -- No thread was started while another ran, and one that runs is the one the session points to.
  abbrev pub Alone : Session qt → Type 0
  Alone s =
      (r : Bool) × (watch false s.effects ≡ some r) × ((r && is_null s.key_board_thread) ≡ false)

  -- An effect that is about no keyboard.
  emit-Alone :
      (s : Session qt) (e : Effect)
      → ((b : Bool) → hear b e ≡ some b)
      → Alone s
      → Alone (emit qt s e)
  emit-Alone s e q (r, h, n) = (r, watch-append s.effects e false r h ∙ q r, n)

  -- After a drop no thread runs.
  abbrev pub Silent : Session qt → Type 0
  Silent s = (watch false s.effects ≡ some false) × (s.key_board_thread ≡ none)

  drop_keyboard-Silent : (s : Session qt) → Alone s → Silent (drop_keyboard qt w s)
  unfolding drop_keyboard hear
  drop_keyboard-Silent s (r, h, n) = ground (arith, watch-append s.effects keyboard_stop false r)

  start_thread-Alone :
      (s : Session qt) (k : KeyBoardThread) → Silent s → Alone (start_thread qt w s k)
  unfolding start_thread hear
  start_thread-Alone s k (h, n) =
      elim (Bool-cases (is_empty k.ws_url || is_empty k.login_command)) [
        | inl e ↦ (false, ground arith, refl)
        | inr e ↦ (
          true,
          ground (arith, watch-append s.effects (keyboard_start k) false false),
          ground arith,
        )
      ]

  close_form-Alone : (f : Form) (s : Session qt) → Alone s → Alone (close_form qt w f s)
  unfolding hear
  close_form-Alone f s h = emit-Alone s (close_push f.room_name f.push_server) (λ b. ground arith) h

  push_form-Alone : (f : Form) (s : Session qt) → Alone s → Alone (push_form qt w f s)
  unfolding push_form hear
  push_form-Alone f s h = emit-Alone s _ (λ b. ground arith) h

  start_stream-Alone : (f : Form) (s : Session qt) → Alone s → Alone (start_stream qt w f s).0
  unfolding start_stream
  start_stream-Alone f s h = push_form-Alone f (close_form qt w f s) (close_form-Alone f s h)

  start_keys-Alone : (p : Panel qt) (s : Session qt) → Alone s → Alone (start_keys qt w p s).session
  unfolding start_keys
  start_keys-Alone p s h =
      if-both Alone (stops_keyboard s.mode)
        (start_thread-Alone (drop_keyboard qt w s) (form_thread qt w p.form)
          (drop_keyboard-Silent s h))
        h

  abbrev pub Fine : Panel qt → Type 0
  Fine p = Alone p.session

  button_2-Alone : (p : Panel qt) → Fine p → Fine (on_push_button_2 qt w p)
  unfolding on_push_button_2 start_stream hear
  button_2-Alone p h =
      let s = emit qt p.session (set_log_path (qt.to_local p.log_path)) in
      let hs = emit-Alone p.session (set_log_path (qt.to_local p.log_path)) (λ b. ground arith) h in
      let s' = push_form qt w p.form (close_form qt w p.form s) in
      let hs' = push_form-Alone p.form (close_form qt w p.form s) (close_form-Alone p.form s hs) in
      if-both Fine (stops_stream s.mode)
        (if-both Fine (w.push_ok (close_form qt w p.form s).now) (start_keys-Alone p s' hs') hs')
        (start_keys-Alone p s hs)

  drop-Alone : (s : Session qt) → Alone s → Alone (drop_keyboard qt w s)
  drop-Alone s h = let (a, n) = drop_keyboard-Silent s h in (false, a, refl)

  button_3-Alone : (p : Panel qt) → Fine p → Fine (on_push_button_3 qt w p)
  unfolding on_push_button_3
  button_3-Alone p h =
      let s = if stops_stream p.session.mode then close_form qt w p.form p.session else p.session in
      let hs =
        if-both Alone (stops_stream p.session.mode) (close_form-Alone p.form p.session h) h in
      if-both Alone (stops_keyboard p.session.mode) (drop-Alone s hs) hs

  button_6-Alone : (p : Panel qt) → Fine p → Fine (on_push_button_6 qt w p)
  unfolding on_push_button_6 hear
  button_6-Alone p h =
      if-both Fine (is_empty p.form.game_path) h (emit-Alone p.session _ (λ b. ground arith) h)

  button_7-Alone : (p : Panel qt) → Fine p → Fine (on_push_button_7 qt w p)
  unfolding on_push_button_7 hear
  button_7-Alone p h =
      if-both Fine (is_empty p.form.file_url || is_empty p.form.save_path) h
        (emit-Alone p.session _ (λ b. ground arith) h)

  open_config-Alone : (s : Session qt) → Alone s → Alone (open_config qt s).0
  unfolding open_config
  open_config-Alone s (r, h, n) = (r, ground arith, ground arith)

  get_value-Alone :
      (s : Session qt) (id key : String) → Alone s → Alone (get_value_by_game_id qt s id key).0
  unfolding get_value_by_game_id
  get_value-Alone s id key h =
      let hs = open_config-Alone s h in
      if-both (λ (x : Session qt × String). Alone x.0)
        (is_empty id || (is_empty key || is_empty qt.app_dir)) h
        (if-both (λ (x : Session qt × String). Alone x.0) (open_config qt s).1 hs hs)

  kill-Alone : (s : Session qt) (name : String) → Alone s → Alone (kill_game_by_name qt w s name)
  unfolding kill_game_by_name hear
  kill-Alone s name h = emit-Alone s _ (λ b. ground arith) h

  kill_on_exit-Alone : (s : Session qt) → Alone s → Alone (kill_on_exit qt w s)
  unfolding kill_on_exit
  kill_on_exit-Alone s h =
      let (s', name) = get_value_by_game_id qt s s.game_id "gameExeName" in
      let hs = get_value-Alone s s.game_id "gameExeName" h in
      if-both Alone (is_empty name) hs (kill-Alone s' name hs)

  exit-Alone : (p : Panel qt) → Fine p → Fine (on_exit qt w p)
  unfolding on_exit
  exit-Alone p h =
      button_3-Alone _ (kill_on_exit-Alone _ (subst Alone (sym (quit_force-session qt w p true)) h))

  press-Alone : (p : Panel qt) (b : Press) → Fine p → Fine (press qt w p b)
  unfolding press set_ui_model
  press-Alone p start_button h = button_2-Alone p h
  press-Alone p stop_button h = button_3-Alone p h
  press-Alone p game_button h = button_6-Alone p h
  press-Alone p download_button h = button_7-Alone p h
  press-Alone p (mode_chosen m) h = h
  press-Alone p exit_chosen h = exit-Alone p h

  -- Whatever the user presses, in whatever order: if no keyboard thread was started while another ran,
  -- and the session points to the one that runs, if any, then this is so afterwards.
  pub presses-Alone :
      (p : Panel qt) (bs : List Press) → Alone p.session → Alone (presses qt w p bs).session
  unfolding presses
  presses-Alone p [] h = h
  presses-Alone p (b ∷ bs) h = presses-Alone (press qt w p b) bs (press-Alone p b h)
