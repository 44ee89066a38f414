-- ===== src/KeyMessages/Laws.antt =====
-- The theorems of the key messages of cloudstreamer.cpp.
use push_streamer_client.Prelude.{◌≡◌, refl, ◌∙◌, ap, true, false, none, some, ◌++◌, String, arith}
use push_streamer_client.Prelude.Int.{ℤ, pos, eq_ℤ}
use push_streamer_client.Qt.{Qt}
use push_streamer_client.Ini.{get_value}
use push_streamer_client.Device.{press, release}
use push_streamer_client.Consumer.{Consumer, normal_key_action}
use push_streamer_client.Keymap.{Keymap, no_tables, lookup_key}
use push_streamer_client.Keymap.Direction.{Floats}
use push_streamer_client.Keymap.Cache.{products, queue}
use push_streamer_client.Keymap.Keys.{key_down_c, key_up_c}
use push_streamer_client.Keymap.KeysLaws.{keys_of, key_down_up}
use push_streamer_client.Session.{Run, done, aborted, ◌>>=◌}
use push_streamer_client.KeyMessages.{
  Reader, Control, is_left_keyboard_number_letter, key_of, open_key_files, mapped_key,
  press_function_key, deal_the_full_keyboard_model, axis, key_text, gamepad_key, gamepad_ud,
  deal_gamepad, deal_the_normal_keyboard_model,
}

module _ (qt : Qt) (fl : Floats) (rd : Reader fl) where
  -- A message of the gamepad with no coordinates: its "ud" and its key.
  pub record IsGamepad (v : rd.Value) (ud : ℤ) : Type 0 where
    pub mode_is : rd.int (rd.get v "mode") ≡ some (pos 1)
    pub ud_is : rd.int (rd.get v "ud") ≡ some ud
    pub no_x : rd.is_member (rd.get v "key") "x" ≡ false
    pub no_y : rd.is_member (rd.get v "key") "y" ≡ false
    pub no_z : rd.is_member (rd.get v "key") "z" ≡ false
    pub no_rz : rd.is_member (rd.get v "key") "rz" ≡ false
    pub has_key : rd.is_member (rd.get v "key") "key" ≡ true

  mapped_key-none : (s : Control qt fl) (k : ℤ) → s.ini_parse2 ≡ none → mapped_key qt fl rd s k ≡ ""
  unfolding mapped_key get_value
  mapped_key-none s k e = ground arith

  open_key_files-parse2 :
      (s : Control qt fl) → (open_key_files qt fl rd s).ini_parse2 ≡ s.ini_parse2
  unfolding open_key_files
  open_key_files-parse2 s = ground arith

  press_function_key-none :
      (s : Control qt fl) (k : ℤ) → s.ini_parse2 ≡ none → press_function_key qt fl rd s k ≡ s
  unfolding press_function_key
  press_function_key-none s k e = rw (mapped_key-none s k e) refl

  -- After a start of a thread whose second key file is not open, since a start never opens it, the
  -- press of a full keyboard's key that is
  -- not sent as it is does nothing: the state, and the calls made, stay what they were.
  pub function_key_lost :
      (s : Control qt fl) (v : rd.Value) (k : ℤ)
      → s.ini_parse2 ≡ none
      → rd.int (rd.get v "ud") ≡ some (pos 1)
      → key_of qt fl rd v ≡ done k
      → is_left_keyboard_number_letter k ≡ false
      → deal_the_full_keyboard_model qt fl rd (open_key_files qt fl rd s) v
        ≡ done (open_key_files qt fl rd s)
  unfolding deal_the_full_keyboard_model eq_ℤ
  function_key_lost s v k n u e l =
      let s' = open_key_files qt fl rd s in
      rw (u, e, l) (ap done (press_function_key-none s' k (open_key_files-parse2 s ∙ n)))

  -- A gamepad message with no coordinates, and with a key that `asString` refuses, such as a number,
  -- ends in the exception of `asString`; the branches after it, which would read a number, are not
  -- reached.
  pub number_key_aborts :
      (s : Control qt fl) (v : rd.Value) (ud : ℤ)
      → IsGamepad v ud
      → rd.string (rd.get (rd.get v "key") "key") ≡ none
      → deal_the_normal_keyboard_model qt fl rd s v ≡ aborted
  unfolding deal_the_normal_keyboard_model deal_gamepad axis key_text eq_ℤ
  number_key_aborts s v ud g n =
      rw (g.mode_is, g.ud_is, g.no_x, g.no_y, g.no_z, g.no_rz, g.has_key, n) refl

  deal_gamepad-ud :
      (s : Control qt fl) (v : rd.Value) (ud : ℤ) (m : Keymap qt fl) (t : String)
      → IsGamepad v ud
      → rd.string (rd.get (rd.get v "key") "key") ≡ some t
      → s.key_board_config ≡ some m
      → deal_the_normal_keyboard_model qt fl rd s v
        ≡ gamepad_ud qt fl rd s m (rd.get v "key") ud fl.zero fl.zero
  unfolding deal_the_normal_keyboard_model deal_gamepad axis key_text eq_ℤ
  deal_gamepad-ud s v ud m t g n c =
      rw (g.mode_is, g.ud_is, g.no_x, g.no_y, g.no_z, g.no_rz, g.has_key, n)
        (ap
          (λ o. elim o as (λ _. Run (Control qt fl)) [
            | none ↦ done s
            | some r ↦ gamepad_ud qt fl rd s r (rd.get v "key") ud fl.zero fl.zero
          ])
          c)

  gamepad_key-done :
      (s : Control qt fl) (m : Keymap qt fl) (v : rd.Value) (k : ℤ)
      (f : Keymap qt fl → ℤ → Keymap qt fl × ℤ)
      → rd.is_member v "key" ≡ true
      → key_of qt fl rd v ≡ done k
      → eq_ℤ k (pos 0) ≡ false
      → gamepad_key qt fl rd s m v f ≡ done (record s { key_board_config = some (f m k).0 })
  unfolding gamepad_key
  gamepad_key-done s m v k f h e z = rw (h, e, z) refl

  -- A press and then a release of one gamepad key, given as a text that is read as a number other
  -- than 0, queue a press of each key of the button and then a release of each. There are key files
  -- and a consumer, and the button's value survives the local encoding.
  pub gamepad_press_release :
      (s : Control qt fl) (m : Keymap qt fl) (c : Consumer) (v w : rd.Value) (k : ℤ) (t : String)
      → s.key_board_config ≡ some m
      → m.consumer ≡ some c
      → no_tables qt fl m ≡ false
      → qt.to_local (lookup_key qt fl m (qt.number k)) ≡ lookup_key qt fl m (qt.number k)
      → IsGamepad v (pos 1)
      → IsGamepad w (pos 2)
      → rd.get w "key" ≡ rd.get v "key"
      → rd.string (rd.get (rd.get v "key") "key") ≡ some t
      → key_of qt fl rd (rd.get v "key") ≡ done k
      → eq_ℤ k (pos 0) ≡ false
      → (m' : Keymap qt fl) × ((deal_the_normal_keyboard_model qt fl rd s v >>= λ r.
            deal_the_normal_keyboard_model qt fl rd r w)
          ≡ done (record s { key_board_config = some m' }))
        × (queue qt fl m'
            ≡ queue qt fl m
              ++ (products normal_key_action press (keys_of qt fl m k)
                  ++ products normal_key_action release (keys_of qt fl m k)))
  unfolding gamepad_ud eq_ℤ
  gamepad_press_release s m c v w k t o q f h g1 g2 same n e z =
      let m1 = (key_down_c qt fl m k).0 in
      let s1 = record s { key_board_config = some m1 } in
      let pressed =
        deal_gamepad-ud s v (pos 1) m t g1 n o
        ∙ gamepad_key-done s m (rd.get v "key") k (key_down_c qt fl) g1.has_key e z in
      let released =
        deal_gamepad-ud s1 w (pos 2) m1 t g2 (ap (λ r. rd.string (rd.get r "key")) same ∙ n) refl
        ∙ gamepad_key-done s1 m1 (rd.get w "key") k (key_up_c qt fl) g2.has_key
            (ap (key_of qt fl rd) same ∙ e) z in
      (
        _,
        ap (λ r. r >>= λ x. deal_the_normal_keyboard_model qt fl rd x w) pressed ∙ released,
        key_down_up qt fl m c k q f h,
      )
