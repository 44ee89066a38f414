-- ===== src/Keymap/KeysLaws.antt =====
-- The theorems of the buttons and the mouse of keyvaluetransformt.cpp.
use mathlib.Core.List.{append_assoc}
use push_streamer_client.Prelude.{◌≡◌, refl, ◌∙◌, ap, ap₂, false, some, List, [], ◌∷◌, ◌++◌}
use push_streamer_client.Prelude.Int.{ℤ, pos}
use push_streamer_client.Qt.{Qt}
use push_streamer_client.Device.{Callback, press, release, button_down}
use push_streamer_client.Consumer.{Consumer, Products, normal_key_action, mouse_action}
use push_streamer_client.Keymap.Direction.{Floats}
use push_streamer_client.Keymap.Cache.{
  products, queue_of, queue, add_all-only, add_all-some, no_tables-consumer,
  get_map_key_value-consumer, get_frame, get_map_key_value_twice, add_all-queue, add_one-queue,
  add_one-only,
}
use push_streamer_client.Keymap.{
  Keymap, no_tables, lookup_key, get_map_key_value, add_key_value_to_thread, key_list,
}
use push_streamer_client.Keymap.Keys.{
  nonzero, queue_keys, key_down_c, key_up_c, mouse_up_c, mouse_down_c,
}

module _ (qt : Qt) (fl : Floats) where
  -- The keys of a button: the parts of its value that are not 0.
  abbrev pub keys_of : Keymap qt fl → ℤ → List ℤ
  keys_of s key = nonzero (key_list qt fl (get_map_key_value qt fl s (qt.number key)).0)

  queue_keys-queue :
      (s : Keymap qt fl) (c : Consumer) (key : ℤ) (f : ℤ → Callback)
      → s.consumer ≡ some c
      → no_tables qt fl s ≡ false
      → queue qt fl (queue_keys qt fl s key f).0
        ≡ queue qt fl s ++ products normal_key_action f (keys_of s key)
  unfolding queue_keys
  queue_keys-queue s c key f e t =
      let k = qt.number key in
      let s1 = (get_map_key_value qt fl s k).1 in
      rw t (
        add_all-queue qt fl (keys_of s key) s1 c normal_key_action f ((get_frame qt fl s k).0 ∙ e)
        ∙ ap (λ o. queue_of o ++ products normal_key_action f (keys_of s key))
            (get_frame qt fl s k).0)

  queue_keys-state :
      (s : Keymap qt fl) (key : ℤ) (f : ℤ → Callback)
      → no_tables qt fl s ≡ false
      → (queue_keys qt fl s key f).0 ≡ record (get_map_key_value qt fl s (qt.number key)).1 {
        consumer = (queue_keys qt fl s key f).0.consumer;
      }
  unfolding queue_keys
  queue_keys-state s key f t = rw t (
      add_all-only qt fl (keys_of s key) (get_map_key_value qt fl s (qt.number key)).1
        normal_key_action f)

  -- A button has the same keys after it was pressed or released.
  keys_of-queue_keys :
      (s : Keymap qt fl) (key : ℤ) (f : ℤ → Callback)
      → no_tables qt fl s ≡ false
      → qt.to_local (lookup_key qt fl s (qt.number key)) ≡ lookup_key qt fl s (qt.number key)
      → keys_of (queue_keys qt fl s key f).0 key ≡ keys_of s key
  keys_of-queue_keys s key f t h =
      let k = qt.number key in
      let s1 = (get_map_key_value qt fl s k).1 in
      let o = (queue_keys qt fl s key f).0.consumer in
      ap (λ v. nonzero (key_list qt fl v))
        (ap (λ r. (get_map_key_value qt fl r k).0) (queue_keys-state s key f t)
          ∙ get_map_key_value-consumer qt fl s1 k o
          ∙ ap (λ p. p.0) (get_map_key_value_twice qt fl s k h))

  queue_keys-tables :
      (s : Keymap qt fl) (key : ℤ) (f : ℤ → Callback)
      → no_tables qt fl s ≡ false
      → no_tables qt fl (queue_keys qt fl s key f).0 ≡ false
  queue_keys-tables s key f t =
      ap (no_tables qt fl) (queue_keys-state s key f t)
      ∙ no_tables-consumer qt fl _ (queue_keys qt fl s key f).0.consumer
      ∙ (get_frame qt fl s (qt.number key)).1
      ∙ t

  queue_keys-some :
      (s : Keymap qt fl) (c : Consumer) (key : ℤ) (f : ℤ → Callback)
      → s.consumer ≡ some c
      → no_tables qt fl s ≡ false
      → (d : Consumer) × ((queue_keys qt fl s key f).0.consumer ≡ some d)
  unfolding queue_keys
  queue_keys-some s c key f e t = rw t (
      add_all-some qt fl (keys_of s key) _ c normal_key_action f
        ((get_frame qt fl s (qt.number key)).0 ∙ e))

  -- A press and a release of one button queue the same keys: first a press of each key of its value
  -- in order, then a release of each in order. There are files and a consumer, and the value
  -- survives the local encoding.
  pub key_down_up :
      (s : Keymap qt fl) (c : Consumer) (key : ℤ)
      → s.consumer ≡ some c
      → no_tables qt fl s ≡ false
      → qt.to_local (lookup_key qt fl s (qt.number key)) ≡ lookup_key qt fl s (qt.number key)
      → queue qt fl (key_up_c qt fl (key_down_c qt fl s key).0 key).0
        ≡ queue qt fl s
          ++ (products normal_key_action press (keys_of s key)
              ++ products normal_key_action release (keys_of s key))
  unfolding key_down_c key_up_c
  key_down_up s c key e t h =
      let (d, e') = queue_keys-some s c key press e t in
      let t' = queue_keys-tables s key press t in
      queue_keys-queue (queue_keys qt fl s key press).0 d key release e' t'
      ∙ ap₂ (λ q ks. q ++ products normal_key_action release ks)
          (queue_keys-queue s c key press e t) (keys_of-queue_keys s key press t h)
      ∙ append_assoc (queue qt fl s) (products normal_key_action press (keys_of s key))
          (products normal_key_action release (keys_of s key))

  -- With files and a consumer, `MouseDown_C` queues its press, and a `MouseUp_C` after it returns 0
  -- and queues nothing.
  pub mouse_up_lost :
      (s : Keymap qt fl) (c : Consumer) (x y b : ℤ)
      → s.consumer ≡ some c
      → no_tables qt fl s ≡ false
      → let s' = (mouse_down_c qt fl s x y b).0 in
        (queue qt fl (mouse_up_c qt fl s' x y b).0
          ≡ queue qt fl s ++ record { type = mouse_action; callback = button_down x y b } ∷ [])
        × ((mouse_up_c qt fl s' x y b).1 ≡ pos 0)
  unfolding mouse_down_c mouse_up_c
  mouse_up_lost s c x y b e t =
      let p : Products = record { type = mouse_action; callback = button_down x y b } in
      let t' =
        ap (no_tables qt fl) (add_one-only qt fl s s.consumer p refl)
        ∙ no_tables-consumer qt fl s (add_key_value_to_thread qt fl s p).consumer
        ∙ t in
      rw t (rw t' (add_one-queue qt fl s c p e, refl))
