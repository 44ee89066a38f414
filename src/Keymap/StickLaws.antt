-- ===== src/Keymap/StickLaws.antt =====
-- The theorems of the stick of keyvaluetransformt.cpp.
use push_streamer_client.Prelude.{
  ◌≡◌, refl, ◌∙◌, sym, ap, true, false, not, ◌&&◌, [], if◌then◌else◌, Option-cases, inl, inr,
}
use push_streamer_client.Qt.{Qt}
use push_streamer_client.Device.{direct_up}
use push_streamer_client.Consumer.{handle_shake_direct_key}
use push_streamer_client.Keymap.Direction.{Floats, DirectionKey, is_zero}
use push_streamer_client.Keymap.Cache.{queue_of, queue, add_all-none, get_ex_frame}
use push_streamer_client.Keymap.{Keymap, no_tables, get_map_key_value_ex, add_all, is_null}
use push_streamer_client.Keymap.Stick.{reverse_bounce, convert_xy_direction, direction_all_up}

module _ (qt : Qt) (fl : Floats) where
  -- With files, and where 0 equals itself: a stick that comes back to the centre queues nothing, and
  -- makes the next `ReverseBounce` do nothing too, so the keys that the stick pressed stay pressed.
  pub centre_forgets :
      (junk : DirectionKey) (s : Keymap qt fl) (x y x' y' : fl.F)
      → no_tables qt fl s ≡ false
      → is_zero fl x && is_zero fl y ≡ true
      → is_zero fl fl.zero ≡ true
      → let s' = (convert_xy_direction qt fl junk s x y).0 in
        (queue qt fl s' ≡ queue qt fl s) × (reverse_bounce qt fl s' x' y' ≡ s')
  unfolding convert_xy_direction reverse_bounce
  centre_forgets junk s x y x' y' t z zz = rw (t, z) (refl, rw zz)

  -- `DirectionAllUp` leaves the queue as it is, whether or not there is a consumer.
  pub direction_all_up_idle :
      (s : Keymap qt fl) → queue qt fl (direction_all_up qt fl s) ≡ queue qt fl s
  unfolding direction_all_up
  direction_all_up_idle s =
      let (s', _, ks) = get_map_key_value_ex qt fl s s.last_direct [] in
      let f = add_all qt fl s' handle_shake_direct_key direct_up ks in
      elim (Option-cases s.consumer) [
        | inl e ↦
            let e' =
              add_all-none qt fl ks s' handle_shake_direct_key direct_up
                (get_ex_frame qt fl s s.last_direct [] ∙ e) in
            ap (λ o. queue qt fl (if not (is_null o) then s else f)) e ∙ ap queue_of (e' ∙ sym e)
        | inr (c, e) ↦ ap (λ o. queue qt fl (if not (is_null o) then s else f)) e
      ]
