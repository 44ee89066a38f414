-- ===== src/Hid/Refinement.antt =====
-- The slots of cloudGame/include/libGetrtpcmd_copy.cpp seen as a set of held keys. 0 marks a free
-- slot and is no key of this view.
use push_streamer_client.Prelude.{
  Bool, ◌≡◌, refl, ◌≢◌, false, not, ◌&&◌, ◌||◌, List, [], ◌∷◌, arith,
}
use push_streamer_client.Prelude.Int.{ℤ, pos, eq_ℤ, eq_ℤ_iff, eq_ℤ_refl}
use push_streamer_client.Hid.Tables.{has}
use push_streamer_client.Hid.Slots.{held, fill_first, clear, held-fill_first, held-clear}
use push_streamer_client.Hid.Invariant.{
  IsValid, press_modifier_slots, pressed, pressed-IsValid, press_modifier-IsValid, key_down_state,
  key_up_state,
}
use push_streamer_client.Hid.{Keyboard, press, key_down, key_up}

-- Whether the keyboard holds a key.
abbrev pub holds : Keyboard → ℤ → Bool
holds s j = held j s.key_code_list

held-press :
    (j k : ℤ) (xs : List ℤ)
    → j ≢ pos 0
    → held j (press k xs) ≡ (held j xs || (eq_ℤ k j && held (pos 0) xs))
unfolding press
held-press j k xs h = ground (arith, held-fill_first j k xs, eq_ℤ_iff k j)

key_down_slots :
    (s : Keyboard) (k : ℤ)
    → IsValid s
    → (key_down s k).0.key_code_list ≡ (pressed s k).key_code_list
key_down_slots s k v = rw (key_down_state s k v) (press_modifier_slots (pressed s k) k)

-- In a valid state, of all keys but 0: after `KeyDown` a key is held if it was held before, or if
-- it is the key pressed, has a usage code, and a slot was free; and no other key is.
pub key_down-holds :
    (s : Keyboard) (j k : ℤ)
    → IsValid s
    → j ≢ pos 0
    → holds (key_down s k).0 j ≡ (holds s j || (eq_ℤ k j && (has k s.key_code && holds s (pos 0))))
key_down-holds s j k v h =
    rw (key_down_slots s k v) (ground (arith, held-press j k s.key_code_list))

-- In a valid state, of all keys but 0: after `KeyUp` a key is held if it was held before and is not
-- the key released; and no other key is.
pub key_up-holds :
    (s : Keyboard) (j k : ℤ)
    → IsValid s
    → j ≢ pos 0
    → holds (key_up s k).0 j ≡ (holds s j && not (eq_ℤ k j))
key_up-holds s j k v h = rw (key_up_state s k v) (held-clear j k s.key_code_list h)

clear-absent : (k : ℤ) (xs : List ℤ) → held k xs ≡ false → clear k xs ≡ xs
unfolding held clear
clear-absent k [] h = refl
clear-absent k (x ∷ xs) h = ground (arith, clear-absent k xs)

clear-fill_first :
    (k : ℤ) (xs : List ℤ) → held k xs ≡ false → k ≢ pos 0 → clear k (fill_first k xs) ≡ xs
unfolding held clear fill_first
clear-fill_first k [] h n = refl
clear-fill_first k (x ∷ xs) h n =
    ground (arith, clear-fill_first k xs, clear-absent k xs, eq_ℤ_iff x (pos 0), eq_ℤ_refl k)

clear-press : (k : ℤ) (xs : List ℤ) → held k xs ≡ false → k ≢ pos 0 → clear k (press k xs) ≡ xs
unfolding press
clear-press k xs h n = ground (arith, clear-fill_first k xs)

-- In a valid state, `KeyUp` undoes `KeyDown` of a key other than 0 that was not held: every slot
-- holds again what it held.
pub key_up-key_down :
    (s : Keyboard) (k : ℤ)
    → IsValid s
    → holds s k ≡ false
    → k ≢ pos 0
    → (key_up (key_down s k).0 k).0.key_code_list ≡ s.key_code_list
key_up-key_down s k v h n =
    rw
      (
        key_down_state s k v,
        key_up_state _ k (press_modifier-IsValid _ k (pressed-IsValid s k v)),
        press_modifier_slots (pressed s k) k,
      )
      (ground (arith, clear-press k s.key_code_list, clear-absent k s.key_code_list))
