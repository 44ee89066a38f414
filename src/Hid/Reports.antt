-- ===== src/Hid/Reports.antt =====
-- What the reports of cloudGame/include/libGetrtpcmd_copy.cpp say of the state of the keyboard.
use push_streamer_client.Prelude.{
  ◌==◌, ℕ, ◌≡◌, refl, ◌∙◌, ◌<◌, inl, inr, true, false, List, [], ◌∷◌, map, arith, Bool-cases, All,
}
use push_streamer_client.Prelude.Int.{ℤ, pos, eq_ℤ}
use push_streamer_client.Hid.Tables.{has, index}
use push_streamer_client.Hid.Invariant.{
  IsValid, press_modifier_slots, press_key_state, pressed, released, pressed-IsValid,
  press_modifier-IsValid, released-IsValid, index_all-known, key_down_state, key_up_state,
  read_modifier_state,
}
use push_streamer_client.Hid.{
  Keyboard, KeyReport, key_code_get, key_report, index_all, press, press_key, press_modifier,
  read_modifier, key_down, key_up, button_bits, mouse_move, mouse_up, mouse_down,
}

-- The modifier byte that `ModifiersKeyCodes` has for the modifier held.
abbrev pub modifier_byte : Keyboard → ℕ
modifier_byte s = (index s.mod_key_code_list s.modifiers_key_codes).0

-- The report that shows the whole state.
abbrev pub full_report : Keyboard → KeyReport
full_report s = key_report (modifier_byte s) (map (key_code_get s) s.key_code_list)

index-key_code_get :
    (s : Keyboard) (k : ℤ) → has k s.key_code ≡ true → (index k s.key_code).0 ≡ key_code_get s k
unfolding index has key_code_get
index-key_code_get s k h = ground arith

map-key_code_get :
    (s : Keyboard) (ks : List ℤ)
    → All (λ k. has k s.key_code ≡ true) ks
    → map (λ k. (index k s.key_code).0) ks ≡ map (key_code_get s) ks
map-key_code_get s [] a = refl
map-key_code_get s (k ∷ ks) a = rw (index-key_code_get s k a.0, map-key_code_get s ks a.1)

slot_codes :
    (s : Keyboard)
    → IsValid s
    → (index_all s.key_code_list s.key_code).0 ≡ map (key_code_get s) s.key_code_list
slot_codes s v =
    rw (index_all-known s.key_code_list s.key_code v.known)
      (map-key_code_get s s.key_code_list v.known)

read_modifier_byte : (s : Keyboard) → (read_modifier s).0 ≡ modifier_byte s
unfolding read_modifier
read_modifier_byte s = refl

key_up_sends :
    (s : Keyboard) (k : ℤ)
    → (key_up s k).1
      ≡ key_report
          (read_modifier (released s k)).0
          (index_all (released s k).key_code_list (read_modifier (released s k)).1.key_code).0
unfolding key_up
key_up_sends s k = refl

report_valid :
    (s : Keyboard)
    → IsValid s
    → key_report (read_modifier s).0 (index_all s.key_code_list (read_modifier s).1.key_code).0
      ≡ full_report s
report_valid s v = rw (read_modifier_state s v, read_modifier_byte s, slot_codes s v)

-- In a valid state, the report that `KeyUp` sends shows the whole state after it: the code of each
-- slot in order, and the byte of the modifier.
pub key_up_report : (s : Keyboard) (k : ℤ) → IsValid s → (key_up s k).1 ≡ full_report (key_up s k).0
key_up_report s k v =
    rw (key_up_state s k v)
      (key_up_sends s k ∙ report_valid (released s k) (released-IsValid s k v))

key_down_sends :
    (s : Keyboard) (k : ℤ)
    → (key_down s k).1
      ≡ key_report (read_modifier (press_modifier (press_key s k).0 k)).0 (press_key s k).1
unfolding key_down
key_down_sends s k = refl

press_key_codes :
    (s : Keyboard) (k : ℤ)
    → IsValid s
    → has k s.key_code ≡ true
    → (press_key s k).1 ≡ (index_all (press k s.key_code_list) s.key_code).0
unfolding press_key
press_key_codes s k v h = rw h

press_key_no_codes : (s : Keyboard) (k : ℤ) → has k s.key_code ≡ false → press_key s k ≡ (s, [])
unfolding press_key
press_key_no_codes s k h = rw h

pressed-known :
    (s : Keyboard) (k : ℤ)
    → has k s.key_code ≡ true
    → pressed s k ≡ record s { key_code_list = press k s.key_code_list }
pressed-known s k h = rw h

-- The byte of the modifier that a state is left with by `press_modifier`, and the slot codes.
abbrev after_down : Keyboard → ℤ → Keyboard
after_down s k = press_modifier (pressed s k) k

after_down-IsValid : (s : Keyboard) (k : ℤ) → IsValid s → IsValid (after_down s k)
after_down-IsValid s k v = press_modifier-IsValid _ k (pressed-IsValid s k v)

after_down_slots :
    (s : Keyboard) (k : ℤ)
    → IsValid s
    → has k s.key_code ≡ true
    → index_all (press k s.key_code_list) s.key_code
      ≡ index_all (after_down s k).key_code_list (after_down s k).key_code
unfolding press_modifier
after_down_slots s k v h = elim (Bool-cases (has k s.modifiers_key_codes)) [
  | inl e ↦ rw (h, e)
  | inr e ↦ rw (h, e)
]

-- In a valid state, the report that `KeyDown` sends for a key with a usage code shows the whole state
-- after it.
pub key_down_report :
    (s : Keyboard) (k : ℤ)
    → IsValid s
    → has k s.key_code ≡ true
    → (key_down s k).1 ≡ full_report (key_down s k).0
key_down_report s k v h = rw (key_down_state s k v) (
    key_down_sends s k
    ∙ rw
        (
          press_key_state s k v,
          press_key_codes s k v h,
          after_down_slots s k v h,
          read_modifier_byte (after_down s k),
          slot_codes _ (after_down-IsValid s k v),
        )
        refl)

-- In a valid state, `KeyDown` of a key with no usage code, such as a modifier, leaves the slots
-- alone, and its report shows none of the keys that they hold.
pub key_down_hides :
    (s : Keyboard) (k : ℤ)
    → IsValid s
    → has k s.key_code ≡ false
    → ((key_down s k).0.key_code_list ≡ s.key_code_list)
      × ((key_down s k).1 ≡ key_report (modifier_byte (key_down s k).0) [])
key_down_hides s k v h = (
  rw (key_down_state s k v, h) (press_modifier_slots s k),
  rw (key_down_state s k v)
      (key_down_sends s k ∙ rw (press_key_no_codes s k h, h, read_modifier_byte _) refl),
)

-- For coordinates below 65536 the three mouse functions send one and the same report, with the
-- coordinates as they are: a press, a release and a move with the same arguments cannot be told
-- apart. The button bits of two codes below 4 are equal just if the codes are.
pub mouse_reports :
    (x y c d : ℕ)
    → x < 65536
    → y < 65536
    → c < 4
    → d < 4
    → (mouse_down (pos x) (pos y) (pos c) ≡ mouse_move (pos x) (pos y) (pos c))
      × (mouse_up (pos x) (pos y) (pos c) ≡ mouse_move (pos x) (pos y) (pos c))
      × ((mouse_move (pos x) (pos y) (pos c)).x ≡ x)
      × ((mouse_move (pos x) (pos y) (pos c)).y ≡ y)
      × ((button_bits (pos c) == button_bits (pos d)) ≡ (c == d))
unfolding mouse_move mouse_up mouse_down eq_ℤ
mouse_reports x y c d hx hy hc hd = (refl, refl, omega arith, omega arith, ground arith)
