-- ===== src/Hid/Invariant.antt =====
-- What holds of the globals of cloudGame/include/libGetrtpcmd_copy.cpp between two calls.
use push_streamer_client.Prelude.{
  ◌≡◌, refl, ◌∙◌, inl, inr, true, List, [], ◌∷◌, map, arith, length, All, Bool-cases, if◌then◌else◌,
}
use push_streamer_client.Prelude.Int.{ℤ, pos, eq_ℤ}
use push_streamer_client.Hid.Tables.{Table, find, has, index, index-has}
use push_streamer_client.Hid.Slots.{
  held, clear, Distinct, length-fill_first, length-clear, fill_first-Distinct, clear-Distinct,
  All-fill_first, All-clear,
}
use push_streamer_client.Hid.{
  Keyboard, KeyEvent, down, up, key_code_init, index_all, press, press_key, press_modifier,
  read_modifier, key_down, key_up, step, run,
}

-- There are five slots, no key is in two of them, and every key in a slot and the modifier have an
-- entry in their table, as has 0.
pub record IsValid (s : Keyboard) : Type 0 where
  pub five : length s.key_code_list ≡ 5
  pub distinct : Distinct s.key_code_list
  pub known : All (λ k. has k s.key_code ≡ true) s.key_code_list
  pub zero_known : has (pos 0) s.key_code ≡ true
  pub mod_known : has s.mod_key_code_list s.modifiers_key_codes ≡ true
  pub mod_zero_known : has (pos 0) s.modifiers_key_codes ≡ true

pub index_all-known :
    (ks : List ℤ) (t : Table)
    → All (λ k. has k t ≡ true) ks
    → index_all ks t ≡ (map (λ k. (index k t).0) ks, t)
unfolding index_all
index_all-known [] t a = refl
index_all-known (k ∷ ks) t a = rw (index-has k t a.0, index_all-known ks t a.1)

press-Distinct : (k : ℤ) (xs : List ℤ) → Distinct xs → Distinct (press k xs)
unfolding press
press-Distinct k xs d = ground (arith, fill_first-Distinct k xs)

press-All {ℓ} : (P : ℤ → Type ℓ) (k : ℤ) (xs : List ℤ) → P k → All P xs → All P (press k xs)
unfolding press
press-All P k xs p a = elim (Bool-cases (held k xs)) [
  | inl e ↦ rw e a
  | inr e ↦ rw e (All-fill_first P k xs p a)
]

length-press : (k : ℤ) (xs : List ℤ) → length (press k xs) ≡ length xs
unfolding press
length-press k xs = ground (arith, length-fill_first k xs)

-- What `press_key` does to the state, given that the slots are known.
abbrev pub pressed : Keyboard → ℤ → Keyboard
pressed s k = if has k s.key_code then record s { key_code_list = press k s.key_code_list } else s

pub press_key_state : (s : Keyboard) (k : ℤ) → IsValid s → (press_key s k).0 ≡ pressed s k
unfolding press_key
press_key_state s k v = elim (Bool-cases (has k s.key_code)) [
  | inl e ↦ rw (
    e,
    index_all-known (press k s.key_code_list) s.key_code
        (press-All (λ j. has j s.key_code ≡ true) k s.key_code_list e v.known),
  )
  | inr e ↦ rw e
]

pub pressed-IsValid : (s : Keyboard) (k : ℤ) → IsValid s → IsValid (pressed s k)
pressed-IsValid s k v = elim (Bool-cases (has k s.key_code)) [
  | inl e ↦ rw e (record {
    five = length-press k s.key_code_list ∙ v.five;
    distinct = press-Distinct k s.key_code_list v.distinct;
    known = press-All (λ j. has j s.key_code ≡ true) k s.key_code_list e v.known;
    zero_known = v.zero_known;
    mod_known = v.mod_known;
    mod_zero_known = v.mod_zero_known;
  })
  | inr e ↦ rw e v
]

pub press_modifier-IsValid : (s : Keyboard) (k : ℤ) → IsValid s → IsValid (press_modifier s k)
unfolding press_modifier
press_modifier-IsValid s k v = elim (Bool-cases (has k s.modifiers_key_codes)) [
  | inl e ↦ rw e (record {
    five = v.five;
    distinct = v.distinct;
    known = v.known;
    zero_known = v.zero_known;
    mod_known = e;
    mod_zero_known = v.mod_zero_known;
  })
  | inr e ↦ rw e v
]

pub read_modifier_state : (s : Keyboard) → IsValid s → (read_modifier s).1 ≡ s
unfolding read_modifier
read_modifier_state s v =
    ground (arith, index-has s.mod_key_code_list s.modifiers_key_codes v.mod_known)

pub press_modifier_slots :
    (s : Keyboard) (k : ℤ) → (press_modifier s k).key_code_list ≡ s.key_code_list
unfolding press_modifier
press_modifier_slots s k = ground arith

-- `KeyDown` in a valid state: the tables stay as they are.
pub key_down_state :
    (s : Keyboard) (k : ℤ) → IsValid s → (key_down s k).0 ≡ press_modifier (pressed s k) k
unfolding key_down
key_down_state s k v =
    rw (press_key_state s k v)
      (read_modifier_state _ (press_modifier-IsValid _ k (pressed-IsValid s k v)))

-- What `KeyUp` does to the state, given that the slots are known.
abbrev pub released : Keyboard → ℤ → Keyboard
released s k = record s {
  key_code_list = clear k s.key_code_list;
  mod_key_code_list = if eq_ℤ s.mod_key_code_list k then pos 0 else s.mod_key_code_list;
}

pub released-IsValid : (s : Keyboard) (k : ℤ) → IsValid s → IsValid (released s k)
released-IsValid s k v = record {
  five = length-clear k s.key_code_list ∙ v.five;
  distinct = clear-Distinct k s.key_code_list v.distinct;
  known = All-clear (λ j. has j s.key_code ≡ true) k s.key_code_list v.zero_known v.known;
  zero_known = v.zero_known;
  mod_known = ground (arith, v.mod_known, v.mod_zero_known);
  mod_zero_known = v.mod_zero_known;
}

-- `KeyUp` in a valid state: the tables stay as they are.
pub key_up_state : (s : Keyboard) (k : ℤ) → IsValid s → (key_up s k).0 ≡ released s k
unfolding key_up
key_up_state s k v = rw (
  read_modifier_state (released s k) (released-IsValid s k v),
  index_all-known (clear k s.key_code_list) s.key_code (released-IsValid s k v).known,
)

pub key_code_init-IsValid : IsValid key_code_init
unfolding key_code_init has find eq_ℤ
key_code_init-IsValid = record {
  five = refl;
  distinct = (inl refl, (inl refl, (inl refl, (inl refl, (inl refl, tt)))));
  known = (refl, (refl, (refl, (refl, (refl, tt)))));
  zero_known = refl;
  mod_known = refl;
  mod_zero_known = refl;
}

pub step-IsValid : (s : Keyboard) (e : KeyEvent) → IsValid s → IsValid (step s e).0
unfolding step
step-IsValid s (down k) v =
    rw (key_down_state s k v) (press_modifier-IsValid _ k (pressed-IsValid s k v))
step-IsValid s (up k) v = rw (key_up_state s k v) (released-IsValid s k v)

run_from-IsValid : (s : Keyboard) (es : List KeyEvent) → IsValid s → IsValid (run s es)
unfolding run
run_from-IsValid s [] v = v
run_from-IsValid s (e ∷ es) v = run_from-IsValid (step s e).0 es (step-IsValid s e v)

-- Every history of key events from the start keeps the keyboard valid: five slots, no key in two of
-- them, and every code that a report looks up is in its table.
pub run-IsValid : (es : List KeyEvent) → IsValid (run key_code_init es)
run-IsValid es = run_from-IsValid key_code_init es key_code_init-IsValid
