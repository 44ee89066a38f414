-- ===== src/Buttons/Laws.antt =====
-- The theorems of `replaceAllDistinct` and `ConvertTheSpecialString` of cloudstreamer.cpp, and of the
-- two calls that `DealTheJoystick` makes of the latter.
use Prim.Native.Nat.{zero, suc}
use text.Mathlib.TextLemmas.{nil-append as nil-append_str}
use push_streamer_client.Prelude.{
  ℕ, ◌-◌, ◌/◌, ◌%◌, ◌<◌, ◌≤◌, ◌≡◌, refl, ◌∙◌, sym, ap, subst, Bool, true, false, ◌||◌, some, none,
  List, [], ◌∷◌, map, arith, String, ltb, if◌then◌else◌, length, get_or,
}
use push_streamer_client.Prelude.Int.{ℤ, pos}
use push_streamer_client.Qt.{Qt}
use push_streamer_client.Text.{is_delim}
use push_streamer_client.Text.Laws.{strip, cons_append}
use push_streamer_client.Buttons.{
  bit_set, bit_of, byte_index, byte_position, change_at, set_button, set_buttons, clear_first,
  starts_with, chars, replace_from, replace_all_distinct, values_of, convert_the_special_string,
  joystick_buttons,
}
use push_streamer_client.Buttons.Bits.{bit_of-zero}
use push_streamer_client.Buttons.Pressed.{
  IsButton, is_pressed, AllBytes, AllButtons, listed, set_buttons-pressed,
}

replace_from-strip : (s : String) → replace_from 0 " " "" s ≡ strip " " s
unfolding replace_from strip starts_with chars is_delim
replace_from-strip String.[] = refl
replace_from-strip (String.◌∷◌ c s) =
    ground (arith, replace_from-strip s, nil-append_str (strip " " s), cons_append c (strip " " s))

get_or-clear :
    (n b : ℕ) (bs : List ℕ)
    → ((i : ℕ) → get_or (clear_first n bs) i 0 ≡ (if ltb i n then 0 else get_or bs i 0))
    → (i : ℕ)
    → get_or (0 ∷ clear_first n bs) i 0 ≡ (if ltb i (suc n) then 0 else get_or (b ∷ bs) i 0)
get_or-clear n b bs g zero = ground arith
get_or-clear n b bs g (suc i) = ground (arith, g i)

clear_first-lem :
    (n : ℕ) (bs : List ℕ)
    → AllBytes bs
    → (length (clear_first n bs) ≡ length bs)
      × AllBytes (clear_first n bs)
      × ((i : ℕ) → get_or (clear_first n bs) i 0 ≡ (if ltb i n then 0 else get_or bs i 0))
unfolding clear_first
clear_first-lem zero bs a = (refl, a, λ i. ground arith)
clear_first-lem (suc n) [] a = (refl, tt, λ i. ground arith)
clear_first-lem (suc n) (b ∷ bs) a =
    let (l, bytes, g) = clear_first-lem n bs a.1 in
    (ap suc l, (omega arith, bytes), get_or-clear n b bs g)

clear_first-pressed :
    (n : ℕ) (bs : List ℕ) (k : ℕ)
    → AllBytes bs
    → is_pressed (clear_first n bs) k ≡ (if ltb (k / 8) n then false else is_pressed bs k)
unfolding is_pressed
clear_first-pressed n bs k a =
    let (l, bytes, g) = clear_first-lem n bs a in
    ap (λ b. bit_of b (k % 8 - 1)) (g (k / 8))
    ∙ ground (arith, bit_of-zero (k % 8 - 1) (omega arith))

-- `ConvertTheSpecialString` on the 16 bytes
convert-pressed :
    (qt : Qt) (odd : ℕ → ℕ) (text : String) (js : List ℕ) (bs : List ℕ) (n : ℕ)
    → values_of qt text ≡ some (map pos js)
    → AllBytes bs
    → AllButtons (length bs) js
    → (r : List ℕ) × (convert_the_special_string qt odd text bs n ≡ some r)
      × (length r ≡ length bs)
      × AllBytes r
      × ((k : ℕ)
          → 1 ≤ k % 8
          → is_pressed r k ≡ ((if ltb (k / 8) n then false else is_pressed bs k) || listed n k js))
unfolding convert_the_special_string
convert-pressed qt odd text js bs n v a h =
    let (l, bytes, g) = clear_first-lem n bs a in
    let (r, e, l2, a2, p) =
      set_buttons-pressed odd n (clear_first n bs) js bytes
        (subst (λ x. AllButtons x js) (sym l) h) in
    (
      r,
      rw (convert_the_special_string, v) e,
      l2 ∙ l,
      a2,
      λ k hk. p k hk ∙ ap (λ b. b || listed n k js) (clear_first-pressed n bs k a),
    )

listed-zero : (k : ℕ) (js : List ℕ) → listed 0 k js ≡ false
unfolding listed
listed-zero k [] = refl
listed-zero k (j ∷ js) = refl

listed-more : (k : ℕ) (js : List ℕ) → listed 1 k js ≡ true → listed 16 k js ≡ true
unfolding listed
listed-more k [] h = h
listed-more k (j ∷ js) h = ground (arith, listed-zero k js)

last_call :
    (k : ℕ) (js : List ℕ) (p : Bool)
    → k / 8 < 16
    → ((if ltb (k / 8) 1 then false else ((if ltb (k / 8) 16 then false else p) || listed 16 k js))
        || listed 1 k js)
      ≡ (if ltb k 8 then listed 1 k js else listed 16 k js)
last_call k js p h = ground (arith, listed-more k js)

-- What the joystick gets of the buttons, for a text that lists the numbers of buttons below 128
-- which are no multiples of 8, and whatever is in the 16 bytes before: a button from 8 on is
-- pressed if it is one of the first 16 that are listed, and a button below 8 only if it is
-- the first.
pub joystick_buttons-pressed :
    (qt : Qt) (odd : ℕ → ℕ) (text : String) (js fresh : List ℕ) (k : ℕ)
    → values_of qt text ≡ some (map pos js)
    → AllBytes fresh
    → length fresh ≡ 16
    → AllButtons 16 js
    → IsButton 16 k
    → (r : List ℕ) × (joystick_buttons qt odd text fresh ≡ some r)
      × (is_pressed r k ≡ (if ltb k 8 then listed 1 k js else listed 16 k js))
unfolding joystick_buttons
joystick_buttons-pressed qt odd text js fresh k v a l h hk =
    let (r1, e1, l1, a1, p1) =
      convert-pressed qt odd text js fresh 16 v a (subst (λ x. AllButtons x js) (sym l) h) in
    let (r, e, l2, a2, p) =
      convert-pressed qt odd text js r1 1 v a1 (subst (λ x. AllButtons x js) (sym (l1 ∙ l)) h) in
    (
      r,
      rw (joystick_buttons, e1) e,
      p k hk.0
          ∙ ap (λ b. (if ltb (k / 8) 1 then false else b) || listed 1 k js) (p1 k hk.0)
          ∙ last_call k js (is_pressed fresh k) hk.1,
    )

-- `replaceAllDistinct` of a blank by nothing ends, with the text without its blanks.
pub replace_all_distinct_lem : (s : String) → replace_all_distinct s " " "" ≡ some (strip " " s)
unfolding replace_all_distinct
replace_all_distinct_lem s = ap some (replace_from-strip s)

change_at-outside : (bs : List ℕ) (i : ℕ) (f : ℕ → ℕ) → length bs ≤ i → change_at bs i f ≡ none
unfolding change_at
change_at-outside [] i f h = refl
change_at-outside (b ∷ bs) zero f h = absurd (omega arith)
change_at-outside (b ∷ bs) (suc i) f h = rw (change_at-outside bs i f (omega arith)) refl

clear_first-length : (n : ℕ) (bs : List ℕ) → length (clear_first n bs) ≡ length bs
unfolding clear_first
clear_first-length zero bs = refl
clear_first-length (suc n) [] = refl
clear_first-length (suc n) (b ∷ bs) = ap suc (clear_first-length n bs)

-- A text whose first number is 128 or more makes the code write outside of the 16 bytes.
pub joystick_buttons-outside :
    (qt : Qt) (odd : ℕ → ℕ) (text : String) (k : ℕ) (ks : List ℤ) (fresh : List ℕ)
    → values_of qt text ≡ some (pos k ∷ ks)
    → length fresh ≡ 16
    → 128 ≤ k
    → joystick_buttons qt odd text fresh ≡ none
unfolding joystick_buttons convert_the_special_string set_buttons set_button byte_index
joystick_buttons-outside qt odd text k ks fresh v l h =
    rw
      (
        joystick_buttons,
        convert_the_special_string,
        v,
        set_buttons,
        set_button,
        byte_index,
        change_at-outside (clear_first 16 fresh) (k / 8)
            (λ b. bit_set odd b (byte_position (pos k)) true)
            (omega (arith, clear_first-length 16 fresh)),
      )
      refl
