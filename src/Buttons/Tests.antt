-- ===== src/Buttons/Tests.antt =====
-- The buttons of the joystick at concrete inputs.
use push_streamer_client.Prelude.{
  ℕ, ◌≡◌, refl, ◌%◌, ◌+◌, ◌≤◌, ◌<◌, ◌*◌, ◌^◌, some, none, List, [], ◌∷◌, replicate, ltb,
  if◌then◌else◌, arith,
}
use push_streamer_client.Prelude.Int.{pos, negsuc, wrap_to}
use push_streamer_client.Qt.{Qt}
use push_streamer_client.Qt.Example.{example_qt, split, to_int}
use push_streamer_client.Buttons.{
  shifted, bit_set, bit_of, bits, tail, set_bits, byte_index, byte_position, change_at, set_button,
  set_buttons, clear_first, starts_with, chars, replace_from, replace_all_distinct, values_of,
  convert_the_special_string, convert_the_special_string_ex, joystick_buttons, power_loop, power2,
}
use push_streamer_client.Buttons.Hat.{convert_the_special_string_ex_lem, power2_lem}
use push_streamer_client.Buttons.Pressed.{is_pressed, listed}
use push_streamer_client.Buttons.Laws.{joystick_buttons-pressed, joystick_buttons-outside}

abbrev qt : Qt
qt = example_qt []

-- An x86 machine takes the count of a shift modulo 32.
abbrev x86 : ℕ → ℕ
x86 p = 2 ^ ((p + 31) % 32)

-- The buttons 1, 2 and 12: the button 2 is not sent.
buttons_run : joystick_buttons qt x86 "1, 2, 12" (replicate 16 7) ≡ some (1 ∷ 8 ∷ replicate 14 0)
unfolding joystick_buttons convert_the_special_string values_of replace_all_distinct replace_from
    starts_with chars set_buttons set_button clear_first byte_index byte_position change_at bit_set
    shifted split to_int
buttons_run = refl

-- No button: the empty text is read as the number 0.
no_button : joystick_buttons qt x86 "" (replicate 16 7) ≡ some (replicate 16 0)
unfolding joystick_buttons convert_the_special_string values_of replace_all_distinct replace_from
    starts_with chars set_buttons set_button clear_first byte_index byte_position change_at bit_set
    shifted split to_int
no_button = refl

hat_run : convert_the_special_string_ex x86 (pos 300) 255 ≡ 44
unfolding convert_the_special_string_ex set_bits bits tail bit_set shifted bit_of wrap_to
hat_run = refl

power2_run : power2 (pos 1000) ≡ some 9
unfolding power2 power_loop
power2_run = refl

joystick_buttons-pressed_example :
    (r : List ℕ) × (joystick_buttons qt x86 "1, 2, 12" (replicate 16 7) ≡ some r)
    × (is_pressed r 2
        ≡ (if ltb 2 8 then listed 1 2 (1 ∷ 2 ∷ 12 ∷ []) else listed 16 2 (1 ∷ 2 ∷ 12 ∷ [])))
unfolding values_of replace_all_distinct replace_from starts_with chars split to_int
joystick_buttons-pressed_example =
    joystick_buttons-pressed qt x86 "1, 2, 12" (1 ∷ 2 ∷ 12 ∷ []) (replicate 16 7) 2 refl
      (ground arith) refl (ground arith) (ground arith)

joystick_buttons-outside_test : joystick_buttons qt x86 "200" (replicate 16 7) ≡ none
unfolding values_of replace_all_distinct replace_from starts_with chars split to_int
joystick_buttons-outside_test =
    joystick_buttons-outside qt x86 "200" 200 [] (replicate 16 7) refl refl (omega arith)

convert_the_special_string_ex_lem_test : convert_the_special_string_ex x86 (negsuc 0) 7 ≡ 255
unfolding wrap_to
convert_the_special_string_ex_lem_test = convert_the_special_string_ex_lem x86 (negsuc 0) 7

power2_lem_test : (k : ℕ) × (power2 (pos 1000) ≡ some k) × (2 ^ k ≤ 1000) × (1000 < 2 ^ k * 2)
power2_lem_test = power2_lem 1000 (omega arith) (omega arith)
