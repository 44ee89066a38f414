-- ===== src/Hid/Tests.antt =====
-- Runs of cloudGame/include/libGetrtpcmd_copy.cpp, and its theorems at concrete inputs.
use push_streamer_client.Prelude.{
  ℕ, zero, suc, some, ◌⊎◌, ◌==◌, ◌≡◌, refl, ◌≢◌, not, ◌&&◌, ◌||◌, true, false, List, [], ◌∷◌, arith,
}
use push_streamer_client.Prelude.Int.{pos, eq_ℤ}
use push_streamer_client.Hid.Tables.{find, has, index}
use push_streamer_client.Hid.Slots.{held, fill_first}
use push_streamer_client.Hid.Invariant.{IsValid, key_code_init-IsValid, run-IsValid}
use push_streamer_client.Hid.Hides.{modifier_hides}
use push_streamer_client.Hid.Refinement.{holds, key_down-holds, key_up-holds, key_up-key_down}
use push_streamer_client.Hid.Open.{
  Interface, Handles, absent, opens, without, device_close, device_close_at, look_at, search,
  device_open, no_device, Found, device_open-Found,
}
use push_streamer_client.Hid.Reports.{
  full_report, modifier_byte, key_up_report, key_down_report, key_down_hides, mouse_reports,
}
use push_streamer_client.Hid.{
  Keyboard, KeyEvent, down, up, key_code_init, key_report, index_all, press, press_key,
  press_modifier, read_modifier, key_down, key_up, button_bits, mouse_move, mouse_up, mouse_down,
  step, run,
}

-- Shift, then A and B, as the keys of a message name them.
abbrev shift_a_b : List KeyEvent
shift_a_b = down (pos 16) ∷ down (pos 65) ∷ down (pos 66) ∷ []

abbrev typing : Keyboard
typing = run key_code_init shift_a_b

typing_slots : typing.key_code_list ≡ pos 65 ∷ pos 66 ∷ pos 0 ∷ pos 0 ∷ pos 0 ∷ []
unfolding run step key_down press_key press_modifier read_modifier press index_all index held
    fill_first has find eq_ℤ key_code_init
typing_slots = refl

typing_reports_nothing : (key_down typing (pos 17)).1 ≡ key_report 1 []
unfolding run step key_down press_key press_modifier read_modifier press index_all index held
    fill_first has find eq_ℤ key_code_init
typing_reports_nothing = refl

known_a : has (pos 65) key_code_init.key_code ≡ true
unfolding has find eq_ℤ key_code_init
known_a = refl

typing-IsValid : IsValid typing
typing-IsValid = run-IsValid shift_a_b

run-IsValid_example : IsValid (run key_code_init (up (pos 65) ∷ shift_a_b))
run-IsValid_example = run-IsValid (up (pos 65) ∷ shift_a_b)

pos_ne : pos 65 ≢ pos 0
pos_ne e = cc

key_down-holds_example : holds (key_down key_code_init (pos 65)).0 (pos 65) ≡ (
    holds key_code_init (pos 65)
    || (eq_ℤ (pos 65) (pos 65)
        && (has (pos 65) key_code_init.key_code && holds key_code_init (pos 0))))
key_down-holds_example = key_down-holds key_code_init (pos 65) (pos 65) key_code_init-IsValid pos_ne

key_up-holds_example :
    holds (key_up typing (pos 66)).0 (pos 65)
    ≡ (holds typing (pos 65) && not (eq_ℤ (pos 66) (pos 65)))
key_up-holds_example = key_up-holds typing (pos 65) (pos 66) typing-IsValid pos_ne

key_up-key_down_test :
    (key_up (key_down key_code_init (pos 65)).0 (pos 65)).0.key_code_list
    ≡ key_code_init.key_code_list
unfolding held eq_ℤ key_code_init
key_up-key_down_test = key_up-key_down key_code_init (pos 65) key_code_init-IsValid refl pos_ne

key_up_report_test : (key_up typing (pos 66)).1 ≡ full_report (key_up typing (pos 66)).0
key_up_report_test = key_up_report typing (pos 66) typing-IsValid

key_down_report_test :
    (key_down key_code_init (pos 65)).1 ≡ full_report (key_down key_code_init (pos 65)).0
key_down_report_test = key_down_report key_code_init (pos 65) key_code_init-IsValid known_a

typing_no_ctrl : has (pos 17) typing.key_code ≡ false
unfolding run step key_down press_key press_modifier read_modifier press index_all index held
    fill_first has find eq_ℤ key_code_init
typing_no_ctrl = refl

key_down_hides_test :
    ((key_down typing (pos 17)).0.key_code_list ≡ typing.key_code_list)
    × ((key_down typing (pos 17)).1 ≡ key_report (modifier_byte (key_down typing (pos 17)).0) [])
key_down_hides_test = key_down_hides typing (pos 17) typing-IsValid typing_no_ctrl

-- A is pressed, then Ctrl, and A is released.
modifier_hides_example :
    let s1 = (key_down key_code_init (pos 65)).0 in
    let s2 = (key_down s1 (pos 17)).0 in
    ((key_down key_code_init (pos 65)).1 ≡ full_report s1)
    × (holds s2 (pos 65) ≡ true)
    × ((key_down s1 (pos 17)).1 ≡ key_report (modifier_byte s2) [])
    × ((key_up s2 (pos 65)).1 ≡ full_report (key_up s2 (pos 65)).0)
unfolding held has find eq_ℤ key_code_init key_down press_key press_modifier read_modifier press
    index_all index fill_first
modifier_hides_example =
    modifier_hides key_code_init (pos 65) (pos 17) (pos 65) key_code_init-IsValid pos_ne known_a
      refl refl

mouse_reports_example :
    (mouse_down (pos 16383) (pos 500) (pos 2) ≡ mouse_move (pos 16383) (pos 500) (pos 2))
    × (mouse_up (pos 16383) (pos 500) (pos 2) ≡ mouse_move (pos 16383) (pos 500) (pos 2))
    × ((mouse_move (pos 16383) (pos 500) (pos 2)).x ≡ 16383)
    × ((mouse_move (pos 16383) (pos 500) (pos 2)).y ≡ 500)
    × ((button_bits (pos 2) == button_bits (pos 3)) ≡ false)
mouse_reports_example =
    mouse_reports 16383 500 2 3 (omega arith) (omega arith) (omega arith) (omega arith)

-- The third interface is the device; the one before it is opened and closed.
abbrev machine : ℕ → Interface
machine zero = absent
machine (suc zero) = opens 5 1 1
machine (suc (suc n)) = opens 6 1 2

open_run :
    device_open machine 1 2 (record { handle = some 3; live = 3 ∷ 4 ∷ [] })
    ≡ (record { handle = some 6; live = 6 ∷ 4 ∷ [] }, true)
unfolding device_open search look_at device_close device_close_at without
open_run = refl

device_open-Found_example :
    let s : Handles = record { handle = some 3; live = 3 ∷ 4 ∷ [] } in
    let s' = no_device (device_close s).live in
    let r = device_open machine 1 2 s in Found machine 1 2 1024 s' r ⊎ (r ≡ (s', false))
device_open-Found_example =
    device_open-Found machine 1 2 (record { handle = some 3; live = 3 ∷ 4 ∷ [] })
