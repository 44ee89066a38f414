-- ===== src/Hid.antt =====
-- The virtual keyboard and mouse of cloudGame/include/libGetrtpcmd_copy.cpp (class `libGetrtpcmd`):
-- the key slots, the modifier, and the reports that are sent to the HID driver. The globals of the
-- file are the fields of `Keyboard`; `HidD_SetFeature` takes the report that a function returns,
-- and its result is not read.
pub mod Tables
pub mod Open
pub mod Slots
pub mod Invariant
pub mod Refinement
pub mod Reports
pub mod Hides
pub mod Tests
use push_streamer_client.Prelude.{
  ℕ, ◌≡◌, Bool, true, false, Option, none, some, List, [], ◌∷◌, get_or, replicate, ◌==◌,
  if◌then◌else◌,
}
use push_streamer_client.Prelude.Int.{ℤ, pos, eq_ℤ, wrap_to}
use Tables.{Table, find, has, index, key_codes, modifier_codes}
use Slots.{held, fill_first, clear}

-- The globals `KeyCode`, `ModifiersKeyCodes`, `keycodelist` and `Modkeycodelist`.
pub record Keyboard : Type 0 where
  pub key_code : Table
  pub modifiers_key_codes : Table
  pub key_code_list : List ℤ
  pub mod_key_code_list : ℤ

-- `HIDMINI_CONTROL_INFO`.
pub record KeyReport : Type 0 where
  pub report_id : ℕ
  pub command_code : ℕ
  pub timeout : ℕ
  pub modifier : ℕ
  pub padding : ℕ
  pub key0 : ℕ
  pub key1 : ℕ
  pub key2 : ℕ
  pub key3 : ℕ
  pub key4 : ℕ
  pub key5 : ℕ

-- `HIDMINI_CONTROL_INFO_Mouse`.
pub record MouseReport : Type 0 where
  pub report_id : ℕ
  pub command_code : ℕ
  pub buttons : ℕ
  pub x : ℕ
  pub y : ℕ

-- `KeyCodeInit`. `Modkeycodelist` is a global, so it starts at 0.
unfoldable pub key_code_init : Keyboard
unfolding key_codes modifier_codes
key_code_init = record {
  key_code = key_codes;
  modifiers_key_codes = modifier_codes;
  key_code_list = replicate 5 (pos 0);
  mod_key_code_list = pos 0;
}

-- `KeyCodeGet`: the usage code of a key or a modifier, and 0 for any other.
unfoldable pub key_code_get : Keyboard → ℤ → ℕ
unfolding find
key_code_get s k = elim (find k s.key_code) [
  | some b ↦ b
  | none ↦ elim (find k s.modifiers_key_codes) [ some b ↦ b | none ↦ 0 ]
]

-- A report of the key functions: the modifier byte and the codes of the slots.
unfoldable pub key_report : ℕ → List ℕ → KeyReport
key_report m ks = record {
  report_id = 1;
  command_code = 2;
  timeout = 1000;
  modifier = m;
  padding = 0;
  key0 = get_or ks 0 0;
  key1 = get_or ks 1 0;
  key2 = get_or ks 2 0;
  key3 = get_or ks 3 0;
  key4 = get_or ks 4 0;
  key5 = 0;
}

-- `KeyCode[keycodelist[i]]` for each slot in turn; `operator[]` may add to the table.
unfoldable pub index_all : List ℤ → Table → List ℕ × Table
unfolding index
index_all [] t = ([], t)
index_all (k ∷ ks) t = let (b, t') = index k t in let (bs, t'') = index_all ks t' in (b ∷ bs, t'')

-- The two loops of `KeyDown` over the slots: a key that no slot holds takes the first free one.
unfoldable pub press : ℤ → List ℤ → List ℤ
press k slots = if held k slots then slots else fill_first k slots

-- The part of `KeyDown` under `it != KeyCode.end()`: the slots, and their codes for the report.
unfoldable pub press_key : Keyboard → ℤ → Keyboard × List ℕ
press_key s k =
    let slots = press k s.key_code_list in
    let (bs, t) = index_all slots s.key_code in
    if has k s.key_code then (record s { key_code = t; key_code_list = slots }, bs) else (s, [])

-- `keyinfo.modifier = ModifiersKeyCodes[Modkeycodelist]`.
unfoldable pub read_modifier : Keyboard → ℕ × Keyboard
read_modifier s =
    let (m, t) = index s.mod_key_code_list s.modifiers_key_codes in
    (m, record s { modifiers_key_codes = t })

-- The part of `KeyDown` under `itModifiers != ModifiersKeyCodes.end()`.
unfoldable pub press_modifier : Keyboard → ℤ → Keyboard
press_modifier s k = if has k s.modifiers_key_codes then record s { mod_key_code_list = k } else s

-- `KeyDown`: the new state, and the report that is sent.
unfoldable pub key_down : Keyboard → ℤ → Keyboard × KeyReport
key_down s k =
    let (s', bs) = press_key s k in
    let (m, s'') = read_modifier (press_modifier s' k) in (s'', key_report m bs)

-- `KeyUp`.
unfoldable pub key_up : Keyboard → ℤ → Keyboard × KeyReport
key_up s k =
    let slots = clear k s.key_code_list in
    let held_mod = if eq_ℤ s.mod_key_code_list k then pos 0 else s.mod_key_code_list in
    let (m, s') =
      read_modifier (record s { key_code_list = slots; mod_key_code_list = held_mod }) in
    let (bs, t) = index_all slots s'.key_code in (record s' { key_code = t }, key_report m bs)

-- `KeyPing`: the modifier and the keys keep the initialisers of the struct.
unfoldable pub key_ping : KeyReport
unfolding key_report
key_ping = record (key_report 0 []) { command_code = 3 }

-- The mouse buttons of a report: left, middle and right are 1, 2 and 3 in the protocol.
unfoldable pub button_bits : ℤ → ℕ
button_bits c =
    let b1 : ℕ = if eq_ℤ c (pos 1) then 1 else 0 in
    let b2 : ℕ = if eq_ℤ c (pos 2) then 4 else b1 in if eq_ℤ c (pos 3) then 2 else b2

-- `MouseMove`, `MouseUp` and `MouseDown` of `libGetrtpcmd`; `X` and `Y` are `UINT16`.
unfoldable pub mouse_move : ℤ → ℤ → ℤ → MouseReport
unfolding button_bits wrap_to
mouse_move x y c = record {
  report_id = 1;
  command_code = 2;
  buttons = button_bits c;
  x = wrap_to 65536 x;
  y = wrap_to 65536 y;
}

unfoldable pub mouse_up : ℤ → ℤ → ℤ → MouseReport
unfolding button_bits wrap_to
mouse_up x y c = record {
  report_id = 1;
  command_code = 2;
  buttons = button_bits c;
  x = wrap_to 65536 x;
  y = wrap_to 65536 y;
}

unfoldable pub mouse_down : ℤ → ℤ → ℤ → MouseReport
unfolding button_bits wrap_to
mouse_down x y c = record {
  report_id = 1;
  command_code = 2;
  buttons = button_bits c;
  x = wrap_to 65536 x;
  y = wrap_to 65536 y;
}

-- A key event, and a run of them. The reports are sent on the way.
pub data KeyEvent : Type 0 where
  down up : ℤ → KeyEvent

unfoldable pub step : Keyboard → KeyEvent → Keyboard × KeyReport
step s (down k) = key_down s k
step s (up k) = key_up s k

unfoldable pub run : Keyboard → List KeyEvent → Keyboard
run s [] = s
run s (e ∷ es) = run (step s e).0 es
