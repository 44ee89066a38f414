-- ===== src/KeyMessages/Tests.antt =====
-- The theorems of the key messages of cloudstreamer.cpp at concrete inputs. The button 1 is mapped
-- to the keys 87 and 65. A message is an object of texts and numbers, with one object in it at most,
-- its member "key".
use push_streamer_client.Prelude.{
  ◌≡◌, refl, Bool, true, false, Option, none, some, List, [], ◌∷◌, ◌++◌, String, str_eq, ltb,
  if◌then◌else◌,
}
use push_streamer_client.Prelude.Int.{ℤ, pos, negsuc, eq_ℤ}
use push_streamer_client.Qt.{Qt}
use push_streamer_client.Qt.Example.{
  File, lookup, to_int, number, split, load_from, is_there, example_qt,
}
use push_streamer_client.Ini.{open_file, get_value}
use push_streamer_client.Device.{press, release}
use push_streamer_client.Consumer.{normal_key_action, new_consumer}
use push_streamer_client.Keymap.{
  Keymap, new_keymap, no_tables, map_find, get_key_value_in_map, lookup_key, get_map_key_value,
}
use push_streamer_client.Keymap.Direction.{Floats}
use push_streamer_client.Keymap.Cache.{products, queue}
use push_streamer_client.Keymap.Keys.{nonzero}
use push_streamer_client.Session.{done, aborted, ◌>>=◌}
use push_streamer_client.KeyMessages.{
  Reader, Control, is_left_keyboard_number_letter, key_of, open_key_files,
  deal_the_full_keyboard_model, deal_the_normal_keyboard_model,
}
use push_streamer_client.KeyMessages.Laws.{
  IsGamepad, function_key_lost, number_key_aborts, gamepad_press_release,
}

abbrev lt_ℤ : ℤ → ℤ → Bool
lt_ℤ (pos a) (pos b) = ltb a b
lt_ℤ (pos a) (negsuc b) = false
lt_ℤ (negsuc a) (pos b) = true
lt_ℤ (negsuc a) (negsuc b) = ltb b a

abbrev pub whole : Floats
whole = record { F = ℤ; lt = lt_ℤ; eq = eq_ℤ; zero = pos 0 }

abbrev names : File
names = record { groups = []; values = ("KeyboardMapValue/1", "A") ∷ [] }

abbrev defaults : File
defaults = record { groups = []; values = ("KeyboardMapValue/A", "87:65") ∷ [] }

abbrev function_names : File
function_names = record { groups = []; values = ("ValueName/82", "R") ∷ [] }

abbrev pub qt : Qt
qt = example_qt (
    ("/names.ini", names)
    ∷ ("/defaults.ini", defaults)
    ∷ ("/app/fullKeyboardValueName.ini", function_names)
    ∷ [])

abbrev pub fresh : Control qt whole
fresh = record {
  ini_parse1 = none;
  ini_parse2 = none;
  is_upper_key = false;
  key_board_config = some (new_keymap qt whole "/names.ini" "/defaults.ini" "/game.ini");
  calls = [];
}

pub data Leaf : Type 0 where
  null : Leaf
  num : ℤ → Leaf
  str : String → Leaf

pub data Value : Type 0 where
  leaf : Leaf → Value
  flat : List (String × Leaf) → Value
  -- with the object under "key"
  nested : List (String × Leaf) → List (String × Leaf) → Value

unfoldable pub find_leaf : String → List (String × Leaf) → Leaf
find_leaf k [] = null
find_leaf k ((j, v) ∷ m) = if str_eq j k then v else find_leaf k m

unfoldable pub get : Value → String → Value
unfolding find_leaf
get (leaf v) k = leaf null
get (flat m) k = leaf (find_leaf k m)
get (nested m key) k = if str_eq k "key" then flat key else leaf (find_leaf k m)

unfoldable pub is_there_in : Value → Bool
is_there_in (leaf null) = false
is_there_in _ = true

unfoldable pub is_int : Value → Bool
is_int (leaf (num n)) = true
is_int _ = false

unfoldable pub is_string : Value → Bool
is_string (leaf (str t)) = true
is_string _ = false

unfoldable pub is_object : Value → Bool
is_object (leaf v) = false
is_object _ = true

unfoldable pub empty : Value → Bool
empty (leaf null) = true
empty (flat []) = true
empty _ = false

unfoldable pub int : Value → Option ℤ
int (leaf null) = some (pos 0)
int (leaf (num n)) = some n
int _ = none

unfoldable pub string : Value → Option String
string (leaf null) = some ""
string (leaf (str t)) = some t
string _ = none

unfoldable pub is_member : Value → String → Bool
unfolding get is_there_in
is_member v k = is_there_in (get v k)

abbrev pub rd : Reader whole
rd = record {
  Value = Value;
  parse = λ t. none;
  get = get;
  is_member = is_member;
  is_int = is_int;
  is_string = is_string;
  is_object = is_object;
  empty = empty;
  int = int;
  string = string;
  double = int;
  atoi = to_int;
  scaling = record {
    minus = λ x y. x;
    divide = λ x y. x;
    times = λ x y. x;
    minus_one = negsuc 0;
    one = pos 1;
    range = pos 32737;
    to_int = λ x. x;
  };
}

abbrev press_r : Value
press_r = flat (("ud", num (pos 1)) ∷ ("key", num (pos 82)) ∷ [])

function_key_lost_example :
    deal_the_full_keyboard_model qt whole rd (open_key_files qt whole rd fresh) press_r
    ≡ done (open_key_files qt whole rd fresh)
unfolding get find_leaf int string is_int is_string key_of is_left_keyboard_number_letter
function_key_lost_example = function_key_lost qt whole rd fresh press_r (pos 82) refl refl refl refl

abbrev gamepad : ℤ → Leaf → Value
gamepad ud k = nested (("mode", num (pos 1)) ∷ ("ud", num ud) ∷ []) (("key", k) ∷ [])

gamepad-IsGamepad : (ud : ℤ) → IsGamepad qt whole rd (gamepad ud (num (pos 1))) ud
unfolding get find_leaf int is_member is_there_in
gamepad-IsGamepad ud = record {
  mode_is = refl;
  ud_is = refl;
  no_x = refl;
  no_y = refl;
  no_z = refl;
  no_rz = refl;
  has_key = refl;
}

gamepad_text-IsGamepad : (ud : ℤ) → IsGamepad qt whole rd (gamepad ud (str "1")) ud
unfolding get find_leaf int is_member is_there_in
gamepad_text-IsGamepad ud = record {
  mode_is = refl;
  ud_is = refl;
  no_x = refl;
  no_y = refl;
  no_z = refl;
  no_rz = refl;
  has_key = refl;
}

number_key_aborts_test :
    deal_the_normal_keyboard_model qt whole rd fresh (gamepad (pos 1) (num (pos 1))) ≡ aborted
unfolding get find_leaf string
number_key_aborts_test =
    number_key_aborts qt whole rd fresh (gamepad (pos 1) (num (pos 1))) (pos 1)
      (gamepad-IsGamepad (pos 1)) refl

press_release_test :
    (m' : Keymap qt whole) × ((deal_the_normal_keyboard_model qt whole rd fresh
          (gamepad (pos 1) (str "1"))
        >>= λ r. deal_the_normal_keyboard_model qt whole rd r (gamepad (pos 2) (str "1")))
      ≡ done (record fresh { key_board_config = some m' }))
    × (queue qt whole m'
        ≡ products normal_key_action press (pos 87 ∷ pos 65 ∷ [])
          ++ products normal_key_action release (pos 87 ∷ pos 65 ∷ []))
unfolding new_keymap open_file get_value no_tables get_key_value_in_map map_find lookup is_there
    load_from number to_int split nonzero lookup_key get_map_key_value new_consumer eq_ℤ get
    find_leaf string key_of is_string is_int
press_release_test =
    gamepad_press_release qt whole rd fresh
      (new_keymap qt whole "/names.ini" "/defaults.ini" "/game.ini") new_consumer
      (gamepad (pos 1) (str "1")) (gamepad (pos 2) (str "1")) (pos 1) "1" refl refl refl refl
      (gamepad_text-IsGamepad (pos 1)) (gamepad_text-IsGamepad (pos 2)) refl refl refl refl
