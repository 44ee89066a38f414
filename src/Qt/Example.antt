-- ===== src/Qt/Example.antt =====
-- An implementation of the `Qt` parameter over association lists, for the runs and witnesses. It
-- shows that the laws that the theorems rely on can be met.
use Prim.Native.Char.{code}
use push_streamer_client.Prelude.{
  ℕ, zero, suc, ◌+◌, ◌-◌, ◌*◌, ◌/◌, ◌%◌, ◌≡◌, refl, Bool, true, false, ◌&&◌, Option, none, some,
  List, [], ◌∷◌, String, str_append, str_eq, str_eq_iff, ltb, leb, get_or, if◌then◌else◌,
}
use push_streamer_client.Prelude.Int.{ℤ, pos, negsuc}
use push_streamer_client.Qt.{Qt, SettingsLaws}

-- The groups of an ini file, and its values by path.
pub record File : Type 0 where
  pub groups : List String
  pub values : List (String × String)

unfoldable pub lookup : String → List (String × String) → Option String
lookup k [] = none
lookup k ((j, v) ∷ m) = if str_eq j k then some v else lookup k m

abbrev pub put_value : File → String → String → File
put_value f k v = record f { values = (k, v) ∷ f.values }

lookup-put_value :
    (f : File) (k v j : String)
    → lookup j (put_value f k v).values ≡ (if str_eq k j then some v else lookup j f.values)
unfolding lookup
lookup-put_value f k v j = refl

str_eq_refl : (s : String) → str_eq s s ≡ true
str_eq_refl s = (str_eq_iff s s).1 refl

-- Decimal numbers.
digits_value : String → ℕ → Option ℕ
digits_value String.[] n = some n
digits_value (String.◌∷◌ c s) n =
    let rest = digits_value s (n * 10 + (code c - b'0')) in
    if leb b'0' (code c) && leb (code c) b'9' then rest else none

unfoldable pub to_int : String → ℤ
unfolding digits_value
to_int s = elim (digits_value s 0) [ none ↦ pos 0 | some n ↦ pos n ]

digit : ℕ → String
digit n = get_or ("0" ∷ "1" ∷ "2" ∷ "3" ∷ "4" ∷ "5" ∷ "6" ∷ "7" ∷ "8" ∷ "9" ∷ []) n "0"

print : ℕ → ℕ → String
unfolding digit
print zero n = ""
print (suc f) n =
    let rest = print f (n / 10) in if ltb n 10 then digit n else str_append rest (digit (n % 10))

unfoldable pub number : ℤ → String
unfolding print
number (pos n) = print 20 n
number (negsuc n) = str_append "-" (print 20 (suc n))

prepend : String → List String → List String
prepend s [] = s ∷ []
prepend s (t ∷ ts) = str_append s t ∷ ts

-- `split` at one character.
split_at : String → String → List String
unfolding prepend
split_at String.[] d = "" ∷ []
split_at (String.◌∷◌ c s) d =
    if str_eq (String.◌∷◌ c String.[]) d
    then "" ∷ split_at s d
    else prepend (String.◌∷◌ c String.[]) (split_at s d)

unfoldable pub split : String → String → List String
unfolding split_at
split s d = split_at s d

unfoldable pub load_from : String → List (String × File) → File
load_from p [] = record { groups = []; values = [] }
load_from p ((q, f) ∷ fs) = if str_eq q p then f else load_from p fs

unfoldable pub is_there : String → List (String × File) → Bool
is_there p [] = false
is_there p ((q, f) ∷ fs) = if str_eq q p then true else is_there p fs

-- The program runs in "/app", and every file of the list is there.
abbrev pub example_qt : List (String × File) → Qt
example_qt files = record {
  Settings = File;
  load = λ path. load_from path files;
  value = λ f k. lookup k f.values;
  set_value = put_value;
  child_groups = λ f. f.groups;
  same_key = str_eq;
  file_exists = λ path. is_there path files;
  app_dir = "/app";
  to_int = to_int;
  to_local = λ s. s;
  split = split;
  number = number;
}

pub example_qt-SettingsLaws : (files : List (String × File)) → SettingsLaws (example_qt files)
example_qt-SettingsLaws files = record {
  value-set_value = lookup-put_value;
  same_key_refl = str_eq_refl;
}
