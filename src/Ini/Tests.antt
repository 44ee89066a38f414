-- ===== src/Ini/Tests.antt =====
-- Runs of dealinifile.cpp, and its theorems at concrete inputs.
use push_streamer_client.Prelude.{◌≡◌, refl, none, some, [], ◌∷◌, arith, str_eq_iff}
use push_streamer_client.Qt.Example.{File, lookup, example_qt, example_qt-SettingsLaws}
use push_streamer_client.Ini.{get_value, find_group, get_value_where, set_ini_value}
use push_streamer_client.Ini.Laws.{
  Has, get_value-set_ini_value, get_value_where-first, get_value_where-none,
}

abbrev games : File
games = record {
  groups = "race" ∷ "chess" ∷ [];
  values =
      ("race/id", "7")
      ∷ ("race/path", "race.exe")
      ∷ ("chess/id", "9")
      ∷ ("chess/path", "c.exe")
      ∷ [];
}

finds_path : get_value_where (example_qt []) (some games) "id" "9" "path" ≡ some "c.exe"
unfolding get_value_where find_group get_value lookup
finds_path = refl

get_value-set_ini_value_test :
    get_value
      (example_qt [])
      (set_ini_value (example_qt []) (some games) "race" "id" "8").0
      "race"
      "id"
    ≡ some "8"
get_value-set_ini_value_test =
    get_value-set_ini_value (example_qt []) (example_qt-SettingsLaws []) games "race" "id" "8"
      "race" "id" (ground (arith, str_eq_iff "race" "")) (ground (arith, str_eq_iff "id" ""))

not_seven : ¬ Has (example_qt []) (some games) "id" "9" "race"
unfolding get_value lookup
not_seven e = ground (arith, str_eq_iff "9" "7")

get_value_where-first_test :
    get_value_where (example_qt []) (some games) "id" "9" "path"
    ≡ get_value (example_qt []) (some games) "chess" "path"
unfolding get_value lookup
get_value_where-first_test =
    get_value_where-first (example_qt []) games "id" "9" "path" ("race" ∷ []) "chess" []
      (ground (arith, str_eq_iff "id" "")) refl (not_seven, tt) refl

race_not_three : ¬ Has (example_qt []) (some games) "id" "3" "race"
unfolding get_value lookup
race_not_three e = ground (arith, str_eq_iff "3" "7")

chess_not_three : ¬ Has (example_qt []) (some games) "id" "3" "chess"
unfolding get_value lookup
chess_not_three e = ground (arith, str_eq_iff "3" "9")

get_value_where-none_test : get_value_where (example_qt []) (some games) "id" "3" "path" ≡ none
get_value_where-none_test =
    get_value_where-none (example_qt []) games "id" "3" "path"
      (race_not_three, (chess_not_three, tt))
