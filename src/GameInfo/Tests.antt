-- ===== src/GameInfo/Tests.antt =====
-- The theorems of recordgameinfo.cpp at concrete inputs.
use push_streamer_client.Prelude.{◌≡◌, refl, none, some, List, [], ◌∷◌, String}
use push_streamer_client.Prelude.Int.{pos, eq_ℤ}
use push_streamer_client.Qt.{Qt}
use push_streamer_client.Qt.Example.{
  File, lookup, to_int, load_from, is_there, example_qt, example_qt-SettingsLaws,
}
use push_streamer_client.Ini.{open_file, get_value}
use push_streamer_client.GameInfo.{
  init_deal_ini_file, record_all, record_params, record_status, record_id_status, get_game_info,
  read,
}
use push_streamer_client.GameInfo.Laws.{
  KeysApart, FlagTexts, Reads, record_all-Reads, record_id_status-Reads, record_without_file,
}

abbrev empty_file : File
empty_file = record { groups = []; values = [] }

abbrev files : List (String × File)
files = ("/app/pushStreamerRunningStatus.ini", empty_file) ∷ []

abbrev qt : Qt
qt = example_qt files

qt-KeysApart : KeysApart qt
qt-KeysApart = record {
  params_status = refl;
  params_id = refl;
  status_params = refl;
  status_id = refl;
  id_params = refl;
  id_status = refl;
}

qt-FlagTexts : (fs : List (String × File)) → FlagTexts (example_qt fs)
unfolding to_int
qt-FlagTexts fs = record {
  local_0 = refl;
  local_1 = refl;
  int_0 = refl;
  int_1 = refl;
  int_empty = refl;
}

opens : init_deal_ini_file qt none ≡ some (some empty_file)
unfolding init_deal_ini_file open_file is_there load_from
opens = refl

record_all-Reads_example : Reads qt (record_all qt none "{}" "race" (pos 5)) "{}" "race" (pos 1)
unfolding eq_ℤ
record_all-Reads_example =
    record_all-Reads qt (example_qt-SettingsLaws files) qt-KeysApart (qt-FlagTexts files) none
      empty_file "{}" "race" (pos 5) opens

record_id_status-Reads_test : Reads qt (record_id_status qt none "race" (pos 0)) "" "race" (pos 0)
unfolding eq_ℤ get_game_info init_deal_ini_file open_file is_there load_from read get_value lookup
record_id_status-Reads_test =
    record_id_status-Reads qt (example_qt-SettingsLaws files) qt-KeysApart (qt-FlagTexts files) none
      empty_file "race" (pos 0) opens

lost : init_deal_ini_file (example_qt []) none ≡ some none
unfolding init_deal_ini_file open_file is_there
lost = refl

record_without_file_test :
    Reads (example_qt []) (record_all (example_qt []) none "{}" "race" (pos 1)) "" "" (pos 0)
    × Reads (example_qt []) (record_id_status (example_qt []) none "race" (pos 1)) "" "" (pos 0)
    × Reads (example_qt []) (record_params (example_qt []) none "{}") "" "" (pos 0)
    × Reads (example_qt []) (record_status (example_qt []) none (pos 1)) "" "" (pos 0)
record_without_file_test =
    record_without_file (example_qt []) (qt-FlagTexts []) none "{}" "race" (pos 1) lost
