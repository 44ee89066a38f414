-- ===== src/Qt.antt =====
-- What the program uses of Qt, which is not part of the repository: ini files (`QSettings`), the
-- file system, and the text functions of `QString`. An implementation is a parameter of the model.
pub mod Example
use push_streamer_client.Prelude.{
  ◌≡◌, Bool, true, Option, some, List, String, if◌then◌else◌, str_eq,
}
use push_streamer_client.Prelude.Int.{ℤ}

pub record Qt : Type 1 where
  -- An open `QSettings`, with the contents of its file.
  pub Settings : Type 0
  -- The constructor, on a file that is there.
  pub load : String → Settings
  -- `value`; `none` is the invalid `QVariant` of a missing key.
  pub value : Settings → String → Option String
  pub set_value : Settings → String → String → Settings
  pub child_groups : Settings → List String
  -- Whether two spellings name one key: ini keys do not tell cases apart on Windows.
  pub same_key : String → String → Bool
  -- `QFile::exists`.
  pub file_exists : String → Bool
  -- `QCoreApplication::applicationDirPath`.
  pub app_dir : String
  -- `QString::toInt`: 0 for what is no number.
  pub to_int : String → ℤ
  -- `toLocal8Bit().data()`, read back as text.
  pub to_local : String → String
  -- `QString::split`.
  pub split : String → String → List String
  -- `QString("%1").arg(n)`.
  pub number : ℤ → String

-- What the program relies on of `QSettings`: a value that was set is read back, under every
-- spelling of its key, and no other key changes.
pub record SettingsLaws (qt : Qt) : Type 0 where
  pub value-set_value :
      (s : qt.Settings) (k v j : String)
      → qt.value (qt.set_value s k v) j ≡ (if qt.same_key k j then some v else qt.value s j)
  pub same_key_refl : (k : String) → qt.same_key k k ≡ true

-- `QString::isEmpty`, and `empty` of a `std::string`.
abbrev pub is_empty : String → Bool
is_empty s = str_eq s ""
