-- ===== src/GameInfo.antt =====
-- recordgameinfo.cpp: the singleton `RecordGameInfo`, which keeps the state of the game in
-- pushStreamerRunningStatus.ini so that a restart finds it. The state is the field `m_dealIniFile`;
-- `none` is the null pointer. The double-checked creation of the singleton is not modelled.
pub mod Laws
mod Tests
use push_streamer_client.Prelude.{
  ◌≡◌, Bool, true, false, not, Option, none, some, String, str_append, str_eq, if◌then◌else◌,
}
use push_streamer_client.Prelude.Int.{ℤ, pos, eq_ℤ}
use push_streamer_client.Qt.{Qt, is_empty}
use push_streamer_client.Ini.{Ini, to_string, key_path, open_file, get_value, set_ini_value}

-- The names of the file, of its topic and of its keys.
abbrev pub ini_file : String
ini_file = "/pushStreamerRunningStatus.ini"

abbrev pub ini_topic : String
ini_topic = "pushStreamerInfo"

abbrev pub params_key : String
params_key = "startGameParame"

abbrev pub status_key : String
status_key = "startGameStatus"

abbrev pub id_key : String
id_key = "gameId"

abbrev pub update_key : String
update_key = "isUpdate"

abbrev pub GameInfo : Qt → Type 0
GameInfo qt = Option (Ini qt)

-- `gameStatus ? "1" : "0"`.
abbrev pub status_text : ℤ → String
status_text n = if eq_ℤ n (pos 0) then "0" else "1"

module _ (qt : Qt) where
  open qt use {app_dir, to_int}

  -- `InitDealIniFile`: the file is opened once; a failure is logged only.
  unfoldable pub init_deal_ini_file : GameInfo qt → GameInfo qt
  init_deal_ini_file (some ini) = some ini
  init_deal_ini_file none =
      if is_empty app_dir
      then some none
      else some (open_file qt none (str_append app_dir ini_file)).0

  -- `m_dealIniFile->SetValue` under the test of the pointer.
  unfoldable pub write : GameInfo qt → String → String → GameInfo qt
  write none key v = none
  write (some ini) key v = some (set_ini_value qt ini ini_topic key v).0

  -- `m_dealIniFile->GetValue(...).toString()` under the test of the pointer.
  unfoldable pub read : GameInfo qt → String → String
  read none key = ""
  read (some ini) key = to_string (get_value qt ini ini_topic key)

  -- `RecordInfo(startGameParame, gameId, gameStatus)`.
  unfoldable pub record_all : GameInfo qt → String → String → ℤ → GameInfo qt
  record_all i params game_id status =
      let i1 = write (init_deal_ini_file i) params_key params in
      let i2 = write i1 status_key (status_text status) in write i2 id_key game_id

  -- `RecordInfo(startGameParame)`.
  unfoldable pub record_params : GameInfo qt → String → GameInfo qt
  record_params i params = write (init_deal_ini_file i) params_key params

  -- `RecordInfo(gameStatus)`.
  unfoldable pub record_status : GameInfo qt → ℤ → GameInfo qt
  record_status i status = write (init_deal_ini_file i) status_key (status_text status)

  -- `RecordInfo(gameId, gameStatus)`.
  unfoldable pub record_id_status : GameInfo qt → String → ℤ → GameInfo qt
  record_id_status i game_id status =
      let i1 = write (init_deal_ini_file i) id_key game_id in
      write i1 status_key (status_text status)

  -- `GetGameInfo`: the value, and the state after the file was opened.
  unfoldable pub get_game_info : GameInfo qt → String × GameInfo qt
  get_game_info i = let i1 = init_deal_ini_file i in (read i1 params_key, i1)

  -- `GetGameStatus`.
  unfoldable pub get_game_status : GameInfo qt → ℤ × GameInfo qt
  get_game_status i =
      let i1 = init_deal_ini_file i in
      (elim i1 [ none ↦ pos 0 | some ini ↦ to_int (read (some ini) status_key) ], i1)

  -- `GetGameId`.
  unfoldable pub get_game_id : GameInfo qt → String × GameInfo qt
  get_game_id i = let i1 = init_deal_ini_file i in (read i1 id_key, i1)

  -- `GetIsUpdate`.
  unfoldable pub get_is_update : GameInfo qt → Bool × GameInfo qt
  get_is_update i = let i1 = init_deal_ini_file i in (str_eq (read i1 update_key) "1", i1)
