-- ===== src/GameInfo/Laws.antt =====
-- The theorems of recordgameinfo.cpp: what is recorded is read back.
pub mod Params
use push_streamer_client.Prelude.{
  ◌≡◌, refl, ◌∙◌, ap, ◌≢◌, false, none, some, String, str_eq_iff, arith, if◌then◌else◌,
}
use push_streamer_client.Prelude.Int.{ℤ, pos, eq_ℤ}
use push_streamer_client.Qt.{Qt, SettingsLaws}
use push_streamer_client.Ini.{to_string, key_path, get_value, set_ini_value}
use push_streamer_client.GameInfo.{
  GameInfo, ini_topic, params_key, status_key, id_key, status_text, init_deal_ini_file, write, read,
  record_all, record_params, record_status, record_id_status, get_game_info, get_game_status,
  get_game_id,
}

-- The three keys of the status file are different keys of `QSettings`.
pub record KeysApart (qt : Qt) : Type 0 where
  pub params_status :
      qt.same_key (key_path ini_topic params_key) (key_path ini_topic status_key) ≡ false
  pub params_id : qt.same_key (key_path ini_topic params_key) (key_path ini_topic id_key) ≡ false
  pub status_params :
      qt.same_key (key_path ini_topic status_key) (key_path ini_topic params_key) ≡ false
  pub status_id : qt.same_key (key_path ini_topic status_key) (key_path ini_topic id_key) ≡ false
  pub id_params : qt.same_key (key_path ini_topic id_key) (key_path ini_topic params_key) ≡ false
  pub id_status : qt.same_key (key_path ini_topic id_key) (key_path ini_topic status_key) ≡ false

-- The texts "0" and "1" survive the local encoding and are read as numbers; the empty text is no
-- number.
pub record FlagTexts (qt : Qt) : Type 0 where
  pub local_0 : qt.to_local "0" ≡ "0"
  pub local_1 : qt.to_local "1" ≡ "1"
  pub int_0 : qt.to_int "0" ≡ pos 0
  pub int_1 : qt.to_int "1" ≡ pos 1
  pub int_empty : qt.to_int "" ≡ pos 0

-- 1 for a status that is not 0.
abbrev pub flag : ℤ → ℤ
flag n = if eq_ℤ n (pos 0) then pos 0 else pos 1

topic_ne : ini_topic ≢ ""
topic_ne = ground (arith, str_eq_iff ini_topic "")

params_ne : params_key ≢ ""
params_ne = ground (arith, str_eq_iff params_key "")

status_ne : status_key ≢ ""
status_ne = ground (arith, str_eq_iff status_key "")

id_ne : id_key ≢ ""
id_ne = ground (arith, str_eq_iff id_key "")

module _ (qt : Qt) where
  -- The settings after one key of the status file was set.
  abbrev put_key : qt.Settings → String → String → qt.Settings
  put_key s key v = qt.set_value s (key_path ini_topic key) (qt.to_local v)

  write-open :
      (s : qt.Settings) (key v : String)
      → key ≢ ""
      → write qt (some (some s)) key v ≡ some (some (put_key s key v))
  unfolding write set_ini_value
  write-open s key v h = ground (arith, str_eq_iff ini_topic "", str_eq_iff key "", topic_ne)

  record_all-open :
      (i : GameInfo qt) (s : qt.Settings) (params game_id : String) (n : ℤ)
      → init_deal_ini_file qt i ≡ some (some s)
      → record_all qt i params game_id n
        ≡ some (
            some (
              put_key
                (put_key (put_key s params_key params) status_key (status_text n))
                id_key
                game_id))
  unfolding record_all
  record_all-open i s params game_id n e = rw (
    e,
    write-open s params_key params params_ne,
    write-open _ status_key (status_text n) status_ne,
    write-open _ id_key game_id id_ne,
  )

  read-open :
      (s : qt.Settings) (key : String)
      → read qt (some (some s)) key ≡ to_string (qt.value s (key_path ini_topic key))
  unfolding read get_value
  read-open s key = refl

  init-open : (s : qt.Settings) → init_deal_ini_file qt (some (some s)) ≡ some (some s)
  unfolding init_deal_ini_file
  init-open s = refl

  -- A read through each of the three getters.
  abbrev pub Reads : GameInfo qt → String → String → ℤ → Type 0
  Reads i params game_id n =
      ((get_game_info qt i).0 ≡ params)
      × ((get_game_id qt i).0 ≡ game_id)
      × ((get_game_status qt i).0 ≡ n)

  Reads-open :
      (s : qt.Settings) (params game_id : String) (n : ℤ)
      → to_string (qt.value s (key_path ini_topic params_key)) ≡ params
      → to_string (qt.value s (key_path ini_topic id_key)) ≡ game_id
      → qt.to_int (to_string (qt.value s (key_path ini_topic status_key))) ≡ n
      → Reads (some (some s)) params game_id n
  unfolding get_game_info get_game_id get_game_status read get_value init_deal_ini_file
  Reads-open s params game_id n p g st = (p, g, st)

  record_id_status-open :
      (i : GameInfo qt) (s : qt.Settings) (game_id : String) (n : ℤ)
      → init_deal_ini_file qt i ≡ some (some s)
      → record_id_status qt i game_id n
        ≡ some (some (put_key (put_key s id_key game_id) status_key (status_text n)))
  unfolding record_id_status
  record_id_status-open i s game_id n e =
      rw (e, write-open s id_key game_id id_ne, write-open _ status_key (status_text n) status_ne)

  get_game_info-open :
      (i : GameInfo qt) (s : qt.Settings)
      → init_deal_ini_file qt i ≡ some (some s)
      → (get_game_info qt i).0 ≡ to_string (qt.value s (key_path ini_topic params_key))
  unfolding get_game_info
  get_game_info-open i s e = rw e (read-open s params_key)

  write-lost : (key v : String) → write qt (some none) key v ≡ some none
  unfolding write set_ini_value
  write-lost key v = ground arith

  Reads-lost : qt.to_int "" ≡ pos 0 → Reads (some none) "" "" (pos 0)
  unfolding get_game_info get_game_id get_game_status read get_value init_deal_ini_file
  Reads-lost e = (refl, refl, e)

module _ (qt : Qt) (l : SettingsLaws qt) where
  value-put_self :
      (s : qt.Settings) (key v : String)
      → to_string (qt.value (put_key qt s key v) (key_path ini_topic key)) ≡ qt.to_local v
  value-put_self s key v = rw (
    l.value-set_value s (key_path ini_topic key) (qt.to_local v) (key_path ini_topic key),
    l.same_key_refl (key_path ini_topic key),
  )

  value-put_ne :
      (s : qt.Settings) (key v key' : String)
      → qt.same_key (key_path ini_topic key) (key_path ini_topic key') ≡ false
      → qt.value (put_key qt s key v) (key_path ini_topic key')
        ≡ qt.value s (key_path ini_topic key')
  value-put_ne s key v key' h =
      rw (l.value-set_value s (key_path ini_topic key) (qt.to_local v) (key_path ini_topic key'), h)

module _ (qt : Qt) (l : SettingsLaws qt) (keys : KeysApart qt) (texts : FlagTexts qt) where
  flag-read : (n : ℤ) → qt.to_int (qt.to_local (status_text n)) ≡ flag n
  flag-read n = ground (arith, texts.local_0, texts.local_1, texts.int_0, texts.int_1)

  -- With the status file open, or there to be opened, `RecordInfo` of all three values is read back
  -- by the three getters: the texts in their local encoding, and the status as 0 or 1.
  pub record_all-Reads :
      (i : GameInfo qt) (s : qt.Settings) (params game_id : String) (n : ℤ)
      → init_deal_ini_file qt i ≡ some (some s)
      → Reads qt
          (record_all qt i params game_id n)
          (qt.to_local params)
          (qt.to_local game_id)
          (flag n)
  record_all-Reads i s params game_id n e =
      let s1 = put_key qt s params_key params in
      let s2 = put_key qt s1 status_key (status_text n) in
      rw (record_all-open qt i s params game_id n e) (
        Reads-open qt (put_key qt s2 id_key game_id) (qt.to_local params) (qt.to_local game_id)
          (flag n)
          (ap to_string (
              value-put_ne qt l s2 id_key game_id params_key keys.id_params
              ∙ value-put_ne qt l s1 status_key (status_text n) params_key keys.status_params)
            ∙ value-put_self qt l s params_key params)
          (value-put_self qt l s2 id_key game_id)
          (ap (λ o. qt.to_int (to_string o))
              (value-put_ne qt l s2 id_key game_id status_key keys.id_status)
            ∙ ap qt.to_int (value-put_self qt l s1 status_key (status_text n))
            ∙ flag-read n))

  -- With the status file open, or there to be opened, `RecordInfo` of a game id and a status is
  -- read back, and the recorded start parameters stay what they were.
  pub record_id_status-Reads :
      (i : GameInfo qt) (s : qt.Settings) (game_id : String) (n : ℤ)
      → init_deal_ini_file qt i ≡ some (some s)
      → Reads qt
          (record_id_status qt i game_id n)
          (get_game_info qt i).0
          (qt.to_local game_id)
          (flag n)
  record_id_status-Reads i s game_id n e =
      let s1 = put_key qt s id_key game_id in
      rw (record_id_status-open qt i s game_id n e, get_game_info-open qt i s e)
        (Reads-open qt (put_key qt s1 status_key (status_text n)) _ (qt.to_local game_id) (flag n)
          (ap to_string (
            value-put_ne qt l s1 status_key (status_text n) params_key keys.status_params
            ∙ value-put_ne qt l s id_key game_id params_key keys.id_params))
          (ap to_string (value-put_ne qt l s1 status_key (status_text n) id_key keys.status_id)
            ∙ value-put_self qt l s id_key game_id)
          (ap qt.to_int (value-put_self qt l s1 status_key (status_text n)) ∙ flag-read n))

module _ (qt : Qt) (texts : FlagTexts qt) where
  -- If the status file is not there when it is first used, no value is ever recorded: after every
  -- kind of record the getters read the empty text and the status 0.
  pub record_without_file :
      (i : GameInfo qt) (params game_id : String) (n : ℤ)
      → init_deal_ini_file qt i ≡ some none
      → Reads qt (record_all qt i params game_id n) "" "" (pos 0)
        × Reads qt (record_id_status qt i game_id n) "" "" (pos 0)
        × Reads qt (record_params qt i params) "" "" (pos 0)
        × Reads qt (record_status qt i n) "" "" (pos 0)
  unfolding record_all record_id_status record_params record_status
  record_without_file i params game_id n e =
      let r = Reads-lost qt texts.int_empty in
      rw
        (
          e,
          write-lost qt params_key params,
          write-lost qt status_key (status_text n),
          write-lost qt id_key game_id,
          write-lost qt status_key (status_text n),
        )
        (r, r, r, r)
