-- ===== src/GameInfo/Laws/Params.antt =====
-- recordgameinfo.cpp: the record of the start parameters alone.
use push_streamer_client.Prelude.{◌≡◌, ap, some, String}
use push_streamer_client.Qt.{Qt, SettingsLaws}
use push_streamer_client.Ini.{to_string, key_path}
use push_streamer_client.GameInfo.{
  GameInfo, ini_topic, params_key, status_key, id_key, init_deal_ini_file, record_params,
  get_game_id, get_game_status,
}
use push_streamer_client.GameInfo.Laws.{
  KeysApart, Reads, Reads-open, put_key, params_ne, write-open, read-open, value-put_self,
  value-put_ne,
}

module _ (qt : Qt) (l : SettingsLaws qt) (keys : KeysApart qt) where
  get_game_id-open :
      (i : GameInfo qt) (s : qt.Settings)
      → init_deal_ini_file qt i ≡ some (some s)
      → (get_game_id qt i).0 ≡ to_string (qt.value s (key_path ini_topic id_key))
  unfolding get_game_id
  get_game_id-open i s e = rw e (read-open qt s id_key)

  get_game_status-open :
      (i : GameInfo qt) (s : qt.Settings)
      → init_deal_ini_file qt i ≡ some (some s)
      → (get_game_status qt i).0
        ≡ qt.to_int (to_string (qt.value s (key_path ini_topic status_key)))
  unfolding get_game_status
  get_game_status-open i s e = rw (get_game_status, e) (ap qt.to_int (read-open qt s status_key))

  record_params-open :
      (i : GameInfo qt) (s : qt.Settings) (params : String)
      → init_deal_ini_file qt i ≡ some (some s)
      → record_params qt i params ≡ some (some (put_key qt s params_key params))
  unfolding record_params
  record_params-open i s params e = rw e (write-open qt s params_key params params_ne)

  -- With the status file open, or there to be opened, new start parameters are read back, and the
  -- recorded id and status stay what they were.
  pub record_params-Reads :
      (i : GameInfo qt) (s : qt.Settings) (params : String)
      → init_deal_ini_file qt i ≡ some (some s)
      → Reads qt
          (record_params qt i params)
          (qt.to_local params)
          (get_game_id qt i).0
          (get_game_status qt i).0
  record_params-Reads i s params e =
      rw (record_params-open i s params e, get_game_id-open i s e, get_game_status-open i s e)
        (Reads-open qt (put_key qt s params_key params) _ _ _
          (value-put_self qt l s params_key params)
          (ap to_string (value-put_ne qt l s params_key params id_key keys.params_id))
          (ap (λ o. qt.to_int (to_string o))
            (value-put_ne qt l s params_key params status_key keys.params_status)))
