-- ===== src/Session/Resolutions.antt =====
-- The theorem of `ChangeResolutionCallback` of cloudstreamer.cpp.
use push_streamer_client.Prelude.{
  ℕ, ◌≡◌, refl, ◌∙◌, ap, subst, arith, true, false, some, String, str_eq,
}
use push_streamer_client.Prelude.Int.{pos, eq_ℤ}
use push_streamer_client.Qt.{Qt, SettingsLaws, is_empty}
use push_streamer_client.GameInfo.{
  GameInfo, init_deal_ini_file, get_game_status, get_game_info, get_game_id, record_params, write,
  params_key,
}
use push_streamer_client.GameInfo.Laws.{KeysApart, Reads}
use push_streamer_client.GameInfo.Laws.Params.{record_params-Reads}
use push_streamer_client.Session.{done, World, Session, only_push_streamr}
use push_streamer_client.Session.Messages.{Json}
use push_streamer_client.Session.Callbacks.{start_game_callback}
use push_streamer_client.Session.Resolution.{
  optional_text, rates_value, with_rates, modifiy_start_params, restart_stream, change_parsed,
  change_resolution_callback,
}
use push_streamer_client.Session.Frames.{init-init}

module _ (js : Json) where
  -- A message whose member is a text.
  abbrev pub HasText : js.Value → String → String → Type 0
  HasText v name t =
      (js.is_member v name ≡ true)
      × (js.is_string (js.get v name) ≡ true)
      × (js.text (js.get v name) ≡ some t)

-- What the program relies on of a member of an object that was set to a text: it is read back, and no
-- other member changes.
pub record SetTextLaws (js : Json) : Type 0 where
  pub set_text_object :
      (v : js.Value) (k t : String)
      → js.is_object v ≡ true
      → js.is_object (js.set_text v k t) ≡ true
  pub get-set :
      (v : js.Value) (k t : String)
      → js.is_object v ≡ true
      → js.text (js.get (js.set_text v k t) k) ≡ some t
  pub get-other :
      (v : js.Value) (k j t : String)
      → js.is_object v ≡ true
      → str_eq k j ≡ false
      → js.get (js.set_text v k t) j ≡ js.get v j

module _ (qt : Qt) (w : World) (js : Json) where
  optional_text-is :
      (v : js.Value) (name t : String) → HasText js v name t → optional_text qt w js v name ≡ done t
  unfolding optional_text
  optional_text-is v name t h = rw (h.0, h.1, h.2) refl

  -- What `ModifiyStartParams` does with parameters that are recorded.
  modifiy_start_params-recorded :
      (i : GameInfo qt) (framerate bitrate deadline old : String) (u : js.Value)
      → is_empty framerate ≡ false
      → is_empty bitrate ≡ false
      → is_empty deadline ≡ false
      → (get_game_info qt i).0 ≡ old
      → is_empty old ≡ false
      → js.parse old ≡ some u
      → modifiy_start_params qt w js i framerate bitrate deadline ≡ (
        record_params qt (get_game_info qt i).1 (with_rates qt w js u framerate bitrate deadline),
        with_rates qt w js u framerate bitrate deadline,
      )
  unfolding modifiy_start_params
  modifiy_start_params-recorded i framerate bitrate deadline old u a b c g o p =
      rw (modifiy_start_params, a, b, c, g, o, p) refl

  init-record_params :
      (i : GameInfo qt) (t : String)
      → init_deal_ini_file qt (record_params qt i t) ≡ record_params qt i t
  unfolding init_deal_ini_file record_params write
  init-record_params i t = ground arith

  record_params-opened :
      (i : GameInfo qt) (t : String)
      → record_params qt (get_game_info qt i).1 t ≡ record_params qt i t
  unfolding get_game_info record_params
  record_params-opened i t = ap (λ j. write qt j params_key t) (init-init qt i)

  get_game_status-params :
      (i : GameInfo qt) (t : String)
      → (get_game_status qt (record_params qt i t)).1 ≡ record_params qt i t
  unfolding get_game_status
  get_game_status-params i t = init-record_params i t

  restart_stream-running :
      (n : ℕ) (s : Session qt) (new : String)
      → is_empty new ≡ false
      → (get_game_status qt s.info).0 ≡ pos 1
      → restart_stream qt w js n s new
        ≡ start_game_callback qt w js n
            (record s { info = (get_game_status qt s.info).1 })
            new
            only_push_streamr
  unfolding restart_stream eq_ℤ
  restart_stream-running n s new e z = rw (e, z) refl

  -- What is read of the three members, and of another one, after they were set.
  rates_value-text :
      SetTextLaws js
      → (u : js.Value) (framerate bitrate deadline : String) → js.is_object u ≡ true
      → let x = rates_value qt w js u framerate bitrate deadline in
        (js.text (js.get x "framerate") ≡ some (qt.to_local framerate))
        × (js.text (js.get x "bitrate") ≡ some (qt.to_local bitrate))
        × (js.text (js.get x "deadline") ≡ some (qt.to_local deadline))
  unfolding rates_value
  rates_value-text l u f b d o =
      let u1 = js.set_text u "framerate" (qt.to_local f) in
      let o1 = l.set_text_object u "framerate" (qt.to_local f) o in
      let u2 = js.set_text u1 "bitrate" (qt.to_local b) in
      let o2 = l.set_text_object u1 "bitrate" (qt.to_local b) o1 in
      let last = λ (j : String) (e : str_eq "deadline" j ≡ false).
        l.get-other u2 "deadline" j (qt.to_local d) o2 e in
      (
        ap js.text
              (last "framerate" refl ∙ l.get-other u1 "bitrate" "framerate" (qt.to_local b) o1 refl)
            ∙ l.get-set u "framerate" (qt.to_local f) o,
        ap js.text (last "bitrate" refl) ∙ l.get-set u1 "bitrate" (qt.to_local b) o1,
        l.get-set u2 "deadline" (qt.to_local d) o2,
      )

  rates_value-other :
      SetTextLaws js
      → (u : js.Value) (framerate bitrate deadline name : String) → js.is_object u ≡ true
      → str_eq "framerate" name ≡ false
      → str_eq "bitrate" name ≡ false
      → str_eq "deadline" name ≡ false
      → js.get (rates_value qt w js u framerate bitrate deadline) name ≡ js.get u name
  unfolding rates_value
  rates_value-other l u f b d name o ne_f ne_b ne_d =
      let u1 = js.set_text u "framerate" (qt.to_local f) in
      let o1 = l.set_text_object u "framerate" (qt.to_local f) o in
      let u2 = js.set_text u1 "bitrate" (qt.to_local b) in
      let o2 = l.set_text_object u1 "bitrate" (qt.to_local b) o1 in
      l.get-other u2 "deadline" name (qt.to_local d) o2 ne_d
      ∙ l.get-other u1 "bitrate" name (qt.to_local b) o1 ne_b
      ∙ l.get-other u "framerate" name (qt.to_local f) o ne_f

  -- What the callback records and starts with.
  change_resolution-records :
      (n : ℕ) (s : Session qt) (st : qt.Settings)
      (data_text framerate bitrate deadline old : String) (v u : js.Value)
      → SettingsLaws qt
      → KeysApart qt
      → init_deal_ini_file qt s.info ≡ some (some st)
      → (get_game_info qt s.info).0 ≡ old
      → is_empty old ≡ false
      → js.parse old ≡ some u
      → (get_game_status qt s.info).0 ≡ pos 1
      → is_empty data_text ≡ false
      → js.parse data_text ≡ some v
      → HasText js v "framerate" framerate
      → HasText js v "bitrate" bitrate
      → HasText js v "deadline" deadline
      → is_empty framerate ≡ false
      → is_empty bitrate ≡ false
      → is_empty deadline ≡ false
      → is_empty (with_rates qt w js u framerate bitrate deadline) ≡ false
      → (i : GameInfo qt) × (change_resolution_callback qt w js n s data_text
          ≡ start_game_callback qt w js n
              (record s { info = i })
              (with_rates qt w js u framerate bitrate deadline)
              only_push_streamr)
        × Reads qt i
            (qt.to_local (with_rates qt w js u framerate bitrate deadline))
            (get_game_id qt s.info).0
            (pos 1)
  unfolding change_resolution_callback change_parsed
  change_resolution-records n s st data_text framerate bitrate deadline old v u l keys o g ne p z de
        dp f b d fe be dne we =
      let new = with_rates qt w js u framerate bitrate deadline in
      let i = record_params qt s.info new in
      let reads : Reads qt i (qt.to_local new) (get_game_id qt s.info).0 (pos 1) =
        subst (Reads qt i (qt.to_local new) (get_game_id qt s.info).0) z
          (record_params-Reads qt l keys s.info st new o) in
      let changed =
        modifiy_start_params-recorded s.info framerate bitrate deadline old u fe be dne g ne p
        ∙ ap (λ j. (j, new)) (record_params-opened s.info new) in
      let started =
        restart_stream-running n (record s { info = i }) new we reads.2
        ∙ ap (λ j. start_game_callback qt w js n (record s { info = j }) new only_push_streamr)
            (get_game_status-params s.info new) in
      (
        i,
        rw
            (
              change_resolution_callback,
              dp,
              de,
              change_parsed,
              optional_text-is v "framerate" framerate f,
              optional_text-is v "bitrate" bitrate b,
              optional_text-is v "deadline" deadline d,
              changed,
            )
            started,
        reads,
      )

  -- A ChangeResolution message with its three texts, none of them empty, while the recorded status is 1
  -- and the recorded parameters are a JSON object. The stream is started again with a text, the
  -- keyboard is not, and that text is recorded, with the id and the status of before. Parsed, it has
  -- the three new values, in their local encoding, under the three names, and under any other name
  -- what the recorded parameters had. The status file is open or there to be opened; jsoncpp reads
  -- back what it sets, and parses the new text back.
  pub change_resolution_callback-Reads :
      (n : ℕ) (s : Session qt) (st : qt.Settings)
      (data_text framerate bitrate deadline old name : String) (v u : js.Value)
      → SettingsLaws qt
      → KeysApart qt
      → SetTextLaws js
      → init_deal_ini_file qt s.info ≡ some (some st)
      → (get_game_info qt s.info).0 ≡ old
      → is_empty old ≡ false
      → js.parse old ≡ some u
      → js.is_object u ≡ true
      → (get_game_status qt s.info).0 ≡ pos 1
      → is_empty data_text ≡ false
      → js.parse data_text ≡ some v
      → HasText js v "framerate" framerate
      → HasText js v "bitrate" bitrate
      → HasText js v "deadline" deadline
      → is_empty framerate ≡ false
      → is_empty bitrate ≡ false
      → is_empty deadline ≡ false
      → is_empty (with_rates qt w js u framerate bitrate deadline) ≡ false
      → js.parse (with_rates qt w js u framerate bitrate deadline)
        ≡ some (rates_value qt w js u framerate bitrate deadline)
      → str_eq "framerate" name ≡ false
      → str_eq "bitrate" name ≡ false
      → str_eq "deadline" name ≡ false
      → (i : GameInfo qt) × (new : String) × (x : js.Value) × (change_resolution_callback qt w js n
            s data_text
          ≡ start_game_callback qt w js n (record s { info = i }) new only_push_streamr)
        × Reads qt i (qt.to_local new) (get_game_id qt s.info).0 (pos 1)
        × (js.parse new ≡ some x)
        × (js.text (js.get x "framerate") ≡ some (qt.to_local framerate))
        × (js.text (js.get x "bitrate") ≡ some (qt.to_local bitrate))
        × (js.text (js.get x "deadline") ≡ some (qt.to_local deadline))
        × (js.get x name ≡ js.get u name)
  change_resolution_callback-Reads n s st data_text framerate bitrate deadline old name v u l keys
        laws o g ne p ob z de dp f b d fe be dne we parsed ne_f ne_b ne_d =
      let (i, started, reads) =
        change_resolution-records n s st data_text framerate bitrate deadline old v u l keys o g ne
          p z de dp f b d fe be dne we in
      let (tf, tb, td) = rates_value-text laws u framerate bitrate deadline ob in
      (
        i,
        with_rates qt w js u framerate bitrate deadline,
        rates_value qt w js u framerate bitrate deadline,
        started,
        reads,
        parsed,
        tf,
        tb,
        td,
        rates_value-other laws u framerate bitrate deadline name ob ne_f ne_b ne_d,
      )
