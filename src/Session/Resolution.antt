-- ===== src/Session/Resolution.antt =====
-- cloudstreamer.cpp: `ChangeResolutionCallback` and `ModifiyStartParams`, which change the recorded
-- parameters of a game and start its stream again.
use push_streamer_client.Prelude.{ℕ, ◌&&◌, ◌||◌, none, some, String, if◌then◌else◌}
use push_streamer_client.Prelude.Int.{pos, eq_ℤ}
use push_streamer_client.Qt.{Qt, is_empty}
use push_streamer_client.GameInfo.{GameInfo, get_game_status, get_game_info, record_params}
use push_streamer_client.Session.{Run, done, ◌>>=◌, World, Session, only_push_streamr}
use push_streamer_client.Session.Messages.{Json, need}
use push_streamer_client.Session.Callbacks.{start_game_callback}

module _ (qt : Qt) (w : World) (js : Json) where
  open js use {Value, get}

  -- A member that is read if it is a text, "" otherwise.
  unfoldable pub optional_text : Value → String → Run String
  optional_text v name =
      let t = need js (js.text (get v name)) in
      if js.is_member v name && js.is_string (get v name) then t else done ""

  -- The recorded parameters with the three values, and their text.
  unfoldable pub rates_value : Value → String → String → String → Value
  rates_value v framerate bitrate deadline =
      js.set_text
        (js.set_text (js.set_text v "framerate" (qt.to_local framerate)) "bitrate"
          (qt.to_local bitrate))
        "deadline" (qt.to_local deadline)

  abbrev pub with_rates : Value → String → String → String → String
  with_rates v framerate bitrate deadline = js.write (rates_value v framerate bitrate deadline)

  -- `ModifiyStartParams`: the state of the status file, and the new parameters, "" if nothing is
  -- recorded.
  unfoldable pub modifiy_start_params :
      GameInfo qt → String → String → String → GameInfo qt × String
  modifiy_start_params i framerate bitrate deadline =
      let (text, i1) = get_game_info qt i in
      let changed = elim (js.parse text) as (λ _. GameInfo qt × String) [
        | none ↦ (i1, "")
        | some v ↦
            let new = with_rates v framerate bitrate deadline in (record_params qt i1 new, new)
      ] in
      if is_empty framerate || (is_empty bitrate || is_empty deadline)
      then (i, "")
      else if is_empty text
      then (i1, "")
      else changed

  -- The end of `ChangeResolutionCallback`.
  unfoldable pub restart_stream : ℕ → Session qt → String → Run (Session qt)
  restart_stream n s new =
      let (status, i) = get_game_status qt s.info in
      let s1 = record s { info = i } in
      let restarted = start_game_callback qt w js n s1 new only_push_streamr in
      if is_empty new then done s else if eq_ℤ status (pos 0) then done s1 else restarted

  unfoldable pub change_parsed : ℕ → Session qt → Value → Run (Session qt)
  change_parsed n s v = do
    framerate ← optional_text v "framerate"
    bitrate ← optional_text v "bitrate"
    deadline ← optional_text v "deadline"
    let r = modifiy_start_params s.info framerate bitrate deadline
    restart_stream n (record s { info = r.0 }) r.1

  -- `ChangeResolutionCallback`. The callback that starts the stream runs in a thread of its own in the
  -- program.
  unfoldable pub change_resolution_callback : ℕ → Session qt → String → Run (Session qt)
  change_resolution_callback n s data_text =
      if is_empty data_text
      then done s
      else elim (js.parse data_text) [ none ↦ done s | some v ↦ change_parsed n s v ]
