-- ===== src/Session/Threads/Late.antt =====
-- A stop of cloudstreamer.cpp while ProtectGstLaunch is past its test of the status: the stream starts again.
use mathlib.Core.List.{append_assoc}
use push_streamer_client.Prelude.{
  ℕ, suc, ◌≡◌, refl, ◌∙◌, ap, Bool, true, false, some, List, [], ◌∷◌, ◌++◌, String, ltb,
  if◌then◌else◌,
}
use push_streamer_client.Qt.{Qt, is_empty}
use push_streamer_client.Ini.{Ini}
use push_streamer_client.Session.{done, World, Session, close_push, sleep, emit}
use push_streamer_client.Session.Messages.{Json}
use push_streamer_client.Session.Actions.{push_call}
use push_streamer_client.Session.Callbacks.{stop_game_callback}
use push_streamer_client.Session.Protect.{gst_launch_name, protect_round}
use push_streamer_client.Session.Starts.{Named, pid_at}
use push_streamer_client.Session.Streams.{runs_at}
use push_streamer_client.Session.Watch.{protect_round-restarts}
use push_streamer_client.Session.Threads.{
  pushing, checking, stopping, Choice, runs, thread_turn, turn_at, choice_step, schedule,
}

module _ (qt : Qt) (w : World) (js : Json) where
  stop_then_push :
      (n : ℕ) (s r : Session qt) (text : String)
      → stop_game_callback qt w js s text ≡ done r
      → schedule qt w js n
          (record { session = s; threads = pushing ∷ stopping text ∷ [] })
          (runs 1 ∷ runs 0 ∷ [])
        ≡ done (record {
          session = emit qt (protect_round qt w r) (sleep 8000);
          threads = checking ∷ [];
        })
  unfolding schedule choice_step turn_at thread_turn
  stop_then_push n s r text h = rw h refl

  -- A StopGame that runs while ProtectGstLaunch is between its test of the status and the end of the round
  -- is undone by that thread: there is an order of the turns in which the stop returns first, and
  -- then the room is closed and the stream is pushed again with the parameters that it had. The
  -- game is still seen after the stop and the streamer is not, the room can be closed, and the
  -- configuration file names the game's program.
  pub push_outlives_stop :
      (ini : Ini qt) (st : qt.Settings) (n : ℕ) (s r : Session qt) (text name : String)
      → stop_game_callback qt w js s text ≡ done r
      → Named qt w ini st r.game_id name
      → r.config ≡ some ini
      → ltb 0 (pid_at qt w ini st r.game_id name r.now) ≡ true
      → runs_at qt w gst_launch_name (suc r.now) ≡ false
      → is_empty r.push_streamer_params.server_url ≡ false
      → w.close_push_ok (suc (suc r.now)) ≡ true
      → let p = r.push_streamer_params in
        (cs : List Choice) × (q : Session qt) × (schedule qt w js n
            (record { session = s; threads = pushing ∷ stopping text ∷ [] })
            cs
          ≡ done (record { session = q; threads = checking ∷ [] }))
        × (q.effects
            ≡ r.effects
              ++ close_push (qt.to_local p.room_id) (qt.to_local p.server_url)
                ∷ push_call qt w p
                ∷ sleep 8000
                ∷ [])
  push_outlives_stop ini st n s r text name h d o g z e c =
      let p = r.push_streamer_params in
      let closed = close_push (qt.to_local p.room_id) (qt.to_local p.server_url) in
      let (_, pushed) = protect_round-restarts qt w ini st r name d o g z e in
      (
        runs 1 ∷ runs 0 ∷ [],
        emit qt (protect_round qt w r) (sleep 8000),
        stop_then_push n s r text h,
        ap (λ es. es ++ sleep 8000 ∷ []) pushed
            ∙ ap
                (λ (b : Bool).
                  (r.effects ++ closed ∷ (if b then push_call qt w p ∷ [] else []))
                  ++ sleep 8000 ∷ [])
                c
            ∙ append_assoc r.effects (closed ∷ push_call qt w p ∷ []) (sleep 8000 ∷ []),
      )
