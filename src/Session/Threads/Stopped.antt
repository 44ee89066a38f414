-- ===== src/Session/Threads/Stopped.antt =====
-- The threads of cloudstreamer.cpp when the recorded status is 0: no interleaving starts a game.
use push_streamer_client.Prelude.{ℕ, Bool, true, false, not, Option, none, some, String, str_eq}
use push_streamer_client.Qt.{Qt, SettingsLaws}
use push_streamer_client.GameInfo.Laws.{KeysApart, FlagTexts}
use push_streamer_client.Session.{World, Session}
use push_streamer_client.Session.Messages.{Json}
use push_streamer_client.Session.Dispatch.{Job}
use push_streamer_client.Session.Threads.{Choice, arrives, runs, Program, threads_of}
use push_streamer_client.Session.Threads.Safe.{Safe}
use push_streamer_client.Session.Threads.Silence.{Still}
use push_streamer_client.Session.Threads.Calm.{AllCalm}

module _ (js : Json) where
  -- The type of a message is StartGame.
  unfoldable pub has_start : js.Value → Bool
  has_start v = elim (js.text (js.get v "type")) [ none ↦ false | some t ↦ str_eq t "StartGame" ]

  unfoldable pub names_start : String → Bool
  names_start message = elim (js.parse message) [ none ↦ false | some v ↦ has_start v ]

  -- A choice other than the arrival of a StartGame message.
  unfoldable pub starts_none : Choice → Bool
  starts_none (arrives message) = not (names_start message)
  starts_none (runs i) = true

module _ (qt : Qt) (w : World) (js : Json) (l : SettingsLaws qt) (keys : KeysApart qt)
    (texts : FlagTexts qt) (k : ℕ) where
  -- The state after a message, with the callback that it starts.
  abbrev pub Heard : Session qt × Option Job → Type 0
  Heard r = Still qt k r.0 × AllCalm (threads_of r.1)

  -- No StartGameCallback runs, no ProtectGstLaunch is between its tests and the end of their round, and the
  -- recorded status is 0.
  abbrev pub Stopped : Program qt w js → Type 0
  Stopped p = Still qt k p.session × AllCalm p.threads
