-- ===== src/Session/ReportTimer.antt =====
-- cloudstreamer.cpp: the timer that reports the state of the game, `StartReportStatusTimer`,
-- `StopReportStatusTimer` and `GameStatusCallback`. Qt's timers and threads are outside: a timer is its
-- number here, with the lists of those that are not deleted and of those whose `timeout` is connected. A
-- thread runs from its start until `quit` and `wait`, and deletes its timer as it finishes. A timeout is
-- posted to the thread of the session, and stays posted when the timer is disconnected.
pub mod Laws
mod Tests
use push_streamer_client.Prelude.{
  ℕ, zero, suc, Bool, true, false, not, ◌&&◌, ◌||◌, Option, none, some, List, [], ◌∷◌, ◌==◌,
  if◌then◌else◌,
}
use push_streamer_client.Prelude.Int.{pos}
use push_streamer_client.Qt.{Qt}
use push_streamer_client.GameInfo.{record_status}
use push_streamer_client.Session.{World, Session}
use push_streamer_client.Session.Actions.{send_report, active_report_game_status}
use push_streamer_client.Session.Config.{get_value_by_game_id}

unfoldable pub listed : ℕ → List ℕ → Bool
listed i [] = false
listed i (j ∷ js) = j == i || listed i js

unfoldable pub without : ℕ → List ℕ → List ℕ
without i [] = []
without i (j ∷ js) = let rest = without i js in if j == i then rest else j ∷ rest

-- `m_gameStatusTimer` and `m_gameStatusThread`, the latter with the timer that was moved to it. `faults`
-- counts the uses of deleted timers.
pub record ReportTimer (qt : Qt) : Type 0 where
  pub created : ℕ
  pub live : List ℕ
  pub connected : List ℕ
  pub timer : Option ℕ
  pub thread : Option ℕ
  pub posted : ℕ
  pub faults : ℕ
  pub session : Session qt

-- `isUpdate`, which returns false at once.
unfoldable pub is_update : Bool
is_update = false

module _ (qt : Qt) (w : World) where
  -- The constructor.
  unfoldable pub no_timer : Session qt → ReportTimer qt
  no_timer s = record {
    created = 0;
    live = [];
    connected = [];
    timer = none;
    thread = none;
    posted = 0;
    faults = 0;
    session = s;
  }

  -- `StartReportStatusTimer`, which reports at once.
  unfoldable pub start_report_status_timer : ReportTimer qt → ReportTimer qt
  start_report_status_timer c = record c {
    created = suc c.created;
    live = c.created ∷ c.live;
    connected = c.created ∷ c.connected;
    timer = some c.created;
    thread = some c.created;
    session = active_report_game_status qt w c.session;
  }

  -- The `disconnect` of `StopReportStatusTimer`; the pointer to the timer stays.
  unfoldable pub disconnect_timer : ReportTimer qt → ReportTimer qt
  disconnect_timer c = elim c.timer [
    | none ↦ c
    | some i ↦
        if listed i c.live
        then record c { connected = without i c.connected }
        else record c { faults = suc c.faults }
  ]

  -- The end of the thread, which deletes its timer.
  unfoldable pub quit_thread : ReportTimer qt → ReportTimer qt
  quit_thread c = elim c.thread [
    | none ↦ c
    | some i ↦ record c {
      live = without i c.live;
      connected = without i c.connected;
      thread = none;
    }
  ]

  -- `StopReportStatusTimer`.
  unfoldable pub stop_report_status_timer : ReportTimer qt → ReportTimer qt
  stop_report_status_timer c = quit_thread (disconnect_timer c)

  -- `GameStatusCallback`.
  unfoldable pub game_status_callback : Session qt → Session qt
  game_status_callback s =
      let s1 = (get_value_by_game_id qt s s.game_id "gameExeName").0 in
      let s2 = if is_update then record s1 { info = record_status qt s1.info (pos 1) } else s1 in
      send_report qt w s2

  -- A SignIn message; the end of a timer's interval; and the delivery of a posted timeout.
  pub data TimerEvent : Type 0 where
    signs_in delivers : TimerEvent
    times_out : ℕ → TimerEvent

  unfoldable pub deliver_timeout : ℕ → ReportTimer qt → ReportTimer qt
  deliver_timeout zero c = c
  deliver_timeout (suc n) c = record c { posted = n; session = game_status_callback c.session }

  unfoldable pub timer_step : ReportTimer qt → TimerEvent → ReportTimer qt
  timer_step c signs_in = start_report_status_timer (stop_report_status_timer c)
  timer_step c delivers = deliver_timeout c.posted c
  timer_step c (times_out i) =
      if listed i c.live && listed i c.connected then record c { posted = suc c.posted } else c

  unfoldable pub timer_steps : ReportTimer qt → List TimerEvent → ReportTimer qt
  timer_steps c [] = c
  timer_steps c (e ∷ es) = timer_steps (timer_step c e) es
