-- ===== src/Session/ReportTimer/Tests.antt =====
-- The timer of the reports of cloudstreamer.cpp at concrete inputs: two sign-ins, with a timeout of the
-- first timer that is delivered after the second sign-in.
use push_streamer_client.Prelude.{◌≡◌, refl, List, [], ◌∷◌}
use push_streamer_client.Session.Tests.{qt, late, fresh}
use push_streamer_client.Session.ReportTimer.{
  listed, without, no_timer, start_report_status_timer, disconnect_timer, quit_thread,
  stop_report_status_timer, TimerEvent, signs_in, delivers, times_out, deliver_timeout, timer_step,
  timer_steps,
}
use push_streamer_client.Session.ReportTimer.Laws.{current, timer_steps-single}

abbrev two_sign_ins : List (TimerEvent qt late)
two_sign_ins = signs_in ∷ times_out 0 ∷ signs_in ∷ times_out 0 ∷ delivers ∷ []

-- The second timer is the one that is left, and the posted timeout was delivered.
two_sign_ins-live :
    let c = timer_steps qt late (no_timer qt late fresh) two_sign_ins in
    (c.live ≡ 1 ∷ []) × (c.created ≡ 2) × (c.posted ≡ 0)
unfolding timer_steps timer_step no_timer start_report_status_timer stop_report_status_timer
    disconnect_timer quit_thread listed without deliver_timeout
two_sign_ins-live = (refl, refl, refl)

timer_steps-single_example :
    let c = timer_steps qt late (no_timer qt late fresh) two_sign_ins in
    let r = stop_report_status_timer qt late c in
    (c.live ≡ current c.timer)
    × (c.connected ≡ current c.timer)
    × (c.faults ≡ 0)
    × (r.live ≡ [])
    × (r.connected ≡ [])
    × (r.faults ≡ 0)
timer_steps-single_example = timer_steps-single qt late fresh two_sign_ins
