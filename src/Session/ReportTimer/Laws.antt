-- ===== src/Session/ReportTimer/Laws.antt =====
-- The theorems of the timer of cloudstreamer.cpp that reports the state of the game.
use push_streamer_client.Prelude.{
  ℕ, zero, suc, ◌≡◌, refl, ◌∙◌, sym, ap, subst, true, Option, none, some, List, [], ◌∷◌, ==_iff,
  ◌==◌, ◌&&◌, if-both,
}
use push_streamer_client.Qt.{Qt}
use push_streamer_client.Session.{World, Session}
use push_streamer_client.Session.ReportTimer.{
  listed, without, ReportTimer, no_timer, start_report_status_timer, disconnect_timer, quit_thread,
  stop_report_status_timer, TimerEvent, signs_in, delivers, times_out, deliver_timeout, timer_step,
  timer_steps,
}

abbrev pub current : Option ℕ → List ℕ
current none = []
current (some i) = i ∷ []

==_refl : (i : ℕ) → (i == i) ≡ true
==_refl i = (==_iff i i).1 refl

module _ (qt : Qt) (w : World) where
  -- The timer of the thread is the one of the pointer, and it is the only one.
  pub record IsSingle (c : ReportTimer qt) : Type 0 where
    pub live_is : c.live ≡ current c.thread
    pub connected_is : c.connected ≡ current c.thread
    pub pointer : c.thread ≡ c.timer
    pub safe : c.faults ≡ 0

  -- No timer is left.
  abbrev pub IsCleared : ReportTimer qt → Type 0
  IsCleared c = (c.live ≡ []) × (c.connected ≡ []) × (c.thread ≡ none) × (c.faults ≡ 0)

  remove_only : (i : ℕ) → without i (i ∷ []) ≡ []
  unfolding without
  remove_only i = rw (==_refl i) refl

  find_only : (i : ℕ) → listed i (i ∷ []) ≡ true
  unfolding listed
  find_only i = rw (==_refl i) refl

  -- Without a timer nothing changes; a timer that is not deleted is disconnected and deleted.
  stop_none :
      (c : ReportTimer qt) → c.timer ≡ none → c.thread ≡ none → stop_report_status_timer qt w c ≡ c
  unfolding stop_report_status_timer disconnect_timer quit_thread
  stop_none c p t =
      let disconnected : disconnect_timer qt w c ≡ c = simp (disconnect_timer, p) in
      ap (quit_thread qt w) disconnected ∙ simp (quit_thread, t)

  stop_some :
      (c : ReportTimer qt) (i : ℕ)
      → c.timer ≡ some i
      → c.thread ≡ some i
      → listed i c.live ≡ true
      → stop_report_status_timer qt w c ≡ record c {
        live = without i c.live;
        connected = without i (without i c.connected);
        thread = none;
      }
  unfolding stop_report_status_timer disconnect_timer quit_thread
  stop_some c i p t l =
      let c' : ReportTimer qt = record c { connected = without i c.connected } in
      let disconnected : disconnect_timer qt w c ≡ c' = simp (disconnect_timer, p, l) in
      let quit : quit_thread qt w c' ≡ record c' {
        live = without i c.live;
        connected = without i c'.connected;
        thread = none;
      } =
        simp (quit_thread, t) in
      ap (quit_thread qt w) disconnected ∙ quit

  stop_at :
      (c : ReportTimer qt) (t : Option ℕ)
      → c.timer ≡ t
      → c.thread ≡ t
      → c.live ≡ current t
      → c.connected ≡ current t
      → c.faults ≡ 0
      → IsCleared (stop_report_status_timer qt w c)
  unfolding without
  stop_at c none p t l n f = subst IsCleared (sym (stop_none c p t)) (l, n, t, f)
  stop_at c (some i) p t l n f =
      subst IsCleared (sym (stop_some c i p t (ap (listed i) l ∙ find_only i))) (
        ap (without i) l ∙ remove_only i,
        ap (λ m. without i (without i m)) n ∙ ap (without i) (remove_only i),
        refl,
        f,
      )

  stop-IsCleared : (c : ReportTimer qt) → IsSingle c → IsCleared (stop_report_status_timer qt w c)
  stop-IsCleared c h = stop_at c c.thread (sym h.pointer) refl h.live_is h.connected_is h.safe

  start-IsSingle : (c : ReportTimer qt) → IsCleared c → IsSingle (start_report_status_timer qt w c)
  unfolding start_report_status_timer
  start-IsSingle c (l, n, t, f) = record {
    live_is = ap (λ m. c.created ∷ m) l;
    connected_is = ap (λ m. c.created ∷ m) n;
    pointer = refl;
    safe = f;
  }

  deliver-IsSingle : (n : ℕ) (c : ReportTimer qt) → IsSingle c → IsSingle (deliver_timeout qt w n c)
  unfolding deliver_timeout
  deliver-IsSingle zero c h = h
  deliver-IsSingle (suc n) c h = record {
    live_is = h.live_is;
    connected_is = h.connected_is;
    pointer = h.pointer;
    safe = h.safe;
  }

  step-IsSingle :
      (c : ReportTimer qt) (e : TimerEvent qt w) → IsSingle c → IsSingle (timer_step qt w c e)
  unfolding timer_step
  step-IsSingle c signs_in h = start-IsSingle _ (stop-IsCleared c h)
  step-IsSingle c delivers h = deliver-IsSingle c.posted c h
  step-IsSingle c (times_out i) h =
      if-both IsSingle (listed i c.live && listed i c.connected)
        (record {
          live_is = h.live_is;
          connected_is = h.connected_is;
          pointer = h.pointer;
          safe = h.safe;
        })
        h

  steps-IsSingle :
      (es : List (TimerEvent qt w)) (c : ReportTimer qt)
      → IsSingle c
      → IsSingle (timer_steps qt w c es)
  unfolding timer_steps
  steps-IsSingle [] c h = h
  steps-IsSingle (e ∷ es) c h = steps-IsSingle es (timer_step qt w c e) (step-IsSingle c e h)

  no_timer-IsSingle : (s : Session qt) → IsSingle (no_timer qt w s)
  unfolding no_timer
  no_timer-IsSingle s = record { live_is = refl; connected_is = refl; pointer = refl; safe = refl }

  -- Whatever SignIn messages and timeouts came, the timer behind the pointer is the only one that is not
  -- deleted and the only one that is connected, and no deleted timer was used. When the timer is
  -- stopped then, no timer is left or connected, and again no deleted timer is used.
  pub timer_steps-single :
      (s : Session qt) (es : List (TimerEvent qt w))
      → let c = timer_steps qt w (no_timer qt w s) es in
        let r = stop_report_status_timer qt w c in
        (c.live ≡ current c.timer)
        × (c.connected ≡ current c.timer)
        × (c.faults ≡ 0)
        × (r.live ≡ [])
        × (r.connected ≡ [])
        × (r.faults ≡ 0)
  timer_steps-single s es =
      let c = timer_steps qt w (no_timer qt w s) es in
      let h = steps-IsSingle es (no_timer qt w s) (no_timer-IsSingle s) in
      let (l, n, t, f) = stop-IsCleared c h in
      (h.live_is ∙ ap current h.pointer, h.connected_is ∙ ap current h.pointer, h.safe, l, n, f)
