-- ===== src/MutexCell/Drain.antt =====
-- That the thread of mutexcellcallback.cpp gets through the queue, and that `ReleaseQueue` ends.
use push_streamer_client.Prelude.{
  ℕ, zero, suc, ◌≡◌, refl, sym, ap, Bool, true, false, Option, none, some, List, [], ◌∷◌, length,
  All, if◌then◌else◌, if-both, subst,
}
use push_streamer_client.MutexCell.{
  MutexCallback, Outcome, Cell, pop, pop_first, pop_all, release_queue, attempt_in, begin_round,
  begin_first, begin_element, locked_by_worker, is_free, check_time, call, attempt_on, attempt, top,
  trying, is_over, called, timed_out, skipped,
}
use push_streamer_client.MutexCell.Queue.{Element}

-- A round of the thread in which an attempt on the mutex is the last one.
unfoldable pub turn : (ℕ → Bool) → ℕ → Cell → Cell
turn releases elapsed s = attempt releases (begin_round s) elapsed

unfoldable pub turns : (ℕ → Bool) → ℕ → ℕ → Cell → Cell
turns releases elapsed zero s = s
turns releases elapsed (suc n) s = turns releases elapsed n (turn releases elapsed s)

-- The limit of an element has passed.
abbrev pub Over : ℕ → Element → Type 0
Over elapsed none = Unit
Over elapsed (some c) = is_over elapsed c.valid_time ≡ true

-- The thread is before a round, with a given queue.
abbrev pub AtTop : Cell → List Element → Type 0
AtTop s q = (s.phase ≡ top) × (s.thread_flag ≡ true) × (s.queue ≡ q)

pop-AtTop :
    (s : Cell) (o : Outcome) (c : Element) (cs : List Element)
    → s.thread_flag ≡ true
    → s.queue ≡ c ∷ cs
    → AtTop (pop s o) cs
unfolding pop pop_first
pop-AtTop s o c cs t e = subst (λ q. AtTop (pop_first s o q) cs) (sym e) (refl, t, refl)

check_time-AtTop :
    (s : Cell) (c : MutexCallback) (cs : List Element) (elapsed : ℕ)
    → s.thread_flag ≡ true
    → s.queue ≡ some c ∷ cs
    → Over elapsed (some c)
    → AtTop (check_time s c elapsed) cs
unfolding check_time
check_time-AtTop s c cs elapsed t e h = rw h (pop-AtTop s timed_out (some c) cs t e)

locked_by_worker-AtTop :
    (releases : ℕ → Bool) (s : Cell) (c : MutexCallback) (cs : List Element) (o : Option ℕ)
    (m elapsed : ℕ)
    → s.thread_flag ≡ true
    → s.queue ≡ some c ∷ cs
    → Over elapsed (some c)
    → AtTop (locked_by_worker releases s c o m elapsed) cs
unfolding locked_by_worker call
locked_by_worker-AtTop releases s c cs none m elapsed t e h = check_time-AtTop _ c cs elapsed t e h
locked_by_worker-AtTop releases s c cs (some f) m elapsed t e h = pop-AtTop _ called (some c) cs t e

attempt_on-AtTop :
    (releases : ℕ → Bool) (s : Cell) (c : MutexCallback) (cs : List Element) (m elapsed : ℕ)
    → s.thread_flag ≡ true
    → s.queue ≡ some c ∷ cs
    → Over elapsed (some c)
    → AtTop (attempt_on releases s c m elapsed) cs
unfolding attempt_on
attempt_on-AtTop releases s c cs m elapsed t e h =
    if-both (λ r. AtTop r cs) (is_free s m)
      (locked_by_worker-AtTop releases s c cs c.callback m elapsed t e h)
      (check_time-AtTop s c cs elapsed t e h)

attempt-AtTop :
    (releases : ℕ → Bool) (s : Cell) (cs : List Element) (elapsed : ℕ)
    → AtTop s cs
    → AtTop (attempt releases s elapsed) cs
unfolding attempt attempt_in
attempt-AtTop releases s cs elapsed a =
    subst (λ p. AtTop (attempt_in releases s p elapsed) cs) (sym a.0) a

begun-AtTop :
    (releases : ℕ → Bool) (s : Cell) (c : MutexCallback) (cs : List Element) (o : Option ℕ)
    (elapsed : ℕ)
    → s.thread_flag ≡ true
    → s.queue ≡ some c ∷ cs
    → Over elapsed (some c)
    → AtTop (attempt releases (begin_element s c o) elapsed) cs
unfolding begin_element attempt attempt_in
begun-AtTop releases s c cs none elapsed t e h =
    attempt-AtTop releases (pop s skipped) cs elapsed (pop-AtTop s skipped (some c) cs t e)
begun-AtTop releases s c cs (some m) elapsed t e h =
    attempt_on-AtTop releases (record s { phase = trying c m }) c cs m elapsed t e h

first-AtTop :
    (releases : ℕ → Bool) (s : Cell) (c : Element) (cs : List Element) (elapsed : ℕ)
    → s.thread_flag ≡ true
    → s.queue ≡ c ∷ cs
    → Over elapsed c
    → AtTop (attempt releases (begin_first s (c ∷ cs)) elapsed) cs
unfolding begin_first
first-AtTop releases s none cs elapsed t e h =
    attempt-AtTop releases (pop s skipped) cs elapsed (pop-AtTop s skipped none cs t e)
first-AtTop releases s (some c) cs elapsed t e h = begun-AtTop releases s c cs c.mutex elapsed t e h

turn-AtTop :
    (releases : ℕ → Bool) (s : Cell) (c : Element) (cs : List Element) (elapsed : ℕ)
    → AtTop s (c ∷ cs)
    → Over elapsed c
    → AtTop (turn releases elapsed s) cs
unfolding turn begin_round
turn-AtTop releases s c cs elapsed a h =
    let start : Cell → Cell = λ r. attempt releases r elapsed in
    subst (λ b. AtTop (start (if b then begin_first s s.queue else s)) cs) (sym a.1)
      (subst (λ q. AtTop (start (begin_first s q)) cs) (sym a.2)
        (first-AtTop releases s c cs elapsed a.1 a.2 h))

turns-AtTop :
    (releases : ℕ → Bool) (elapsed : ℕ) (s : Cell) (q : List Element)
    → AtTop s q
    → All (Over elapsed) q
    → AtTop (turns releases elapsed (length q) s) []
unfolding turns
turns-AtTop releases elapsed s [] a h = a
turns-AtTop releases elapsed s (c ∷ cs) a h =
    turns-AtTop releases elapsed (turn releases elapsed s) cs
      (turn-AtTop releases s c cs elapsed a h.0) h.1

-- From before a round of a thread that is not stopped, and with a time since the start of each loop
-- of `try_lock` at which every limit has passed, as many rounds as there are elements empty the
-- queue, whoever holds the mutexes.
pub turns_drain :
    (releases : ℕ → Bool) (elapsed : ℕ) (s : Cell)
    → s.phase ≡ top
    → s.thread_flag ≡ true
    → All (Over elapsed) s.queue
    → (turns releases elapsed (length s.queue) s).queue ≡ []
turns_drain releases elapsed s p t h = (turns-AtTop releases elapsed s s.queue (p, t, refl) h).2

pop_all-nil : (q : List Element) → pop_all q ≡ []
unfolding pop_all
pop_all-nil [] = refl
pop_all-nil (c ∷ cs) = pop_all-nil cs

release_queue-stopped :
    (n : ℕ) (s : Cell) (q : List Element)
    → release_queue (suc (suc n)) (record s { thread_flag = false; queue = q })
      ≡ some (record s { thread_flag = false; queue = [] })
unfolding release_queue
release_queue-stopped n s [] = refl
release_queue-stopped n s (c ∷ cs) =
    ap (λ q. release_queue (suc n) (record s { thread_flag = false; queue = q }))
      (pop_all-nil (c ∷ cs))

release_queue-fields :
    (n : ℕ) (s : Cell) (b : Bool) (q : List Element)
    → release_queue (suc (suc (suc n))) (record s { thread_flag = b; queue = q })
      ≡ some (record s { thread_flag = false; queue = [] })
unfolding release_queue
release_queue-fields n s true q = release_queue-stopped n s q
release_queue-fields n s false q = release_queue-stopped (suc n) s q

-- `ReleaseQueue` alone comes to an end, in three rounds: the queue is empty and the flag is cleared.
pub release_queue-ends :
    (n : ℕ) (s : Cell)
    → release_queue (suc (suc (suc n))) s ≡ some (record s { thread_flag = false; queue = [] })
release_queue-ends n s = release_queue-fields n s s.thread_flag s.queue
