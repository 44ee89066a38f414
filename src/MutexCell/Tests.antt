-- ===== src/MutexCell/Tests.antt =====
-- The theorems of the callback queue of mutexcellcallback.cpp at a concrete run: two callbacks under
-- the mutex 7, and one under no mutex.
use push_streamer_client.Prelude.{
  ℕ, ◌≤◌, ◌≡◌, refl, Bool, false, Option, none, some, List, [], ◌∷◌, length,
}
use push_streamer_client.Prelude.Int.{pos}
use push_streamer_client.MutexCell.{
  Cell, new_cell, Reachable, push_callback, pop, pop_first, release_queue, attempt_in, begin_round,
  begin_first, begin_element, locked_by_worker, is_free, is_nobody, check_time, call, attempt_on,
  attempt, is_over, called, timed_out, created, pushed, began, tried,
}
use push_streamer_client.MutexCell.Queue.{Element, Accounts, Reachable-Accounts}
use push_streamer_client.MutexCell.Leak.{calls_under, calls_under-once}
use push_streamer_client.MutexCell.Drain.{turns, turns_drain, release_queue-ends}

abbrev element : ℕ → Option ℕ → Element
element f m = some (record { callback = some f; mutex = m; valid_time = pos 100 })

abbrev nothing_unlocks : ℕ → Bool
nothing_unlocks f = false

abbrev elements : List Element
elements = element 1 (some 7) ∷ element 2 (some 7) ∷ element 3 none ∷ []

abbrev filled : Cell
filled =
    push_callback (push_callback (push_callback new_cell (element 1 (some 7))) (element 2 (some 7)))
      (element 3 none)

filled-Reachable : Reachable nothing_unlocks elements filled
filled-Reachable =
    pushed (element 3 none) (pushed (element 2 (some 7)) (pushed (element 1 (some 7)) created))

abbrev first_called : Cell
first_called = attempt nothing_unlocks (begin_round filled) 0

first_called-Reachable : Reachable nothing_unlocks elements first_called
unfolding push_callback
first_called-Reachable = tried 0 (began refl filled-Reachable)

-- The second callback waits for its mutex until its time is over.
abbrev second_late : Cell
second_late = attempt nothing_unlocks (begin_round first_called) 100

second_late_past :
    second_late.past ≡ (element 1 (some 7), called) ∷ (element 2 (some 7), timed_out) ∷ []
unfolding push_callback begin_round begin_first begin_element attempt attempt_in attempt_on is_free
    is_nobody locked_by_worker call check_time is_over pop pop_first
second_late_past = refl

second_late-Reachable : Reachable nothing_unlocks elements second_late
unfolding push_callback begin_round begin_first begin_element attempt attempt_in attempt_on is_free
    is_nobody locked_by_worker call pop pop_first
second_late-Reachable = tried 100 (began refl first_called-Reachable)

Reachable-Accounts_example : Accounts elements second_late
Reachable-Accounts_example =
    Reachable-Accounts nothing_unlocks elements second_late second_late-Reachable

calls_under-once_example : calls_under 7 second_late.past ≤ 1
calls_under-once_example = calls_under-once 7 elements second_late second_late-Reachable

turns_drain_test : (turns nothing_unlocks 100 (length filled.queue) filled).queue ≡ []
unfolding push_callback is_over
turns_drain_test = turns_drain nothing_unlocks 100 filled refl refl (refl, (refl, (refl, tt)))

release_queue-ends_test :
    release_queue 3 filled ≡ some (record filled { thread_flag = false; queue = [] })
release_queue-ends_test = release_queue-ends 0 filled
