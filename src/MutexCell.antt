-- ===== src/MutexCell.antt =====
-- mutexcellcallback.h and mutexcellcallback.cpp: the class `MutexCellCallback`, a queue of callbacks
-- that a thread calls one after the other, each under a mutex that it tries to lock for a limited
-- time. A mutex and a callback stand for themselves as numbers.
pub mod Queue
pub mod Leak
pub mod Drain
mod Tests
use push_streamer_client.Prelude.{
  ℕ, zero, suc, ◌≡◌, Bool, true, false, Option, none, some, List, [], ◌∷◌, ◌++◌, leb, ◌==◌,
  if◌then◌else◌,
}
use push_streamer_client.Prelude.Int.{ℤ, pos, negsuc}

-- `MutexCallback`: the two pointers may be null.
pub record MutexCallback : Type 0 where
  pub callback : Option ℕ
  pub mutex : Option ℕ
  pub valid_time : ℤ

-- Which thread holds a mutex.
pub data Owner : Type 0 where
  worker other : Owner

-- How the thread is done with an element of the queue: it has called it; it has not got the mutex in
-- time; there was no element or no mutex.
pub data Outcome : Type 0 where
  called timed_out skipped : Outcome

-- Where the thread stands in `Run`: before a round of the loop, or in the loop of `try_lock` with
-- a copy of the first element and its mutex.
pub data Phase : Type 0 where
  top : Phase
  trying : MutexCallback → ℕ → Phase

pub record Cell : Type 0 where
  pub queue : List (Option MutexCallback)
  pub thread_flag : Bool
  pub phase : Phase
  -- who holds each mutex
  pub owner : ℕ → Option Owner
  -- the elements that are popped, with their outcomes
  pub past : List (Option MutexCallback × Outcome)

-- The constructor, when `Run` has set the flag. No mutex is held.
abbrev pub new_cell : Cell
new_cell = record { queue = []; thread_flag = true; phase = top; owner = λ m. none; past = [] }

-- `PushCallback`.
unfoldable pub push_callback : Cell → Option MutexCallback → Cell
push_callback s c = record s { queue = s.queue ++ c ∷ [] }

-- `pop`, with what became of the element.
unfoldable pub pop_first : Cell → Outcome → List (Option MutexCallback) → Cell
pop_first s o [] = record s { phase = top }
pop_first s o (c ∷ cs) = record s { queue = cs; phase = top; past = s.past ++ (c, o) ∷ [] }

unfoldable pub pop : Cell → Outcome → Cell
pop s o = pop_first s o s.queue

abbrev pub set_owner : (ℕ → Option Owner) → ℕ → Option Owner → ℕ → Option Owner
set_owner f m o = λ k. if k == m then o else f k

unfoldable pub is_nobody : Option Owner → Bool
is_nobody none = true
is_nobody (some o) = false

unfoldable pub is_free : Cell → ℕ → Bool
is_free s m = is_nobody (s.owner m)

-- A round of `while(m_threadFlag)` up to the loop of `try_lock`; with an empty queue the wait ends by
-- a notification or its limit, and the round does nothing.
unfoldable pub begin_element : Cell → MutexCallback → Option ℕ → Cell
begin_element s c none = pop s skipped
begin_element s c (some m) = record s { phase = trying c m }

unfoldable pub begin_first : Cell → List (Option MutexCallback) → Cell
begin_first s [] = s
begin_first s (none ∷ cs) = pop s skipped
begin_first s (some c ∷ cs) = begin_element s c c.mutex

unfoldable pub begin_round : Cell → Cell
begin_round s = if s.thread_flag then begin_first s s.queue else s

-- `interTime.count() >= validTime`, in whole milliseconds.
unfoldable pub is_over : ℕ → ℤ → Bool
is_over elapsed (pos n) = leb n elapsed
is_over elapsed (negsuc n) = true

-- The end of a round of the loop of `try_lock`.
unfoldable pub check_time : Cell → MutexCallback → ℕ → Cell
check_time s c elapsed = if is_over elapsed c.valid_time then pop s timed_out else s

-- A callback is called with the mutex held. `releases` says which callbacks unlock it themselves.
unfoldable pub call : (ℕ → Bool) → Cell → ℕ → ℕ → Cell
call releases s m f =
    pop (record s { owner = set_owner s.owner m (if releases f then none else some worker) }) called

-- What the thread does with a mutex that it has got.
unfoldable pub locked_by_worker : (ℕ → Bool) → Cell → MutexCallback → Option ℕ → ℕ → ℕ → Cell
locked_by_worker releases s c none m elapsed =
    check_time (record s { owner = set_owner s.owner m (some worker) }) c elapsed
locked_by_worker releases s c (some f) m elapsed = call releases s m f

-- A round of the loop of `try_lock`, with the time since its start. The attempt on a mutex that the
-- thread itself holds, which is undefined in C++, is one that fails.
unfoldable pub attempt_on : (ℕ → Bool) → Cell → MutexCallback → ℕ → ℕ → Cell
attempt_on releases s c m elapsed =
    if is_free s m
    then locked_by_worker releases s c c.callback m elapsed
    else check_time s c elapsed

unfoldable pub attempt_in : (ℕ → Bool) → Cell → Phase → ℕ → Cell
attempt_in releases s top elapsed = s
attempt_in releases s (trying c m) elapsed = attempt_on releases s c m elapsed

unfoldable pub attempt : (ℕ → Bool) → Cell → ℕ → Cell
attempt releases s elapsed = attempt_in releases s s.phase elapsed

-- Another thread locks a mutex that is free, and unlocks one that it holds.
unfoldable pub lock_other : Cell → ℕ → Cell
lock_other s m = if is_free s m then record s { owner = set_owner s.owner m (some other) } else s

unfoldable pub is_others : Option Owner → Bool
is_others (some other) = true
is_others (some worker) = false
is_others none = false

unfoldable pub unlock_other : Cell → ℕ → Cell
unlock_other s m =
    if is_others (s.owner m) then record s { owner = set_owner s.owner m none } else s

-- The states that the thread and the others reach, with the elements pushed so far.
pub data Reachable (releases : ℕ → Bool) : List (Option MutexCallback) → Cell → Type 0 where
  created : Reachable releases [] new_cell
  pushed :
      {ps : List (Option MutexCallback)} {s : Cell} (c : Option MutexCallback)
      → Reachable releases ps s
      → Reachable releases (ps ++ c ∷ []) (push_callback s c)
  began :
      {ps : List (Option MutexCallback)} {s : Cell}
      → s.phase ≡ top
      → Reachable releases ps s
      → Reachable releases ps (begin_round s)
  tried :
      {ps : List (Option MutexCallback)} {s : Cell} (elapsed : ℕ)
      → Reachable releases ps s
      → Reachable releases ps (attempt releases s elapsed)
  locked :
      {ps : List (Option MutexCallback)} {s : Cell} (m : ℕ)
      → Reachable releases ps s
      → Reachable releases ps (lock_other s m)
  unlocked :
      {ps : List (Option MutexCallback)} {s : Cell} (m : ℕ)
      → Reachable releases ps s
      → Reachable releases ps (unlock_other s m)
  stopped :
      {ps : List (Option MutexCallback)} {s : Cell}
      → Reachable releases ps s
      → Reachable releases ps (record s { thread_flag = false })

-- The inner loop of `ReleaseQueue`.
unfoldable pub pop_all : List (Option MutexCallback) → List (Option MutexCallback)
pop_all [] = []
pop_all (c ∷ cs) = pop_all cs

-- `ReleaseQueue`, with the number of rounds that it may take; the thread is detached, and `join` is
-- not called.
unfoldable pub release_queue : ℕ → Cell → Option Cell
release_queue zero s = none
release_queue (suc n) s =
    let stopping = release_queue n (record s { thread_flag = false }) in
    let emptied = release_queue n (record s { queue = pop_all s.queue }) in
    if s.thread_flag then stopping else elim s.queue [ [] ↦ some s | _ ∷ _ ↦ emptied ]
