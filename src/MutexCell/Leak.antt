-- ===== src/MutexCell/Leak.antt =====
-- What becomes of a mutex that the thread of mutexcellcallback.cpp has locked: `Run` never unlocks it.
use push_streamer_client.Prelude.{
  ℕ, ◌+◌, ◌≤◌, ◌≡◌, ◌⊎◌, refl, ◌∙◌, sym, ap, Bool, true, false, Option, none, some, List, [], ◌∷◌,
  ◌++◌, arith, ◌==◌, ==_iff, if◌then◌else◌, if-both, Bool-cases, inl, inr, subst,
}
use push_streamer_client.MutexCell.{
  MutexCallback, Outcome, Phase, Cell, Reachable, push_callback, pop, pop_first, is_others,
  is_nobody, attempt_in, begin_round, begin_first, begin_element, locked_by_worker, is_free,
  check_time, call, attempt_on, attempt, lock_other, unlock_other, top, trying, is_over, set_owner,
  Owner, worker, other, called, timed_out, skipped, created, pushed, began, tried, locked, unlocked,
  stopped,
}
use push_streamer_client.MutexCell.Queue.{Element, AtWork, Reachable-Accounts}

unfoldable pub is_mutex : ℕ → Option ℕ → Bool
is_mutex m none = false
is_mutex m (some k) = k == m

-- Whether an element was called under a mutex.
unfoldable pub called_under : ℕ → Element → Outcome → ℕ
called_under m (some c) called = if is_mutex m c.mutex then 1 else 0
called_under m _ _ = 0

-- The number of callbacks that were called under a mutex.
unfoldable pub calls_under : ℕ → List (Element × Outcome) → ℕ
calls_under m [] = 0
calls_under m ((c, o) ∷ ps) = called_under m c o + calls_under m ps

calls_under-append :
    (m : ℕ) (xs : List (Element × Outcome)) (c : Element) (o : Outcome)
    → calls_under m (xs ++ (c, o) ∷ []) ≡ calls_under m xs + called_under m c o
unfolding calls_under
calls_under-append m [] c o = omega arith
calls_under-append m ((d, p) ∷ xs) c o = omega (arith, calls_under-append m xs c o)

not_called :
    (m : ℕ) (c : Element) (o : Outcome) → (o ≡ timed_out) ⊎ (o ≡ skipped) → called_under m c o ≡ 0
unfolding called_under
not_called m (some c) called h = ground arith
not_called m (some c) timed_out h = refl
not_called m (some c) skipped h = refl
not_called m none called h = refl
not_called m none timed_out h = refl
not_called m none skipped h = refl

-- A mutex served no callback, or one and the thread holds it.
abbrev pub Once : ℕ → Cell → Type 0
Once m s = (calls_under m s.past ≡ 0) ⊎ ((calls_under m s.past ≡ 1) × (s.owner m ≡ some worker))

pop_first-Once :
    (m : ℕ) (s : Cell) (o : Outcome) (q : List Element)
    → (o ≡ timed_out) ⊎ (o ≡ skipped)
    → Once m s
    → Once m (pop_first s o q)
unfolding pop_first
pop_first-Once m s o [] h a = a
pop_first-Once m s o (c ∷ cs) h a =
    ground (arith, not_called m c o h, calls_under-append m s.past c o)

pop-Once :
    (m : ℕ) (s : Cell) (o : Outcome) → (o ≡ timed_out) ⊎ (o ≡ skipped) → Once m s → Once m (pop s o)
unfolding pop
pop-Once m s o h a = pop_first-Once m s o s.queue h a

check_time-Once :
    (m : ℕ) (s : Cell) (c : MutexCallback) (elapsed : ℕ)
    → Once m s
    → Once m (check_time s c elapsed)
unfolding check_time
check_time-Once m s c elapsed a =
    if-both (Once m) (is_over elapsed c.valid_time) (pop-Once m s timed_out (inl refl) a) a

begin_element-Once :
    (m : ℕ) (s : Cell) (c : MutexCallback) (o : Option ℕ) → Once m s → Once m (begin_element s c o)
unfolding begin_element
begin_element-Once m s c none a = pop-Once m s skipped (inr refl) a
begin_element-Once m s c (some k) a = a

begin_first-Once : (m : ℕ) (s : Cell) (q : List Element) → Once m s → Once m (begin_first s q)
unfolding begin_first
begin_first-Once m s [] a = a
begin_first-Once m s (none ∷ cs) a = pop-Once m s skipped (inr refl) a
begin_first-Once m s (some c ∷ cs) a = begin_element-Once m s c c.mutex a

-- The lock on a mutex that was free.
held-Once :
    (m k : ℕ) (s : Cell)
    → Once m s
    → Once m (record s { owner = set_owner s.owner k (some worker) })
held-Once m k s a = ground arith

is_nobody-none : (o : Option Owner) → is_nobody o ≡ true → o ≡ none
unfolding is_nobody
is_nobody-none none h = refl
is_nobody-none (some o) h = ground arith

is_others-some : (o : Option Owner) → is_others o ≡ true → o ≡ some other
unfolding is_others
is_others-some (some other) h = refl
is_others-some (some worker) h = ground arith
is_others-some none h = ground arith

-- A mutex that the thread does not hold has served no callback.
not_held :
    (m : ℕ) (s : Cell) (o : Option Owner)
    → s.owner m ≡ o
    → (o ≡ none) ⊎ (o ≡ some other)
    → Once m s
    → calls_under m s.past ≡ 0
not_held m s o e h a = ground arith

free-zero :
    (m k : ℕ) (s : Cell)
    → is_free s k ≡ true
    → Once m s
    → (k == m) ≡ true
    → calls_under m s.past ≡ 0
unfolding is_free
free-zero m k s f a e =
    not_held m s none (ap s.owner (sym ((==_iff k m).0 e)) ∙ is_nobody-none (s.owner k) f)
      (inl refl) a

called_under-key :
    (m k : ℕ) (c : MutexCallback)
    → c.mutex ≡ some k
    → called_under m (some c) called ≡ (if k == m then 1 else 0)
unfolding called_under is_mutex
called_under-key m k c n = ap (λ o. if is_mutex m o then 1 else 0) n

call-Once :
    (m k f : ℕ) (s : Cell) (c : MutexCallback) (cs : List Element)
    → s.queue ≡ some c ∷ cs
    → c.mutex ≡ some k
    → is_free s k ≡ true
    → Once m s
    → Once m (call (λ f. false) s k f)
unfolding call pop pop_first
call-Once m k f s c cs e n h a =
    let s1 : Cell = record s { owner = set_owner s.owner k (some worker) } in
    subst (λ q. Once m (pop_first s1 called q)) (sym e)
      (ground (
        arith,
        calls_under-append m s.past (some c) called,
        called_under-key m k c n,
        free-zero m k s h a,
      ))

locked_by_worker-Once :
    (m k elapsed : ℕ) (s : Cell) (c : MutexCallback) (cs : List Element) (o : Option ℕ)
    → s.queue ≡ some c ∷ cs
    → c.mutex ≡ some k
    → is_free s k ≡ true
    → Once m s
    → Once m (locked_by_worker (λ f. false) s c o k elapsed)
unfolding locked_by_worker
locked_by_worker-Once m k elapsed s c cs none e n h a =
    check_time-Once m _ c elapsed (held-Once m k s a)
locked_by_worker-Once m k elapsed s c cs (some f) e n h a = call-Once m k f s c cs e n h a

attempt_on-Once :
    (m k elapsed : ℕ) (s : Cell) (c : MutexCallback) (cs : List Element)
    → s.queue ≡ some c ∷ cs
    → c.mutex ≡ some k
    → Once m s
    → Once m (attempt_on (λ f. false) s c k elapsed)
unfolding attempt_on
attempt_on-Once m k elapsed s c cs e n a = elim (Bool-cases (is_free s k)) [
  | inl h ↦ rw h (locked_by_worker-Once m k elapsed s c cs c.callback e n h a)
  | inr h ↦ rw h (check_time-Once m s c elapsed a)
]

attempt_in-Once :
    (m elapsed : ℕ) (s : Cell) (p : Phase)
    → AtWork p s.queue
    → Once m s
    → Once m (attempt_in (λ f. false) s p elapsed)
unfolding attempt_in
attempt_in-Once m elapsed s top w a = a
attempt_in-Once m elapsed s (trying c k) w a = attempt_on-Once m k elapsed s c w.0 w.1 w.2 a

lock_other-Once : (m k : ℕ) (s : Cell) → Once m s → Once m (lock_other s k)
unfolding lock_other
lock_other-Once m k s a = elim (Bool-cases (is_free s k)) [
  | inl h ↦ rw h (ground (arith, free-zero m k s h a))
  | inr h ↦ rw h a
]

unlock_other-Once : (m k : ℕ) (s : Cell) → Once m s → Once m (unlock_other s k)
unfolding unlock_other
unlock_other-Once m k s a = elim (Bool-cases (is_others (s.owner k))) [
  | inl h ↦ rw h (ground (arith, is_others-some (s.owner k) h))
  | inr h ↦ rw h a
]

Reachable-Once : (m : ℕ) (ps : List Element) (s : Cell) → Reachable (λ f. false) ps s → Once m s
unfolding begin_round attempt push_callback calls_under
Reachable-Once m _ _ created = inl refl
Reachable-Once m _ _ (pushed {ps} {s} c r) = Reachable-Once m ps s r
Reachable-Once m _ _ (began {ps} {s} t r) =
    let a = Reachable-Once m ps s r in
    if-both (Once m) s.thread_flag (begin_first-Once m s s.queue a) a
Reachable-Once m _ _ (tried {ps} {s} elapsed r) =
    attempt_in-Once m elapsed s s.phase (Reachable-Accounts (λ f. false) ps s r).1
      (Reachable-Once m ps s r)
Reachable-Once m _ _ (locked {ps} {s} k r) = lock_other-Once m k s (Reachable-Once m ps s r)
Reachable-Once m _ _ (unlocked {ps} {s} k r) = unlock_other-Once m k s (Reachable-Once m ps s r)
Reachable-Once m _ _ (stopped {ps} {s} r) = Reachable-Once m ps s r

-- If no callback unlocks the mutex that it is called under, then under each mutex at most one
-- callback is ever called, whatever the thread and the others do: `Run` locks a mutex and never
-- unlocks it.
pub calls_under-once :
    (m : ℕ) (ps : List Element) (s : Cell) → Reachable (λ f. false) ps s → calls_under m s.past ≤ 1
calls_under-once m ps s r = elim (Reachable-Once m ps s r) [
  | inl e ↦ omega (arith, e)
  | inr e ↦ omega (arith, e.0)
]
