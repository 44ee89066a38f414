-- ===== src/MutexCell/Queue.antt =====
-- The order in which the thread of mutexcellcallback.cpp is done with the queue.
use push_streamer_client.Prelude.{
  ℕ, ◌≡◌, refl, ◌∙◌, sym, ap, Bool, Option, none, some, List, [], ◌∷◌, ◌++◌, if-both,
}
use mathlib.Core.List.{append_assoc}
use push_streamer_client.MutexCell.{
  MutexCallback, Outcome, Phase, Cell, Reachable, push_callback, pop, pop_first, is_others,
  attempt_in, begin_round, begin_first, begin_element, locked_by_worker, created, pushed, began,
  tried, locked, unlocked, stopped, is_free, check_time, call, attempt_on, attempt, lock_other,
  unlock_other, top, trying, is_over, called, timed_out, skipped,
}

abbrev pub Element : Type 0
Element = Option MutexCallback

-- The elements that the thread is done with.
abbrev pub finished : List (Element × Outcome) → List Element
finished [] = []
finished ((c, o) ∷ ps) = c ∷ finished ps

finished-append :
    (xs ys : List (Element × Outcome)) → finished (xs ++ ys) ≡ finished xs ++ finished ys
finished-append [] ys = refl
finished-append ((c, o) ∷ xs) ys = ap (c ∷◌) (finished-append xs ys)

-- What is popped and what is still queued are what was pushed; the thread works on the first element.
abbrev pub AtWork : Phase → List Element → Type 0
AtWork top q = Unit
AtWork (trying c m) q = (rest : List Element) × (q ≡ some c ∷ rest) × (c.mutex ≡ some m)

abbrev pub Accounts : List Element → Cell → Type 0
Accounts ps s = (finished s.past ++ s.queue ≡ ps) × AtWork s.phase s.queue

pop_first-Accounts :
    (ps : List Element) (s : Cell) (o : Outcome) (q : List Element)
    → s.queue ≡ q
    → finished s.past ++ s.queue ≡ ps
    → Accounts ps (pop_first s o q)
unfolding pop_first
pop_first-Accounts ps s o [] e h = (h, tt)
pop_first-Accounts ps s o (c ∷ cs) e h = (
  ap (λ l. l ++ cs) (finished-append s.past ((c, o) ∷ []))
      ∙ append_assoc (finished s.past) (c ∷ []) cs
      ∙ ap (λ q. finished s.past ++ q) (sym e)
      ∙ h,
  tt,
)

pop-Accounts :
    (ps : List Element) (s : Cell) (o : Outcome)
    → finished s.past ++ s.queue ≡ ps
    → Accounts ps (pop s o)
unfolding pop
pop-Accounts ps s o h = pop_first-Accounts ps s o s.queue refl h

begin_element-Accounts :
    (ps : List Element) (s : Cell) (c : MutexCallback) (cs : List Element) (o : Option ℕ)
    → s.queue ≡ some c ∷ cs
    → c.mutex ≡ o
    → Accounts ps s
    → Accounts ps (begin_element s c o)
unfolding begin_element
begin_element-Accounts ps s c cs none e n a = pop-Accounts ps s skipped a.0
begin_element-Accounts ps s c cs (some m) e n a = (a.0, (cs, e, n))

begin_first-Accounts :
    (ps : List Element) (s : Cell) (q : List Element)
    → s.queue ≡ q
    → Accounts ps s
    → Accounts ps (begin_first s q)
unfolding begin_first
begin_first-Accounts ps s [] e a = a
begin_first-Accounts ps s (none ∷ cs) e a = pop-Accounts ps s skipped a.0
begin_first-Accounts ps s (some c ∷ cs) e a = begin_element-Accounts ps s c cs c.mutex e refl a

check_time-Accounts :
    (ps : List Element) (s : Cell) (c : MutexCallback) (elapsed : ℕ)
    → Accounts ps s
    → Accounts ps (check_time s c elapsed)
unfolding check_time
check_time-Accounts ps s c elapsed a =
    if-both (Accounts ps) (is_over elapsed c.valid_time) (pop-Accounts ps s timed_out a.0) a

call-Accounts :
    (releases : ℕ → Bool) (ps : List Element) (s : Cell) (m f : ℕ)
    → Accounts ps s
    → Accounts ps (call releases s m f)
unfolding call
call-Accounts releases ps s m f a = pop-Accounts ps _ called a.0

locked_by_worker-Accounts :
    (releases : ℕ → Bool) (ps : List Element) (s : Cell) (c : MutexCallback) (o : Option ℕ)
    (m elapsed : ℕ)
    → Accounts ps s
    → Accounts ps (locked_by_worker releases s c o m elapsed)
unfolding locked_by_worker
locked_by_worker-Accounts releases ps s c none m elapsed a = check_time-Accounts ps _ c elapsed a
locked_by_worker-Accounts releases ps s c (some f) m elapsed a = call-Accounts releases ps s m f a

attempt_on-Accounts :
    (releases : ℕ → Bool) (ps : List Element) (s : Cell) (c : MutexCallback) (m elapsed : ℕ)
    → Accounts ps s
    → Accounts ps (attempt_on releases s c m elapsed)
unfolding attempt_on
attempt_on-Accounts releases ps s c m elapsed a =
    if-both (Accounts ps) (is_free s m)
      (locked_by_worker-Accounts releases ps s c c.callback m elapsed a)
      (check_time-Accounts ps s c elapsed a)

attempt_in-Accounts :
    (releases : ℕ → Bool) (ps : List Element) (s : Cell) (p : Phase) (elapsed : ℕ)
    → Accounts ps s
    → Accounts ps (attempt_in releases s p elapsed)
unfolding attempt_in
attempt_in-Accounts releases ps s top elapsed a = a
attempt_in-Accounts releases ps s (trying c m) elapsed a =
    attempt_on-Accounts releases ps s c m elapsed a

AtWork-push : (p : Phase) (q : List Element) (c : Element) → AtWork p q → AtWork p (q ++ c ∷ [])
AtWork-push top q c w = tt
AtWork-push (trying d m) q c w = (w.0 ++ c ∷ [], ap (λ l. l ++ c ∷ []) w.1, w.2)

push_callback-Accounts :
    (ps : List Element) (s : Cell) (c : Element)
    → Accounts ps s
    → Accounts (ps ++ c ∷ []) (push_callback s c)
unfolding push_callback
push_callback-Accounts ps s c a = (
  sym (append_assoc (finished s.past) s.queue (c ∷ [])) ∙ ap (λ l. l ++ c ∷ []) a.0,
  AtWork-push s.phase s.queue c a.1,
)

-- Whatever the thread and the others do, in every order: the elements that the thread is done with,
-- and then those in the queue, are the elements that were pushed, in their order, each once. While
-- the thread tries a mutex, its copy is the first element of the queue.
pub Reachable-Accounts :
    (releases : ℕ → Bool) (ps : List Element) (s : Cell) → Reachable releases ps s → Accounts ps s
unfolding begin_round attempt lock_other unlock_other
Reachable-Accounts releases _ _ created = (refl, tt)
Reachable-Accounts releases _ _ (pushed {ps} {s} c r) =
    push_callback-Accounts ps s c (Reachable-Accounts releases ps s r)
Reachable-Accounts releases _ _ (began {ps} {s} t r) =
    let a = Reachable-Accounts releases ps s r in
    if-both (Accounts ps) s.thread_flag (begin_first-Accounts ps s s.queue refl a) a
Reachable-Accounts releases _ _ (tried {ps} {s} elapsed r) =
    attempt_in-Accounts releases ps s s.phase elapsed (Reachable-Accounts releases ps s r)
Reachable-Accounts releases _ _ (locked {ps} {s} m r) =
    let a = Reachable-Accounts releases ps s r in if-both (Accounts ps) (is_free s m) a a
Reachable-Accounts releases _ _ (unlocked {ps} {s} m r) =
    let a = Reachable-Accounts releases ps s r in if-both (Accounts ps) (is_others (s.owner m)) a a
Reachable-Accounts releases _ _ (stopped {ps} {s} r) = Reachable-Accounts releases ps s r
