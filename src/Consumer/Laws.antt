-- ===== src/Consumer/Laws.antt =====
-- The theorems of consumerkeyboardvalue.h: callbacks run once each, in the order of production.
use mathlib.Core.List.{append_assoc, append-nil}
use mathlib.Core.Option
use push_streamer_client.Prelude.{
  ℕ, suc, ◌≤◌, ◌≡◌, refl, ◌∙◌, sym, ap, subst, Bool, true, false, List, [], ◌∷◌, ◌++◌, arith,
  length, map, inl, inr, Bool-cases, if◌then◌else◌, none, some,
}
use push_streamer_client.Device.{DeviceCall, run_callback}
use push_streamer_client.Consumer.{
  KeyBoardType, Products, Consumer, Action, produces, rounds, stops, Run, new_consumer, produce,
  consume, round, stop, step, run, same_type, find_type, assign_type, filter_key_type,
  is_filter_out_key_type,
}

-- What a schedule produces, in order.
abbrev pub produced : List Action → List Products
produced [] = []
produced (produces p ∷ as') = p ∷ produced as'
produced (rounds ok ∷ as') = produced as'
produced (stops ∷ as') = produced as'

-- A list of products, run in order with some answers of the device, makes these calls.
pub data Ran : List Products → List DeviceCall → Type 0 where
  nothing : Ran [] []
  next :
      {ps : List Products} {ds : List DeviceCall} (p : Products) (ok : Bool)
      → Ran ps ds
      → Ran (p ∷ ps) (run_callback p.callback ok ++ ds)

-- The calls of a run, and the queue that it leaves, account for the products in order: some first
-- part of them ran, and the rest is queued.
pub record Accounts (ps : List Products) (c : Consumer) (ds : List DeviceCall) : Type 0 where
  pub done : List Products
  pub split : ps ≡ done ++ c.keyboard_vector
  pub ran : Ran done ds

Ran-append :
    {ps : List Products} {ds : List DeviceCall} (qs : List Products) (es : List DeviceCall)
    → Ran ps ds
    → Ran qs es
    → Ran (ps ++ qs) (ds ++ es)
Ran-append qs es nothing r = r
Ran-append qs es (next {ds = ds} p ok t) r =
    rw (append_assoc (run_callback p.callback ok) ds es) (next p ok (Ran-append qs es t r))

Ran-one : (p : Products) (ok : Bool) → Ran (p ∷ []) (run_callback p.callback ok)
Ran-one p ok = rw (sym (append-nil (run_callback p.callback ok))) (next p ok nothing)

consume-Accounts :
    (ps : List Products) (c : Consumer) (qs : List Products) (ds : List DeviceCall) (ok : Bool)
    → c.keyboard_vector ≡ qs
    → Accounts ps c ds
    → Accounts ps (consume c qs ok).0 (ds ++ (consume c qs ok).1)
unfolding consume
consume-Accounts ps c [] ds ok e a = rw (append-nil ds) a
consume-Accounts ps c (q ∷ qs) ds ok e a = record {
  done = a.done ++ q ∷ [];
  split = a.split ∙ ap (◌++◌ a.done) e ∙ sym (append_assoc a.done (q ∷ []) qs);
  ran = Ran-append (q ∷ []) (run_callback q.callback ok) a.ran (Ran-one q ok);
}

round-running :
    (c : Consumer) (ok : Bool) → c.thread_flag ≡ true → round c ok ≡ consume c c.keyboard_vector ok
unfolding round
round-running c ok e = ap (λ b. if b then consume c c.keyboard_vector ok else (c, [])) e

round-stopped : (c : Consumer) (ok : Bool) → c.thread_flag ≡ false → round c ok ≡ (c, [])
unfolding round
round-stopped c ok e = ap (λ b. if b then consume c c.keyboard_vector ok else (c, [])) e

round-Accounts :
    (ps : List Products) (c : Consumer) (ds : List DeviceCall) (ok : Bool)
    → Accounts ps c ds
    → Accounts ps (round c ok).0 (ds ++ (round c ok).1)
round-Accounts ps c ds ok a = elim (Bool-cases c.thread_flag) [
  | inl e ↦ rw (round-running c ok e) (consume-Accounts ps c c.keyboard_vector ds ok refl a)
  | inr e ↦ rw (round-stopped c ok e, append-nil ds) a
]

produce-Accounts :
    (ps : List Products) (c : Consumer) (ds : List DeviceCall) (p : Products)
    → Accounts ps c ds
    → Accounts (ps ++ p ∷ []) (produce c p) ds
unfolding produce
produce-Accounts ps c ds p a = record {
  done = a.done;
  split = ap (λ qs. qs ++ p ∷ []) a.split ∙ append_assoc a.done c.keyboard_vector (p ∷ []);
  ran = a.ran;
}

run-Accounts :
    (ps : List Products) (r : Run) (as' : List Action)
    → Accounts ps r.consumer r.calls
    → Accounts (ps ++ produced as') (run r as').consumer (run r as').calls
unfolding run step stop
run-Accounts ps r [] a = rw (append-nil ps) a
run-Accounts ps r (produces p ∷ as') a =
    rw (← append_assoc ps (p ∷ []) (produced as'))
      (run-Accounts (ps ++ p ∷ []) _ as' (produce-Accounts ps r.consumer r.calls p a))
run-Accounts ps r (rounds ok ∷ as') a =
    run-Accounts ps _ as' (round-Accounts ps r.consumer r.calls ok a)
run-Accounts ps r (stops ∷ as') a =
    run-Accounts ps _ as' (record { done = a.done; split = a.split; ran = a.ran })

abbrev pub start : Run
start = record { consumer = new_consumer; calls = [] }

-- Under every interleaving of producing, consuming and stopping, the callbacks are run once each
-- and in the order in which they were produced: the products are a part that has run, whose calls
-- are all the calls made, followed by the queue.
pub run_in_order :
    (as' : List Action) → Accounts (produced as') (run start as').consumer (run start as').calls
unfolding new_consumer
run_in_order as' = run-Accounts [] start as' (record { done = []; split = refl; ran = nothing })

-- A round of the loop, in a step.
abbrev after_round : Run → Consumer × List DeviceCall → Run
after_round r x = record { consumer = x.0; calls = r.calls ++ x.1 }

step-running :
    (r : Run) (ok : Bool)
    → r.consumer.thread_flag ≡ true
    → step r (rounds ok) ≡ after_round r (consume r.consumer r.consumer.keyboard_vector ok)
unfolding step
step-running r ok e = ap (after_round r) (round-running r.consumer ok e)

step-stopped : (r : Run) (ok : Bool) → r.consumer.thread_flag ≡ false → step r (rounds ok) ≡ r
unfolding step
step-stopped r ok e = ap (after_round r) (round-stopped r.consumer ok e) ∙ rw (append-nil r.calls)

consume-length :
    (c : Consumer) (qs : List Products) (ok : Bool) (n : ℕ)
    → c.keyboard_vector ≡ qs
    → length qs ≤ suc n
    → length (consume c qs ok).0.keyboard_vector ≤ n
unfolding consume
consume-length c [] ok n e h = omega (arith, ap length e)
consume-length c (q ∷ qs) ok n e h = omega arith

consume-flag :
    (c : Consumer) (qs : List Products) (ok : Bool)
    → (consume c qs ok).0.thread_flag ≡ c.thread_flag
unfolding consume
consume-flag c [] ok = refl
consume-flag c (q ∷ qs) ok = refl

-- While the thread runs, as many rounds as there are products in the queue leave it empty,
-- whatever the device answers.
pub rounds_drain :
    (oks : List Bool) (r : Run)
    → r.consumer.thread_flag ≡ true
    → length r.consumer.keyboard_vector ≤ length oks
    → length (run r (map rounds oks)).consumer.keyboard_vector ≡ 0
unfolding run
rounds_drain [] r t h = omega arith
rounds_drain (ok ∷ oks) r t h =
    let c = consume r.consumer r.consumer.keyboard_vector ok in
    subst (λ q. length (run q (map rounds oks)).consumer.keyboard_vector ≡ 0)
      (sym (step-running r ok t))
      (rounds_drain oks (after_round r c)
        (consume-flag r.consumer r.consumer.keyboard_vector ok ∙ t)
        (consume-length r.consumer r.consumer.keyboard_vector ok (length oks) refl h))

-- After `Stop` no schedule makes another call: what is queued then, or produced later, is lost.
pub stopped_silent :
    (as' : List Action) (r : Run)
    → r.consumer.thread_flag ≡ false
    → ((run r as').calls ≡ r.calls)
      × ((run r as').consumer.keyboard_vector ≡ r.consumer.keyboard_vector ++ produced as')
unfolding run step produce stop
stopped_silent [] r h = (refl, sym (append-nil r.consumer.keyboard_vector))
stopped_silent (produces p ∷ as') r h =
    let (a, b) = stopped_silent as' (record r { consumer = produce r.consumer p }) h in
    (a, b ∙ append_assoc r.consumer.keyboard_vector (p ∷ []) (produced as'))
stopped_silent (rounds ok ∷ as') r h =
    subst
      (λ q.
        ((run q as').calls ≡ r.calls)
        × ((run q as').consumer.keyboard_vector ≡ r.consumer.keyboard_vector ++ produced as'))
      (sym (step-stopped r ok h)) (stopped_silent as' r h)
stopped_silent (stops ∷ as') r h = stopped_silent as' (record r { consumer = stop r.consumer }) refl

same_type_refl : (t : KeyBoardType) → same_type t t ≡ true
unfolding same_type
same_type_refl KeyBoardType.no_type = refl
same_type_refl _ = refl

same_type_eq : (t u : KeyBoardType) → same_type t u ≡ true → t ≡ u
unfolding same_type
same_type_eq t u h = ground arith

find-assign :
    (t u : KeyBoardType) (b : Bool) (m : List (KeyBoardType × Bool))
    → find_type u (assign_type t b m)
      ≡ (if same_type t u then Option.map (λ _. b) (find_type u m) else find_type u m)
unfolding find_type assign_type
find-assign t u b [] = ground arith
find-assign t u b ((v, c) ∷ m) = ground (arith, find-assign t u b m)

-- A type that the map holds reads the flag that `FilterKeyType` set last; other types keep theirs,
-- and a type that the map does not hold stays filtered.
pub filter_key_type_lem :
    (c : Consumer) (t u : KeyBoardType) (b : Bool)
    → is_filter_out_key_type (filter_key_type c t b) u ≡ (
        if same_type t u
        then elim (find_type u c.filter_out_key_map) [ some _ ↦ b | none ↦ false ]
        else is_filter_out_key_type c u)
unfolding is_filter_out_key_type filter_key_type
filter_key_type_lem c t u b = ground (arith, find-assign t u b c.filter_out_key_map)
