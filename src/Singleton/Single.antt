-- ===== src/Singleton/Single.antt =====
-- `RecordGameInfo::GetInstance` of recordgameinfo.cpp never makes a second object while there is one.
use push_streamer_client.Prelude.{
  ℕ, suc, ◌≡◌, refl, ◌∙◌, sym, ap, subst, false, Option, none, some, List, [], ◌∷◌, ==_iff, ◌⊎◌,
  inl, inr, Option-cases, arith,
}
use push_streamer_client.Singleton.{
  Phase, outside, passed, holding, constructing, leaving, storing, got, tests_then_makes, Singleton,
  no_instance, second_test, first_test, take_lock, stored, instance_turn, delete_object, delete_at,
  Release, idle, deleting, clearing, release_test, release_turn, Move, runs, releases,
  singleton_step, singleton_steps,
}
use push_streamer_client.Singleton.Exclusive.{
  inside, pointed, Linked, Fits, IsOne, absurd_none, goes-IsOne, take-IsOne, stay-IsOne,
  leave-IsOne,
}

first_test-IsOne :
    (s : Singleton) (i : ℕ) (o : Option ℕ)
    → inside (s.phases i) ≡ false
    → IsOne s
    → IsOne (first_test s i o)
unfolding first_test inside
first_test-IsOne s i none n h = goes-IsOne s i passed n refl h
first_test-IsOne s i (some a) n h = goes-IsOne s i leaving n refl h

take_lock-IsOne :
    (s : Singleton) (i : ℕ) (o : Option ℕ) → s.lock ≡ o → IsOne s → IsOne (take_lock s i o)
unfolding take_lock
take_lock-IsOne s i none e h = take-IsOne s i e h
take_lock-IsOne s i (some j) e h = h

Linked-none :
    (p : Release) (live : List ℕ) (o : Option ℕ)
    → o ≡ none
    → Linked p live o
    → (live ≡ []) × (o ≡ none) × (p ≡ idle)
unfolding Linked
Linked-none idle live o n f = (f ∙ ap pointed n, n, refl)
Linked-none deleting live o n (a, f, e) = absurd_none a (sym n ∙ e)
Linked-none clearing live o n (a, f, e) = absurd_none a (sym n ∙ e)

second_test-IsOne :
    (s : Singleton) (i : ℕ) (o : Option ℕ)
    → s.instance_ptr ≡ o
    → s.lock ≡ some i
    → Linked s.release s.live o
    → IsOne s
    → IsOne (second_test tests_then_makes s i o)
unfolding second_test inside Fits
second_test-IsOne s i none e l f h =
    stay-IsOne s i s.made constructing s.live s.instance_ptr l refl
      (Linked-none s.release s.live s.instance_ptr e (subst (Linked s.release s.live) (sym e) f)) h
second_test-IsOne s i (some a) e l f h =
    leave-IsOne s i s.instance_ptr l (subst (Linked s.release s.live) (sym e) f) h

instance_turn-IsOne :
    (s : Singleton) (i : ℕ) (p : Phase)
    → s.phases i ≡ p
    → IsOne s
    → IsOne (instance_turn tests_then_makes s i p)
unfolding instance_turn inside Fits Linked stored
instance_turn-IsOne s i outside e h = first_test-IsOne s i s.instance_ptr (ap inside e) h
instance_turn-IsOne s i passed e h = take_lock-IsOne s i s.lock refl h
instance_turn-IsOne s i holding e h =
    let l = h.exclusive i (ap inside e) in
    second_test-IsOne s i s.instance_ptr refl l
      (subst (λ q. Fits q s.release s.live s.instance_ptr) e (h.fits i l)) h
instance_turn-IsOne s i constructing e h =
    let l = h.exclusive i (ap inside e) in
    let (live, null, calm) = subst (λ q. Fits q s.release s.live s.instance_ptr) e (h.fits i l) in
    stay-IsOne s i (suc s.made) (storing s.made) (s.made ∷ s.live) s.instance_ptr l refl
      (ap (λ os. s.made ∷ os) live, null, calm) h
instance_turn-IsOne s i (storing n) e h =
    let l = h.exclusive i (ap inside e) in
    let (live, null, calm) = subst (λ q. Fits q s.release s.live s.instance_ptr) e (h.fits i l) in
    leave-IsOne s i (some n) l (subst (λ p. Linked p s.live (some n)) (sym calm) live) h
instance_turn-IsOne s i leaving e h = goes-IsOne s i (got s.instance_ptr) (ap inside e) refl h
instance_turn-IsOne s i (got o) e h = goes-IsOne s i outside (ap inside e) refl h

-- A release finds the one object, if the pointer is set.
delete_only : (a : ℕ) (live : List ℕ) → live ≡ a ∷ [] → delete_object a live ≡ []
unfolding delete_object
delete_only a live e = ap (delete_object a) e ∙ rw ((==_iff a a).1 refl) refl

-- The release moves only while no object is made.
moved-Fits :
    (f : Phase) (p q : Release) (live live' : List ℕ) (o o' : Option ℕ)
    → ((A : Type 0) → o ≡ none → p ≡ idle → A)
    → (Linked p live o → Linked q live' o')
    → Fits f p live o
    → Fits f q live' o'
unfolding Fits
moved-Fits constructing p q live live' o o' busy m f = busy _ f.1 f.2
moved-Fits (storing n) p q live live' o o' busy m f = busy _ f.1 f.2
moved-Fits outside p q live live' o o' busy m f = m f
moved-Fits passed p q live live' o o' busy m f = m f
moved-Fits holding p q live live' o o' busy m f = m f
moved-Fits leaving p q live live' o o' busy m f = m f
moved-Fits (got x) p q live live' o o' busy m f = m f

moved-IsOne :
    (s : Singleton) (q : Release) (live : List ℕ) (o : Option ℕ)
    → ((A : Type 0) → s.instance_ptr ≡ none → s.release ≡ idle → A)
    → (Linked s.release s.live s.instance_ptr → Linked q live o)
    → IsOne s
    → IsOne (record s { release = q; live = live; instance_ptr = o })
moved-IsOne s q live o busy m h = record {
  exclusive = h.exclusive;
  locked = h.locked;
  free = λ l. m (h.free l);
  fits =
      λ i l. moved-Fits (s.phases i) s.release q s.live live s.instance_ptr o busy m (h.fits i l);
}

release_test-IsOne :
    (s : Singleton) (o : Option ℕ)
    → s.instance_ptr ≡ o
    → s.release ≡ idle
    → IsOne s
    → IsOne (release_test s o)
unfolding release_test Linked
release_test-IsOne s none e r h = h
release_test-IsOne s (some a) e r h =
    moved-IsOne s deleting s.live s.instance_ptr (λ A n x. absurd_none a (sym n ∙ e))
      (λ f. (a, subst (λ p. Linked p s.live s.instance_ptr) r f ∙ ap pointed e, e)) h

release_turn-IsOne :
    (s : Singleton) (p : Release) → s.release ≡ p → IsOne s → IsOne (release_turn s p)
unfolding release_turn Linked delete_at
release_turn-IsOne s idle r h = release_test-IsOne s s.instance_ptr refl r h
release_turn-IsOne s deleting r h =
    moved-IsOne s clearing (delete_at s.instance_ptr s.live) s.instance_ptr (λ A n x. ground arith)
      (λ f.
        let (a, live, e) = subst (λ p. Linked p s.live s.instance_ptr) r f in
        (a, ap (λ o. delete_at o s.live) e ∙ delete_only a s.live live, e))
      h
release_turn-IsOne s clearing r h =
    moved-IsOne s idle s.live none (λ A n x. ground arith)
      (λ f. (subst (λ p. Linked p s.live s.instance_ptr) r f).1) h

step-IsOne : (s : Singleton) (m : Move) → IsOne s → IsOne (singleton_step tests_then_makes s m)
unfolding singleton_step
step-IsOne s (runs i) h = instance_turn-IsOne s i (s.phases i) refl h
step-IsOne s releases h = release_turn-IsOne s s.release refl h

steps-IsOne :
    (ms : List Move) (s : Singleton) → IsOne s → IsOne (singleton_steps tests_then_makes s ms)
unfolding singleton_steps
steps-IsOne [] s h = h
steps-IsOne (m ∷ ms) s h = steps-IsOne ms (singleton_step tests_then_makes s m) (step-IsOne s m h)

no_instance-IsOne : IsOne no_instance
unfolding no_instance inside Linked
no_instance-IsOne = record {
  exclusive = λ j x. ground arith;
  locked = λ j x. absurd_none j x;
  free = λ x. refl;
  fits = λ j x. absurd_none j x;
}

abbrev AtMostOne : List ℕ → Type 0
AtMostOne live = (live ≡ []) ⊎ ((a : ℕ) × (live ≡ a ∷ []))

Linked-AtMostOne : (p : Release) (live : List ℕ) (o : Option ℕ) → Linked p live o → AtMostOne live
unfolding Linked
Linked-AtMostOne idle live none f = inl f
Linked-AtMostOne idle live (some a) f = inr (a, f)
Linked-AtMostOne deleting live o (a, f, e) = inr (a, f)
Linked-AtMostOne clearing live o (a, f, e) = inl f

Fits-AtMostOne :
    (f : Phase) (p : Release) (live : List ℕ) (o : Option ℕ) → Fits f p live o → AtMostOne live
unfolding Fits
Fits-AtMostOne constructing p live o f = inl f.0
Fits-AtMostOne (storing n) p live o f = inr (n, f.0)
Fits-AtMostOne outside p live o f = Linked-AtMostOne p live o f
Fits-AtMostOne passed p live o f = Linked-AtMostOne p live o f
Fits-AtMostOne holding p live o f = Linked-AtMostOne p live o f
Fits-AtMostOne leaving p live o f = Linked-AtMostOne p live o f
Fits-AtMostOne (got x) p live o f = Linked-AtMostOne p live o f

-- Whatever turns the threads that ask for the instance and the one that releases it have taken, there is
-- one object at most. While no thread has the lock and the release has not begun or is through, the
-- pointer is null and there is no object, or it points to the only object; before the delete it
-- points to the only object; and between the delete and the end of the release it points to an
-- object that is gone, and there is none.
pub get_instance-single :
    (ms : List Move)
    → let s = singleton_steps tests_then_makes no_instance ms in
      ((s.live ≡ []) ⊎ ((a : ℕ) × (s.live ≡ a ∷ [])))
      × (Linked s.release s.live s.instance_ptr ⊎ ((i : ℕ) × (s.lock ≡ some i)))
get_instance-single ms =
    let s = singleton_steps tests_then_makes no_instance ms in
    let h = steps-IsOne ms no_instance no_instance-IsOne in
    elim (Option-cases s.lock) [
      | inl e ↦ (Linked-AtMostOne s.release s.live s.instance_ptr (h.free e), inl (h.free e))
      | inr (i, e) ↦
          (Fits-AtMostOne (s.phases i) s.release s.live s.instance_ptr (h.fits i e), inr (i, e))
    ]
