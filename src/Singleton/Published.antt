-- ===== src/Singleton/Published.antt =====
-- `QLog::instance` of qlog4qt.cpp: all threads get one object, for ever, though more may be made.
use push_streamer_client.Prelude.{
  ℕ, ◌≡◌, refl, ◌∙◌, ap, subst, Option, none, some, List, [], ◌∷◌, map, ◌==◌, inl, inr, arith,
  Bool-cases,
}
use push_streamer_client.Singleton.{
  Phase, outside, passed, holding, constructing, leaving, storing, got, makes_then_tests, Singleton,
  no_instance, set_phase, second_test, first_test, take_lock, stored, instance_turn, runs,
  singleton_step, singleton_steps,
}

-- A thread that is to return, or has returned, did so with the pointer set.
unfoldable pub Returns : Phase → Option ℕ → Type 0
Returns leaving o = (a : ℕ) × (o ≡ some a)
Returns (got x) o = (a : ℕ) × (x ≡ some a) × (o ≡ some a)
Returns _ o = Unit

abbrev AllReturn : Singleton → Type 0
AllReturn s = (j : ℕ) → Returns (s.phases j) s.instance_ptr

-- One thread moves, and the pointer keeps what it had.
moves-AllReturn :
    (s : Singleton) (i : ℕ) (q : Phase) (o : Option ℕ)
    → Returns q o
    → ((p : Phase) → Returns p s.instance_ptr → Returns p o)
    → AllReturn s
    → (j : ℕ) → Returns (set_phase s.phases i q j) o
moves-AllReturn s i q o r keeps h j = elim (Bool-cases (j == i)) [
  | inl d ↦ rw d r
  | inr d ↦ rw d (keeps (s.phases j) (h j))
]

first_test-AllReturn :
    (s : Singleton) (i : ℕ) (o : Option ℕ)
    → s.instance_ptr ≡ o
    → AllReturn s
    → AllReturn (first_test s i o)
unfolding first_test Returns
first_test-AllReturn s i none e h = moves-AllReturn s i passed s.instance_ptr tt (λ p x. x) h
first_test-AllReturn s i (some a) e h =
    moves-AllReturn s i leaving s.instance_ptr (a, e) (λ p x. x) h

take_lock-AllReturn :
    (s : Singleton) (i : ℕ) (o : Option ℕ) → AllReturn s → AllReturn (take_lock s i o)
unfolding take_lock Returns
take_lock-AllReturn s i none h = moves-AllReturn s i holding s.instance_ptr tt (λ p x. x) h
take_lock-AllReturn s i (some j) h = h

-- A pointer that is set stays, and one is set afterwards.
stored-keeps :
    (n : ℕ) (o : Option ℕ) (p : Phase) → Returns p o → Returns p (stored makes_then_tests n o)
unfolding stored Returns
stored-keeps n (some a) p r = r
stored-keeps n none leaving (a, e) = (n, refl)
stored-keeps n none (got x) (a, e, f) = ground arith
stored-keeps n none outside r = tt
stored-keeps n none passed r = tt
stored-keeps n none holding r = tt
stored-keeps n none constructing r = tt
stored-keeps n none (storing m) r = tt

stored-set : (n : ℕ) (o : Option ℕ) → (a : ℕ) × (stored makes_then_tests n o ≡ some a)
unfolding stored
stored-set n none = (n, refl)
stored-set n (some a) = (a, refl)

turn-AllReturn :
    (s : Singleton) (i : ℕ) (p : Phase)
    → s.phases i ≡ p
    → AllReturn s
    → AllReturn (instance_turn makes_then_tests s i p)
unfolding instance_turn second_test Returns
turn-AllReturn s i outside e h = first_test-AllReturn s i s.instance_ptr refl h
turn-AllReturn s i passed e h = take_lock-AllReturn s i s.lock h
turn-AllReturn s i holding e h = moves-AllReturn s i constructing s.instance_ptr tt (λ p x. x) h
turn-AllReturn s i constructing e h =
    moves-AllReturn s i (storing s.made) s.instance_ptr tt (λ p x. x) h
turn-AllReturn s i (storing n) e h =
    moves-AllReturn s i leaving (stored makes_then_tests n s.instance_ptr)
      (stored-set n s.instance_ptr) (stored-keeps n s.instance_ptr) h
turn-AllReturn s i leaving e h =
    let (a, f) = subst (λ p. Returns p s.instance_ptr) e (h i) in
    moves-AllReturn s i (got s.instance_ptr) s.instance_ptr (a, f, f) (λ p x. x) h
turn-AllReturn s i (got o) e h = moves-AllReturn s i outside s.instance_ptr tt (λ p x. x) h

steps-AllReturn :
    (is : List ℕ) (s : Singleton)
    → AllReturn s
    → AllReturn (singleton_steps makes_then_tests s (map runs is))
unfolding singleton_steps singleton_step
steps-AllReturn [] s h = h
steps-AllReturn (i ∷ is) s h =
    steps-AllReturn is (singleton_step makes_then_tests s (runs i))
      (turn-AllReturn s i (s.phases i) refl h)

first_test-ptr :
    (s : Singleton) (i : ℕ) (o : Option ℕ) → (first_test s i o).instance_ptr ≡ s.instance_ptr
unfolding first_test
first_test-ptr s i none = refl
first_test-ptr s i (some a) = refl

take_lock-ptr :
    (s : Singleton) (i : ℕ) (o : Option ℕ) → (take_lock s i o).instance_ptr ≡ s.instance_ptr
unfolding take_lock
take_lock-ptr s i none = refl
take_lock-ptr s i (some j) = refl

-- A pointer that is set is never replaced.
turn-keeps :
    (s : Singleton) (i a : ℕ) (p : Phase)
    → s.instance_ptr ≡ some a
    → (instance_turn makes_then_tests s i p).instance_ptr ≡ some a
unfolding instance_turn second_test first_test take_lock stored
turn-keeps s i a outside e = first_test-ptr s i s.instance_ptr ∙ e
turn-keeps s i a passed e = take_lock-ptr s i s.lock ∙ e
turn-keeps s i a holding e = e
turn-keeps s i a constructing e = e
turn-keeps s i a (storing n) e = ap (stored makes_then_tests n) e
turn-keeps s i a leaving e = e
turn-keeps s i a (got o) e = e

steps-keep :
    (is : List ℕ) (s : Singleton) (a : ℕ)
    → s.instance_ptr ≡ some a
    → (singleton_steps makes_then_tests s (map runs is)).instance_ptr ≡ some a
unfolding singleton_steps singleton_step
steps-keep [] s a e = e
steps-keep (i ∷ is) s a e =
    steps-keep is (singleton_step makes_then_tests s (runs i)) a (turn-keeps s i a (s.phases i) e)

-- A thread that has returned from `instance`, after any turns of any threads, has got an object, which
-- is the one that the pointer has after any further turns.
pub instance-published :
    (is js : List ℕ) (i : ℕ) (o : Option ℕ)
    → let s = singleton_steps makes_then_tests no_instance (map runs is) in
      s.phases i ≡ got o
      → (a : ℕ) × (o ≡ some a)
        × ((singleton_steps makes_then_tests s (map runs js)).instance_ptr ≡ some a)
unfolding Returns no_instance
instance-published is js i o e =
    let s = singleton_steps makes_then_tests no_instance (map runs is) in
    let start : AllReturn no_instance = λ j. tt in
    let (a, f, g) =
      subst (λ p. Returns p s.instance_ptr) e (steps-AllReturn is no_instance start i) in
    (a, f, steps-keep js s a g)
