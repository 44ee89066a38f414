-- ===== src/Singleton/Exclusive.antt =====
-- The lock of the singletons of recordgameinfo.cpp and qlog4qt.cpp: one thread is in its scope at most, and
-- what that thread does tells how the objects and the pointer fit.
use push_streamer_client.Prelude.{
  ℕ, ◌≡◌, refl, ◌∙◌, sym, ap, subst, Bool, true, false, Option, none, some, List, [], ◌∷◌, ◌==◌,
  ==_iff, inl, inr, Bool-cases, arith,
}
use push_streamer_client.Singleton.{
  Phase, holding, constructing, leaving, storing, Release, idle, deleting, clearing, Singleton,
  set_phase, goes, unlocks,
}

-- Whether a thread is in the scope of the lock.
unfoldable pub inside : Phase → Bool
inside holding = true
inside constructing = true
inside (storing n) = true
inside _ = false

abbrev pub pointed : Option ℕ → List ℕ
pointed none = []
pointed (some a) = a ∷ []

-- The objects and the pointer while no object is made, by where the release stands: between its delete
-- and its last turn the pointer is left to an object that is gone.
unfoldable pub Linked : Release → List ℕ → Option ℕ → Type 0
Linked idle live o = live ≡ pointed o
Linked deleting live o = (a : ℕ) × (live ≡ a ∷ []) × (o ≡ some a)
Linked clearing live o = (a : ℕ) × (live ≡ []) × (o ≡ some a)

-- The same, by what the thread in the scope of the lock does.
unfoldable pub Fits : Phase → Release → List ℕ → Option ℕ → Type 0
Fits constructing p live o = (live ≡ []) × (o ≡ none) × (p ≡ idle)
Fits (storing n) p live o = (live ≡ n ∷ []) × (o ≡ none) × (p ≡ idle)
Fits _ p live o = Linked p live o

-- One thread at most is in the scope of the lock.
pub record IsOne (s : Singleton) : Type 0 where
  pub exclusive : (j : ℕ) → inside (s.phases j) ≡ true → s.lock ≡ some j
  pub locked : (i : ℕ) → s.lock ≡ some i → inside (s.phases i) ≡ true
  pub free : s.lock ≡ none → Linked s.release s.live s.instance_ptr
  pub fits : (i : ℕ) → s.lock ≡ some i → Fits (s.phases i) s.release s.live s.instance_ptr

-- The new phases of the thread that moves, and of another one.
phase_same : (f : ℕ → Phase) (i : ℕ) (q : Phase) → set_phase f i q i ≡ q
phase_same f i q = rw ((==_iff i i).1 refl) refl

phase_other : (f : ℕ → Phase) (i j : ℕ) (q : Phase) → (j == i) ≡ false → set_phase f i q j ≡ f j
phase_other f i j q d = rw d refl

-- A thread outside the lock moves and stays outside it.
pub goes-IsOne :
    (s : Singleton) (i : ℕ) (q : Phase)
    → inside (s.phases i) ≡ false
    → inside q ≡ false
    → IsOne s
    → IsOne (goes s i q)
goes-IsOne s i q o n h =
    let away : (j : ℕ) → inside (s.phases j) ≡ true → (j == i) ≡ false = λ j x.
      elim (Bool-cases (j == i)) [
        | inl d ↦ ground (arith, ap (λ k. inside (s.phases k)) ((==_iff j i).0 d))
        | inr d ↦ d
      ] in
    record {
      exclusive = λ j x. elim (Bool-cases (j == i)) [
        | inl d ↦ ground arith
        | inr d ↦ h.exclusive j (ap inside (sym (phase_other s.phases i j q d)) ∙ x)
      ];
      locked = λ j x. ap inside (phase_other s.phases i j q (away j (h.locked j x))) ∙ h.locked j x;
      free = λ x. h.free x;
      fits = λ j x.
          subst (λ p. Fits p s.release s.live s.instance_ptr)
            (sym (phase_other s.phases i j q (away j (h.locked j x)))) (h.fits j x);
    }

some_injective : (i j : ℕ) → some i ≡ some j → i ≡ j
some_injective i j e = ground arith

pub absurd_none {ℓ} : {A : Type ℓ} (i : ℕ) → none ≡ some i → A
absurd_none i e = ground arith

-- A thread takes the lock.
pub take-IsOne :
    (s : Singleton) (i : ℕ)
    → s.lock ≡ none
    → IsOne s
    → IsOne (record (goes s i holding) { lock = some i })
unfolding Fits inside
take-IsOne s i l h = record {
  exclusive = λ j x. elim (Bool-cases (j == i)) [
    | inl d ↦ ap some (sym ((==_iff j i).0 d))
    | inr d ↦
        let e = h.exclusive j (ap inside (sym (phase_other s.phases i j holding d)) ∙ x) in
        ground (arith, l, e)
  ];
  locked = λ j x.
      subst (λ k. inside (set_phase s.phases i holding k) ≡ true) (some_injective i j x)
        (ap inside (phase_same s.phases i holding));
  free = λ x. ground arith;
  fits = λ j x.
      subst (λ k. Fits (set_phase s.phases i holding k) s.release s.live s.instance_ptr)
        (some_injective i j x)
        (subst (λ p. Fits p s.release s.live s.instance_ptr) (sym (phase_same s.phases i holding))
          (h.free l));
}

-- The thread with the lock moves and keeps it.
pub stay-IsOne :
    (s : Singleton) (i made : ℕ) (q : Phase) (live : List ℕ) (o : Option ℕ)
    → s.lock ≡ some i
    → inside q ≡ true
    → Fits q s.release live o
    → IsOne s
    → IsOne (record (goes s i q) { live = live; made = made; instance_ptr = o })
stay-IsOne s i made q live o l n f h = record {
  exclusive = λ j x. elim (Bool-cases (j == i)) [
    | inl d ↦ l ∙ ap some (sym ((==_iff j i).0 d))
    | inr d ↦ h.exclusive j (ap inside (sym (phase_other s.phases i j q d)) ∙ x)
  ];
  locked = λ j x.
      subst (λ k. inside (set_phase s.phases i q k) ≡ true) (some_injective i j (sym l ∙ x))
        (ap inside (phase_same s.phases i q) ∙ n);
  free = λ x. ground (arith, l, x);
  fits = λ j x.
      subst (λ k. Fits (set_phase s.phases i q k) s.release live o) (some_injective i j (sym l ∙ x))
        (subst (λ p. Fits p s.release live o) (sym (phase_same s.phases i q)) f);
}

-- The thread with the lock lets it go.
pub leave-IsOne :
    (s : Singleton) (i : ℕ) (o : Option ℕ)
    → s.lock ≡ some i
    → Linked s.release s.live o
    → IsOne s
    → IsOne (record (unlocks s i) { instance_ptr = o })
unfolding inside
leave-IsOne s i o l f h = record {
  exclusive = λ j x. elim (Bool-cases (j == i)) [
    | inl d ↦ ground arith
    | inr d ↦
        let e = h.exclusive j (ap inside (sym (phase_other s.phases i j leaving d)) ∙ x) in
        ground (arith, some_injective i j (sym l ∙ e), (==_iff j i))
  ];
  locked = λ j x. ground arith;
  free = λ x. f;
  fits = λ j x. absurd_none j x;
}
