-- ===== src/Singleton/Tests.antt =====
-- Two threads that ask for the singletons of recordgameinfo.cpp and qlog4qt.cpp at once.
use push_streamer_client.Prelude.{ℕ, ◌≡◌, refl, ◌⊎◌, some, List, [], ◌∷◌, ◌++◌, map}
use push_streamer_client.Prelude.Int.{pos}
use push_streamer_client.Singleton.{
  got, tests_then_makes, makes_then_tests, no_instance, second_test, first_test, take_lock, stored,
  instance_turn, release_turn, release_test, delete_at, delete_object, Move, runs, releases,
  singleton_step, singleton_steps, level_real,
}
use push_streamer_client.Singleton.Single.{get_instance-single}
use push_streamer_client.Singleton.Exclusive.{Linked}
use push_streamer_client.Singleton.Published.{instance-published}

-- Both threads see a null pointer before the first of them makes its object.
abbrev both : List ℕ
both = 0 ∷ 1 ∷ 0 ∷ 0 ∷ 0 ∷ 0 ∷ 0 ∷ 1 ∷ 1 ∷ 1 ∷ 1 ∷ 1 ∷ []

-- `instance` makes a second object, which nothing points to.
second_object :
    let s = singleton_steps makes_then_tests no_instance (map runs both) in
    (s.live ≡ 1 ∷ 0 ∷ []) × (s.instance_ptr ≡ some 0) × (s.phases 1 ≡ got (some 0))
unfolding singleton_steps singleton_step instance_turn first_test take_lock second_test stored
    no_instance
second_object = (refl, refl, refl)

-- `GetInstance` does not.
one_object :
    let s = singleton_steps tests_then_makes no_instance (map runs both) in
    (s.live ≡ 0 ∷ []) × (s.instance_ptr ≡ some 0)
unfolding singleton_steps singleton_step instance_turn first_test take_lock second_test stored
    no_instance
one_object = (refl, refl)

instance-published_example :
    let s = singleton_steps makes_then_tests no_instance (map runs both) in
    (a : ℕ) × (some 0 ≡ some a)
    × ((singleton_steps makes_then_tests s (map runs (2 ∷ 1 ∷ []))).instance_ptr ≡ some a)
unfolding singleton_steps singleton_step instance_turn first_test take_lock second_test stored
    no_instance
instance-published_example = instance-published both (2 ∷ 1 ∷ []) 1 (some 0) refl

abbrev released : List Move
released = map runs both ++ releases ∷ releases ∷ runs 1 ∷ runs 1 ∷ runs 1 ∷ []

get_instance-single_example :
    let s = singleton_steps tests_then_makes no_instance released in
    ((s.live ≡ []) ⊎ ((a : ℕ) × (s.live ≡ a ∷ [])))
    × (Linked s.release s.live s.instance_ptr ⊎ ((i : ℕ) × (s.lock ≡ some i)))
get_instance-single_example = get_instance-single released

-- Between the delete and the end of the release a thread gets the object that is gone.
dangling :
    let s = singleton_steps tests_then_makes no_instance (released ++ runs 1 ∷ []) in
    (s.live ≡ []) × (s.phases 1 ≡ got (some 0))
unfolding singleton_steps singleton_step instance_turn first_test take_lock second_test stored
    no_instance release_turn release_test delete_at delete_object
dangling = (refl, refl)

levels : (level_real (pos 4) ≡ 128) × (level_real (pos 8) ≡ 255) × (level_real (pos 9) ≡ 0)
unfolding level_real
levels = (refl, refl, refl)
