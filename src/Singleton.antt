-- ===== src/Singleton.antt =====
-- The two singletons of the program, which many threads ask for: `RecordGameInfo::GetInstance` and
-- `ReleaseInstance` of recordgameinfo.cpp, and `QLog::instance` and `QLog::setLevel` of qlog4qt.cpp. Both tests
-- of the pointer, the lock between them, the construction and the assignment are turns of a thread, and
-- any sequence of turns may happen. `ReleaseInstance`, which takes no lock, is three turns of the one
-- thread that calls it, at the end of the program. Objects are numbers. The logger that QLog passes on to is
-- log4qt's.
pub mod Exclusive
pub mod Single
pub mod Published
mod Tests
use push_streamer_client.Prelude.{
  ℕ, suc, Bool, true, false, Option, none, some, List, [], ◌∷◌, ◌==◌, get_or, if◌then◌else◌,
}
use push_streamer_client.Prelude.Int.{ℤ, pos, negsuc}

-- Where a thread stands: it does not ask; it has seen a null pointer; it holds the lock; it is to make an
-- object; it has made one; it is to return; it has returned a pointer.
pub data Phase : Type 0 where
  outside passed holding constructing leaving : Phase
  storing : ℕ → Phase
  got : Option ℕ → Phase

-- How the second test is made: `if(!m_instance)` before the construction in `GetInstance`;
-- `testAndSetOrdered(0, new QLog)` in `instance`, which constructs first.
pub data SecondTest : Type 0 where
  tests_then_makes makes_then_tests : SecondTest

-- Where `ReleaseInstance` stands: it has not begun, or is through; it is to delete the object; it is to
-- set the pointer to null.
pub data Release : Type 0 where
  idle deleting clearing : Release

-- The pointer, the objects that are not deleted, the number of objects made, and which thread has the
-- lock.
pub record Singleton : Type 0 where
  pub instance_ptr : Option ℕ
  pub live : List ℕ
  pub made : ℕ
  pub lock : Option ℕ
  pub release : Release
  pub phases : ℕ → Phase

unfoldable pub no_instance : Singleton
no_instance = record {
  instance_ptr = none;
  live = [];
  made = 0;
  lock = none;
  release = idle;
  phases = λ i. outside;
}

abbrev pub set_phase : (ℕ → Phase) → ℕ → Phase → ℕ → Phase
set_phase f i p = λ k. if k == i then p else f k

abbrev pub goes : Singleton → ℕ → Phase → Singleton
goes s i p = record s { phases = set_phase s.phases i p }

-- The end of the scope of the lock.
abbrev pub unlocks : Singleton → ℕ → Singleton
unlocks s i = record (goes s i leaving) { lock = none }

-- What the second test does with the pointer that it sees.
unfoldable pub second_test : SecondTest → Singleton → ℕ → Option ℕ → Singleton
second_test tests_then_makes s i none = goes s i constructing
second_test tests_then_makes s i (some a) = unlocks s i
second_test makes_then_tests s i o = goes s i constructing

-- The pointer after the object `n` was made.
unfoldable pub stored : SecondTest → ℕ → Option ℕ → Option ℕ
stored tests_then_makes n o = some n
stored makes_then_tests n none = some n
stored makes_then_tests n (some a) = some a

unfoldable pub first_test : Singleton → ℕ → Option ℕ → Singleton
first_test s i none = goes s i passed
first_test s i (some a) = goes s i leaving

unfoldable pub take_lock : Singleton → ℕ → Option ℕ → Singleton
take_lock s i none = record (goes s i holding) { lock = some i }
take_lock s i (some j) = s

-- A turn of the thread `i`.
unfoldable pub instance_turn : SecondTest → Singleton → ℕ → Phase → Singleton
instance_turn t s i outside = first_test s i s.instance_ptr
instance_turn t s i passed = take_lock s i s.lock
instance_turn t s i holding = second_test t s i s.instance_ptr
instance_turn t s i constructing = record (goes s i (storing s.made)) {
  live = s.made ∷ s.live;
  made = suc s.made;
}
instance_turn t s i (storing n) = record (unlocks s i) { instance_ptr = stored t n s.instance_ptr }
instance_turn t s i leaving = goes s i (got s.instance_ptr)
instance_turn t s i (got o) = goes s i outside

unfoldable pub delete_object : ℕ → List ℕ → List ℕ
delete_object i [] = []
delete_object i (j ∷ js) = let rest = delete_object i js in if j == i then rest else j ∷ rest

-- `delete m_instance`.
unfoldable pub delete_at : Option ℕ → List ℕ → List ℕ
delete_at none live = live
delete_at (some a) live = delete_object a live

-- The test of `ReleaseInstance`.
unfoldable pub release_test : Singleton → Option ℕ → Singleton
release_test s none = s
release_test s (some a) = record s { release = deleting }

-- A turn of `ReleaseInstance`.
unfoldable pub release_turn : Singleton → Release → Singleton
release_turn s idle = release_test s s.instance_ptr
release_turn s deleting = record s { live = delete_at s.instance_ptr s.live; release = clearing }
release_turn s clearing = record s { instance_ptr = none; release = idle }

-- What happens: a turn of a thread that asks, or of the one that releases.
pub data Move : Type 0 where
  runs : ℕ → Move
  releases : Move

unfoldable pub singleton_step : SecondTest → Singleton → Move → Singleton
singleton_step t s (runs i) = instance_turn t s i (s.phases i)
singleton_step t s releases = release_turn s s.release

unfoldable pub singleton_steps : SecondTest → Singleton → List Move → Singleton
singleton_steps t s [] = s
singleton_steps t s (m ∷ ms) = singleton_steps t (singleton_step t s m) ms

-- `setLevel`: the level of log4qt for a number; NULL_INT for one that is not in the table.
unfoldable pub level_real : ℤ → ℕ
level_real (pos n) = get_or (0 ∷ 32 ∷ 64 ∷ 96 ∷ 128 ∷ 150 ∷ 182 ∷ 214 ∷ 255 ∷ []) n 0
level_real (negsuc n) = 0
