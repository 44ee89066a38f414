-- ===== src/Session/Threads/Safe.antt =====
-- What holds of the result of a callback of cloudstreamer.cpp if it ends.
use push_streamer_client.Prelude.{◌≡◌, refl, Option, none, some}
use push_streamer_client.Session.{Run, done, waiting, aborted, ◌>>=◌}
use push_streamer_client.Session.Messages.{Json, need}

-- A property of the result of a run that ends.
abbrev pub Safe {ℓ κ} : {A : Type ℓ} → (A → Type κ) → Run A → Type κ
Safe P (done a) = P a
Safe P waiting = Unit
Safe P aborted = Unit

pub Safe-bind {ℓ κ μ ν} :
    {A : Type ℓ} {B : Type κ} (P : A → Type μ) (Q : B → Type ν) (r : Run A) (f : A → Run B)
    → Safe P r
    → ((a : A) → P a → Safe Q (f a))
    → Safe Q (r >>= f)
Safe-bind P Q (done a) f h k = k a h
Safe-bind P Q waiting f h k = tt
Safe-bind P Q aborted f h k = tt

pub Safe-any {ℓ} : {A : Type ℓ} (r : Run A) → Safe {ℓ, 0} (λ a. Unit) r
Safe-any (done a) = tt
Safe-any waiting = tt
Safe-any aborted = tt

pub Safe-option {ℓ κ μ} :
    {V : Type μ} {A : Type ℓ} (P : A → Type κ) (o : Option V) (r : Run A) (q : V → Run A)
    → Safe P r
    → ((v : V) → Safe P (q v))
    → Safe P (elim o as (λ _. Run A) [ none ↦ r | some v ↦ q v ])
Safe-option P none r q h k = h
Safe-option P (some v) r q h k = k v

pub Safe-need {ℓ} : (js : Json) {A : Type ℓ} (o : Option A) → Safe (λ a. o ≡ some a) (need js o)
Safe-need js none = tt
Safe-need js (some a) = refl
