-- ===== src/Hid/Slots.antt =====
-- The five key slots of cloudGame/include/libGetrtpcmd_copy.cpp (`keycodelist`), as a list. The value
-- 0 is a free slot. The functions are the loops of `KeyDown` and `KeyUp` over the slots.
use push_streamer_client.Prelude.{
  ◌≡◌, refl, ◌⊎◌, ◌≢◌, Bool, false, not, ◌&&◌, ◌||◌, List, [], ◌∷◌, arith, length, All,
  if◌then◌else◌,
}
use push_streamer_client.Prelude.Int.{ℤ, pos, eq_ℤ, eq_ℤ_iff}

-- `blnhs`: some slot holds the key.
unfoldable pub held : ℤ → List ℤ → Bool
held k [] = false
held k (x ∷ xs) = eq_ℤ x k || held k xs

-- The first free slot takes the key; with none free nothing happens.
unfoldable pub fill_first : ℤ → List ℤ → List ℤ
fill_first k [] = []
fill_first k (x ∷ xs) = if eq_ℤ x (pos 0) then k ∷ xs else x ∷ fill_first k xs

-- Every slot that holds the key is set free.
unfoldable pub clear : ℤ → List ℤ → List ℤ
clear k [] = []
clear k (x ∷ xs) = (if eq_ℤ x k then pos 0 else x) ∷ clear k xs

-- No key stands in two slots.
abbrev pub Distinct : List ℤ → Type 0
Distinct [] = Unit
Distinct (x ∷ xs) = ((x ≡ pos 0) ⊎ (held x xs ≡ false)) × Distinct xs

pub length-fill_first : (k : ℤ) (xs : List ℤ) → length (fill_first k xs) ≡ length xs
unfolding fill_first
length-fill_first k [] = refl
length-fill_first k (x ∷ xs) = ground (arith, length-fill_first k xs)

pub length-clear : (k : ℤ) (xs : List ℤ) → length (clear k xs) ≡ length xs
unfolding clear
length-clear k [] = refl
length-clear k (x ∷ xs) = ground (arith, length-clear k xs)

-- After a press a key is in a slot if it was, or if it is the key pressed and a slot was free.
pub held-fill_first :
    (j k : ℤ) (xs : List ℤ)
    → j ≢ pos 0
    → held j (fill_first k xs) ≡ (held j xs || (eq_ℤ k j && held (pos 0) xs))
unfolding held fill_first
held-fill_first j k [] h = ground arith
held-fill_first j k (x ∷ xs) h =
    ground (arith, held-fill_first j k xs, eq_ℤ_iff x (pos 0), eq_ℤ_iff x j, eq_ℤ_iff k j)

-- After a release a key is in a slot if it was and is another key.
pub held-clear :
    (j k : ℤ) (xs : List ℤ) → j ≢ pos 0 → held j (clear k xs) ≡ (held j xs && not (eq_ℤ k j))
unfolding held clear
held-clear j k [] h = ground arith
held-clear j k (x ∷ xs) h =
    ground (arith, held-clear j k xs, eq_ℤ_iff x k, eq_ℤ_iff (pos 0) j, eq_ℤ_iff x j, eq_ℤ_iff k j)

pub fill_first-Distinct :
    (k : ℤ) (xs : List ℤ) → held k xs ≡ false → Distinct xs → Distinct (fill_first k xs)
unfolding held fill_first
fill_first-Distinct k [] h d = tt
fill_first-Distinct k (x ∷ xs) h d = ground (
  arith,
  fill_first-Distinct k xs,
  held-fill_first x k xs,
  eq_ℤ_iff x (pos 0),
  eq_ℤ_iff x k,
  eq_ℤ_iff k x,
  d.1,
)

pub clear-Distinct : (k : ℤ) (xs : List ℤ) → Distinct xs → Distinct (clear k xs)
unfolding held clear
clear-Distinct k [] d = tt
clear-Distinct k (x ∷ xs) d =
    ground (arith, clear-Distinct k xs, held-clear x k xs, eq_ℤ_iff x k, d.1)

module _ {ℓ} (P : ℤ → Type ℓ) where
  pub All-fill_first : (k : ℤ) (xs : List ℤ) → P k → All P xs → All P (fill_first k xs)
  unfolding fill_first
  All-fill_first k [] p a = a
  All-fill_first k (x ∷ xs) p a = ground (arith, All-fill_first k xs p a.1)

  pub All-clear : (k : ℤ) (xs : List ℤ) → P (pos 0) → All P xs → All P (clear k xs)
  unfolding clear
  All-clear k [] p a = a
  All-clear k (x ∷ xs) p a = ground (arith, All-clear k xs p a.1)
