-- ===== src/Buttons/Pressed.antt =====
-- `ConvertTheSpecialString` of cloudstreamer.cpp: which buttons are pressed in the array of bytes after
-- a change of one button, and of the first buttons of a list.
use Prim.Native.Nat.{zero, suc}
use native.Mathlib.Numerals.{unary_clauses}
use push_streamer_client.Prelude.{
  ℕ, ◌-◌, ◌/◌, ◌%◌, ◌<◌, ◌≤◌, ◌≡◌, refl, ◌∙◌, sym, ap, ap₂, subst, ==_iff, Bool, true, false, ◌||◌,
  some, List, [], ◌∷◌, map, arith, Bool-cases, inl, inr, ◌==◌, if◌then◌else◌, length, get_or, All,
}
use push_streamer_client.Prelude.Int.{pos}
use push_streamer_client.Buttons.{
  bit_set, bit_of, byte_index, byte_position, change_at, set_button, set_buttons,
}
use push_streamer_client.Buttons.Bits.{bit_set_bit, bit_set-byte}

-- The number of a button that has a bit in the array: the code gives no bit to multiples of 8.
abbrev pub IsButton : ℕ → ℕ → Type 0
IsButton bytes k = (1 ≤ k % 8) × (k / 8 < bytes)

-- Whether a button is pressed in the array.
unfoldable pub is_pressed : List ℕ → ℕ → Bool
is_pressed bs k = bit_of (get_or bs (k / 8) 0) (k % 8 - 1)

abbrev pub AllBytes : List ℕ → Type 0
AllBytes bs = All (λ b. b < 256) bs

get_or-first :
    (x b : ℕ) (bs : List ℕ) (j : ℕ)
    → get_or (x ∷ bs) j 0 ≡ (if j == 0 then x else get_or (b ∷ bs) j 0)
get_or-first x b bs zero = refl
get_or-first x b bs (suc j) = ground arith

get_or-rest :
    (x b : ℕ) (r bs : List ℕ) (i : ℕ)
    → ((j : ℕ) → get_or r j 0 ≡ (if j == i then x else get_or bs j 0))
    → (j : ℕ) → get_or (b ∷ r) j 0 ≡ (if j == suc i then x else get_or (b ∷ bs) j 0)
get_or-rest x b r bs i g zero = ground arith
get_or-rest x b r bs i g (suc j) = ground (arith, g j)

change_at-get :
    (bs : List ℕ) (i : ℕ) (f : ℕ → ℕ)
    → ((b : ℕ) → f b < 256)
    → AllBytes bs
    → i < length bs
    → (r : List ℕ) × (change_at bs i f ≡ some r)
      × (length r ≡ length bs)
      × AllBytes r
      × ((j : ℕ) → get_or r j 0 ≡ (if j == i then f (get_or bs i 0) else get_or bs j 0))
unfolding change_at
change_at-get [] i f w a h = absurd (omega arith)
change_at-get (b ∷ bs) zero f w a h = (f b ∷ bs, refl, refl, (w b, a.1), get_or-first (f b) b bs)
change_at-get (b ∷ bs) (suc i) f w a h =
    let (r, e, l, bytes, g) = change_at-get bs i f w a.1 (omega arith) in
    (b ∷ r, rw e refl, ap suc l, (a.0, bytes), get_or-rest (f (get_or bs i 0)) b r bs i g)

get_or-byte : (bs : List ℕ) (i : ℕ) → AllBytes bs → get_or bs i 0 < 256
get_or-byte [] i a = omega arith
get_or-byte (b ∷ bs) zero a = a.0
get_or-byte (b ∷ bs) (suc i) a = get_or-byte bs i a.1

same_bit : (j k : ℕ) → 1 ≤ j % 8 → 1 ≤ k % 8 → k / 8 ≡ j / 8 → (j % 8 - 1 == k % 8 - 1) ≡ (k == j)
same_bit j k hj hk e = ground arith

other_byte : (b : Bool) (j k : ℕ) → (k / 8 == j / 8) ≡ false → b ≡ (b || k == j)
other_byte b j k e = ground arith

bit_set_bit-position :
    (odd : ℕ → ℕ) (b p i : ℕ)
    → b < 256
    → 1 ≤ p
    → p < 9
    → i < 8
    → bit_of (bit_set odd b p true) i ≡ (bit_of b i || p - 1 == i)
bit_set_bit-position odd b zero i hb h p8 hi = absurd (omega arith)
bit_set_bit-position odd b (suc p) i hb h p8 hi =
    simp unary_clauses (bit_set_bit odd b p i hb (omega arith) hi)

pressed_after :
    (odd : ℕ → ℕ) (bs r : List ℕ) (j k : ℕ)
    → AllBytes bs
    → ((i : ℕ)
        → get_or r i 0
          ≡ (if i == j / 8 then bit_set odd (get_or bs (j / 8) 0) (j % 8) true else get_or bs i 0))
    → 1 ≤ j % 8
    → 1 ≤ k % 8
    → is_pressed r k ≡ (is_pressed bs k || k == j)
unfolding is_pressed
pressed_after odd bs r j k a g hj hk = elim (Bool-cases (k / 8 == j / 8)) [
  | inl e ↦
      let byte = get_or bs (j / 8) 0 in
      let here = (==_iff _ _).0 e in
      ap (λ x. bit_of x (k % 8 - 1)) (g (k / 8) ∙ rw e refl)
      ∙ bit_set_bit-position odd byte (j % 8) (k % 8 - 1) (get_or-byte bs (j / 8) a) hj
          (omega arith) (omega (arith, hk))
      ∙ ap₂ (λ x y. x || y) (ap (λ i. bit_of (get_or bs i 0) (k % 8 - 1)) (sym here))
          (same_bit j k hj hk here)
  | inr e ↦ ap (λ x. bit_of x (k % 8 - 1)) (g (k / 8) ∙ rw e refl) ∙ other_byte _ j k e
]

-- A press of one button.
set_button-pressed :
    (odd : ℕ → ℕ) (bs : List ℕ) (j : ℕ)
    → AllBytes bs
    → IsButton (length bs) j
    → (r : List ℕ) × (set_button odd bs (pos j) ≡ some r)
      × (length r ≡ length bs)
      × AllBytes r
      × ((k : ℕ) → 1 ≤ k % 8 → is_pressed r k ≡ (is_pressed bs k || k == j))
unfolding set_button byte_index byte_position
set_button-pressed odd bs j a h =
    let (r, e, l, bytes, g) =
      change_at-get bs (j / 8) (λ b. bit_set odd b (j % 8) true)
        (λ b. bit_set-byte odd b (j % 8) true) a h.1 in
    (r, e, l, bytes, λ k hk. pressed_after odd bs r j k a g h.0 hk)

abbrev pub AllButtons : ℕ → List ℕ → Type 0
AllButtons n js = All (IsButton n) js

-- Whether a number is among the first of a list.
unfoldable pub listed : ℕ → ℕ → List ℕ → Bool
listed n k [] = false
listed zero k (j ∷ js) = false
listed (suc n) k (j ∷ js) = k == j || listed n k js

or_step : (a b c : Bool) → ((a || b) || c) ≡ (a || (b || c))
or_step true b c = refl
or_step false b c = refl

pub set_buttons-pressed :
    (odd : ℕ → ℕ) (n : ℕ) (bs : List ℕ) (js : List ℕ)
    → AllBytes bs
    → AllButtons (length bs) js
    → (r : List ℕ) × (set_buttons odd bs n (map pos js) ≡ some r)
      × (length r ≡ length bs)
      × AllBytes r
      × ((k : ℕ) → 1 ≤ k % 8 → is_pressed r k ≡ (is_pressed bs k || listed n k js))
unfolding set_buttons listed
set_buttons-pressed odd zero bs [] a h = (bs, refl, refl, a, λ k hk. ground arith)
set_buttons-pressed odd zero bs (j ∷ js) a h = (bs, refl, refl, a, λ k hk. ground arith)
set_buttons-pressed odd (suc n) bs [] a h = (bs, refl, refl, a, λ k hk. ground arith)
set_buttons-pressed odd (suc n) bs (j ∷ js) a h =
    let (r1, e1, l1, a1, g1) = set_button-pressed odd bs j a h.0 in
    let (r, e, l, a2, g) =
      set_buttons-pressed odd n r1 js a1 (subst (λ x. AllButtons x js) (sym l1) h.1) in
    (
      r,
      rw (set_buttons, e1) e,
      l ∙ l1,
      a2,
      λ k hk.
          g k hk
          ∙ ap (λ b. b || listed n k js) (g1 k hk)
          ∙ or_step (is_pressed bs k) (k == j) (listed n k js),
    )
