-- ===== src/Session/Number.antt =====
-- cloudstreamer.cpp: `generateRandomNumber`, which makes the number of a SignIn message from digits of `qrand`.
use push_streamer_client.Prelude.{
  ℕ, ◌+◌, ◌*◌, ◌%◌, ◌≤◌, ◌≡◌, ◌≢◌, ◌⊎◌, inl, inr, refl, ◌∙◌, ap, sym, ==_iff, Bool, true, false,
  ◌||◌, Option, none, some, List, [], ◌∷◌, arith, ltb, ◌==◌, if◌then◌else◌, Bool-cases,
}

-- A digit that has been used.
abbrev use_digit : (ℕ → Bool) → ℕ → ℕ → Bool
use_digit tag d = λ k. k == d || tag k

-- The loop, with the numbers that `qrand` gives; `none` is a loop that waits for another one. The seed is
-- set anew in each round.
unfoldable pub random_loop : List ℕ → ℕ → (ℕ → Bool) → Option ℕ
random_loop [] four tag = if ltb four 1000 then none else some four
random_loop (r ∷ rs) four tag =
    let skipped = random_loop rs four tag in
    let taken = random_loop rs ((four + r % 10) * 10) (use_digit tag (r % 10)) in
    if ltb four 1000 then (if tag (r % 10) then skipped else taken) else some four

-- `generateRandomNumber`.
unfoldable pub generate_random_number : List ℕ → Option ℕ
generate_random_number draws = random_loop draws 0 (λ d. false)

-- Whether a digit is drawn.
unfoldable pub draws_digit : ℕ → List ℕ → Bool
draws_digit d [] = false
draws_digit d (r ∷ rs) = r % 10 == d || draws_digit d rs

fresh_digit : (tag : ℕ → Bool) (d k : ℕ) → tag d ≡ false → (k == d) ≡ true → tag k ≡ false
fresh_digit tag d k t e = ap tag ((==_iff k d).0 e) ∙ t

-- A digit that is used already may be drawn again.
drawn :
    (tag : ℕ → Bool) (x k : ℕ) (rs : List ℕ)
    → tag (x % 10) ≡ true
    → (tag k || draws_digit k (x ∷ rs)) ≡ true
    → (tag k || draws_digit k rs) ≡ true
unfolding draws_digit
drawn tag x k rs t p = elim (Bool-cases (x % 10 == k)) [
  | inl e ↦ rw (ap tag (sym ((==_iff (x % 10) k).0 e)) ∙ t) refl
  | inr e ↦ ground arith
]

used :
    (tag : ℕ → Bool) (x k : ℕ) (rs : List ℕ)
    → (tag k || draws_digit k (x ∷ rs)) ≡ true
    → (use_digit tag (x % 10) k || draws_digit k rs) ≡ true
unfolding draws_digit
used tag x k rs p = ground arith

module _ (a b c : ℕ) where
  abbrev flag : Bool → ℕ
  flag true = 1
  flag false = 0

  -- The number grows with the digits among three that were used.
  abbrev Grown : ℕ → (ℕ → Bool) → Type 0
  Grown four tag =
      let n = flag (tag a) + flag (tag b) + flag (tag c) in
      ((n ≤ 0) ⊎ (10 ≤ four)) × ((n ≤ 1) ⊎ (100 ≤ four)) × ((n ≤ 2) ⊎ (1000 ≤ four))

  abbrev pub Apart : Type 0
  Apart = (1 ≤ a) × (1 ≤ b) × (1 ≤ c) × (a ≢ b) × (a ≢ c) × (b ≢ c)

  take-Grown :
      (four d : ℕ) (tag : ℕ → Bool)
      → Apart
      → tag d ≡ false
      → Grown four tag
      → Grown ((four + d) * 10) (use_digit tag d)
  take-Grown four d tag h t g =
      ground (arith, fresh_digit tag d a t, fresh_digit tag d b t, fresh_digit tag d c t)

  -- The number is a multiple of 10, and not too large.
  abbrev pub IsSmall : ℕ → Type 0
  IsSmall four = (four % 10 ≡ 0) × (four ≤ 9990)

  abbrev pub Result : Option ℕ → Type 0
  Result o = (n : ℕ) × (o ≡ some n) × (1000 ≤ n) × IsSmall n

  random_loop-Result :
      (rs : List ℕ) (four : ℕ) (tag : ℕ → Bool)
      → Apart
      → Grown four tag
      → IsSmall four
      → (tag a || draws_digit a rs) ≡ true
      → (tag b || draws_digit b rs) ≡ true
      → (tag c || draws_digit c rs) ≡ true
      → Result (random_loop rs four tag)
  unfolding random_loop draws_digit
  random_loop-Result [] four tag h g s p q r =
      let full : (1000 ≤ four) × (ltb four 1000 ≡ false) = ground arith in
      rw full.1 (four, refl, full.0, s)
  random_loop-Result (x ∷ rs) four tag h g s p q r =
      let d = x % 10 in
      elim (Bool-cases (ltb four 1000)) [
        | inr full ↦ rw full (four, refl, ground arith, s)
        | inl open' ↦ elim (Bool-cases (tag d)) [
          | inl t ↦
              rw (open', t)
                (random_loop-Result rs four tag h g s (drawn tag x a rs t p) (drawn tag x b rs t q)
                  (drawn tag x c rs t r))
          | inr t ↦
              rw (open', t)
                (random_loop-Result rs ((four + d) * 10) (use_digit tag d) h
                  (take-Grown four d tag h t g) (ground arith) (used tag x a rs p)
                  (used tag x b rs q) (used tag x c rs r))
        ]
      ]

  -- `generateRandomNumber` ends when the draws have three different digits other than 0, with a multiple of
  -- 10 from 1000 to 9990.
  pub generate_random_number-Result :
      (draws : List ℕ)
      → Apart
      → draws_digit a draws ≡ true
      → draws_digit b draws ≡ true
      → draws_digit c draws ≡ true
      → Result (generate_random_number draws)
  unfolding generate_random_number
  generate_random_number-Result draws h p q r =
      random_loop-Result draws 0 (λ d. false) h (ground arith) (ground arith) p q r
