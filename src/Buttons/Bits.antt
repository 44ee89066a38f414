-- ===== src/Buttons/Bits.antt =====
-- The bits of a byte that `BitSet` of cloudstreamer.cpp has written, by tables over all bytes.
use Prim.Native.Nat.{bit_and, bit_or, zero, suc}
use push_streamer_client.Prelude.{
  ℕ, ◌-◌, ◌+◌, ◌*◌, ◌/◌, ◌%◌, ◌^◌, ◌<◌, ◌≡◌, refl, Bool, true, false, ◌||◌, arith, ==_iff, ◌==◌,
  if◌then◌else◌, if-both, Bool-cases, inl, inr,
}
use push_streamer_client.Buttons.{shifted, bit_of, bit_set}

-- Whether the numbers under a bound pass a test.
unfoldable passes : (ℕ → Bool) → ℕ → Bool
passes test zero = true
passes test (suc bound) = if test bound then passes test bound else false

pick : (test : ℕ → Bool) (bound k : ℕ) → k < bound → passes test bound ≡ true → test k ≡ true
unfolding passes
pick test zero k small all = absurd (omega arith)
pick test (suc bound) k small all = elim (Bool-cases (test bound)) [
  | inl here ↦ ground (arith, pick test bound k)
  | inr fails ↦ ground arith
]

unfoldable same : Bool → Bool → Bool
same true b = b
same false true = false
same false false = true

same_sound : (a b : Bool) → same a b ≡ true → a ≡ b
unfolding same
same_sound true true h = refl
same_sound true false h = ground arith
same_sound false true h = ground arith
same_sound false false h = refl

abbrev or_row : ℕ → ℕ → ℕ → Bool
or_row b i j = same (bit_of (bit_or b (2 ^ i) % 256) j) (bit_of b j || i == j)

or_table : passes (λ b. passes (λ i. passes (or_row b i) 8) 8) 256 ≡ true
unfolding passes same bit_of
or_table = refl

or_bit :
    (b i j : ℕ)
    → b < 256
    → i < 8
    → j < 8
    → bit_of (bit_or b (2 ^ i) % 256) j ≡ (bit_of b j || i == j)
or_bit b i j p q r = same_sound _ _ (
    pick (or_row b i) 8 j r (
      pick (λ i. passes (or_row b i) 8) 8 i q
        (pick (λ b. passes (λ i. passes (or_row b i) 8) 8) 256 b p or_table)))

abbrev pub flag_bit : Bool → ℕ
flag_bit true = 1
flag_bit false = 0

abbrev shift_row : Bool → ℕ → ℕ → Bool
shift_row f b i =
    let t = 2 ^ i in
    (if f then bit_or b t % 256 else bit_and b (4294967295 - t) % 256) / t
    == (b / (t * 2)) * 2 + flag_bit f

shift_table : (f : Bool) → passes (λ b. passes (shift_row f b) 8) 256 ≡ true
unfolding passes
shift_table true = refl
shift_table false = refl

shifted-suc : (odd : ℕ → ℕ) (i : ℕ) → i < 32 → shifted odd (suc i) ≡ 2 ^ i
unfolding shifted
shifted-suc odd i h = ground arith

-- The bits of a byte from the one that is written.
pub bit_set_high :
    (odd : ℕ → ℕ) (b i : ℕ) (f : Bool)
    → b < 256
    → i < 8
    → bit_set odd b (suc i) f / 2 ^ i ≡ b / (2 ^ i * 2) * 2 + flag_bit f
unfolding bit_set
bit_set_high odd b i f p q = rw (shifted-suc odd i (omega arith)) (
    (==_iff _ _).0
      (pick (shift_row f b) 8 i q (pick (λ b. passes (shift_row f b) 8) 256 b p (shift_table f))))

-- A bit that is set is the only one that changes.
pub bit_set_bit :
    (odd : ℕ → ℕ) (b i j : ℕ)
    → b < 256
    → i < 8
    → j < 8
    → bit_of (bit_set odd b (suc i) true) j ≡ (bit_of b j || i == j)
unfolding bit_set
bit_set_bit odd b i j p q r = rw (shifted-suc odd i (omega arith)) (or_bit b i j p q r)

pub bit_set-byte : (odd : ℕ → ℕ) (b p : ℕ) (f : Bool) → bit_set odd b p f < 256
unfolding bit_set
bit_set-byte odd b p f = if-both (λ x. x < 256) f (omega arith) (omega arith)

zero_table : passes (λ i. same (bit_of 0 i) false) 8 ≡ true
unfolding passes same bit_of
zero_table = refl

pub bit_of-zero : (i : ℕ) → i < 8 → bit_of 0 i ≡ false
bit_of-zero i h = same_sound _ _ (pick (λ i. same (bit_of 0 i) false) 8 i h zero_table)
