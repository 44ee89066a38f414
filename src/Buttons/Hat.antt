-- ===== src/Buttons/Hat.antt =====
-- The theorems of `ConvertTheSpecialStringEx` and `Power2` of cloudstreamer.cpp.
use Prim.Native.Nat.{zero, suc}
use native.Mathlib.Numerals.{unary_clauses}
use push_streamer_client.Prelude.{
  ℕ, ◌+◌, ◌*◌, ◌/◌, ◌%◌, ◌^◌, ◌<◌, ◌≤◌, ◌≡◌, refl, ◌∙◌, sym, ap, some, arith, ==_iff, Bool-cases,
  inl, inr, ltb, ◌==◌, length,
}
use push_streamer_client.Prelude.Int.{ℤ, pos, negsuc, wrap_to}
use push_streamer_client.Buttons.{
  bit_set, bit_of, bits, tail, set_bits, convert_the_special_string_ex, power_loop, power2,
}
use push_streamer_client.Buttons.Bits.{flag_bit, bit_set_high, bit_set-byte}

length-bits : (n v : ℕ) → length (bits n v) ≡ n
unfolding bits
length-bits zero v = refl
length-bits (suc n) v = ap suc (length-bits n v)

next_bit : (n v : ℕ) → n < 8 → v % 256 / 2 ^ n ≡ v % 256 / (2 ^ n * 2) * 2 + flag_bit (bit_of v n)
unfolding bit_of
next_bit zero v h = ground arith
next_bit (suc zero) v h = ground arith
next_bit (suc (suc zero)) v h = ground arith
next_bit (suc (suc (suc zero))) v h = ground arith
next_bit (suc (suc (suc (suc zero)))) v h = ground arith
next_bit (suc (suc (suc (suc (suc zero))))) v h = ground arith
next_bit (suc (suc (suc (suc (suc (suc zero)))))) v h = ground arith
next_bit (suc (suc (suc (suc (suc (suc (suc zero))))))) v h = ground arith
next_bit (suc (suc (suc (suc (suc (suc (suc (suc n)))))))) v h = absurd (omega arith)

power_suc : (n : ℕ) → 2 ^ suc n ≡ 2 ^ n * 2
power_suc n = simp unary_clauses (omega arith)

set_bits-bits :
    (odd : ℕ → ℕ) (n v b : ℕ)
    → n ≤ 8
    → b < 256
    → b / 2 ^ n ≡ v % 256 / 2 ^ n
    → set_bits odd b (bits n v) ≡ v % 256
unfolding set_bits bits
set_bits-bits odd zero v b h p e = omega (arith, e)
set_bits-bits odd (suc n) v b h p e =
    let b' = bit_set odd b (suc n) (bit_of v n) in
    let high =
      bit_set_high odd b n (bit_of v n) p (omega arith)
      ∙ ap (λ x. x * 2 + flag_bit (bit_of v n))
          (ap (b /◌) (sym (power_suc n)) ∙ e ∙ ap (v % 256 /◌) (power_suc n))
      ∙ sym (next_bit n v (omega arith)) in
    rw (set_bits, length-bits n v)
      (set_bits-bits odd n v b' (omega arith) (bit_set-byte odd b (suc n) (bit_of v n)) high)

wrap_256 : (v : ℤ) → wrap_to 1024 v % 256 ≡ wrap_to 256 v
unfolding wrap_to
wrap_256 (pos n) = omega arith
wrap_256 (negsuc n) = omega arith

-- The first round writes a bit beyond the byte.
first_round :
    (odd : ℕ → ℕ) (w b : ℕ)
    → set_bits odd b (tail (bits 10 w)) ≡ set_bits odd (bit_set odd b 9 (bit_of w 8)) (bits 8 w)
unfolding tail bits set_bits
first_round odd w b = refl

-- `ConvertTheSpecialStringEx` gives the value's low 8 bits, whatever was in the byte.
pub convert_the_special_string_ex_lem :
    (odd : ℕ → ℕ) (value : ℤ) (result : ℕ)
    → convert_the_special_string_ex odd value result ≡ wrap_to 256 value
unfolding convert_the_special_string_ex
convert_the_special_string_ex_lem odd value result =
    let w = wrap_to 1024 value in
    let b = bit_set odd result 9 (bit_of w 8) in
    let small = bit_set-byte odd result 9 (bit_of w 8) in
    first_round odd w result
    ∙ set_bits-bits odd 8 w b (omega arith) small (omega (arith, small))
    ∙ wrap_256 value

power_loop-some :
    (n v count : ℕ)
    → 2 ≤ v
    → v < 2 ^ suc n
    → (k : ℕ) × (power_loop n v count ≡ some (k + count)) × (2 ^ k ≤ v) × (v < 2 ^ k * 2)
unfolding power_loop
power_loop-some zero v count h l = absurd (omega arith)
power_loop-some (suc n) v count h l = elim (Bool-cases (v / 2 == 1)) [
  | inl e ↦
      rw e
        (1, ap some (omega arith), omega (arith, (==_iff _ _).0 e), omega (arith, (==_iff _ _).0 e))
  | inr e ↦
      let (k, r, low, high) =
        power_loop-some n (v / 2) (suc count) (ground arith) (omega (arith, power_suc (suc n))) in
      rw e
        (suc k, r ∙ ap some (omega arith), omega (arith, power_suc k), omega (arith, power_suc k))
]

-- `Power2` of an `int` that is at least 1 comes to an end, with the logarithm rounded down.
pub power2_lem :
    (n : ℕ)
    → 1 ≤ n
    → n < 2 ^ 31
    → (k : ℕ) × (power2 (pos n) ≡ some k) × (2 ^ k ≤ n) × (n < 2 ^ k * 2)
unfolding power2
power2_lem n h l = elim (Bool-cases (ltb n 2)) [
  | inl e ↦ rw e (0, refl, h, ground arith)
  | inr e ↦
      let (k, r, low, high) = power_loop-some 30 n 0 (ground arith) l in
      rw e (k, r ∙ ap some (omega arith), low, high)
]
