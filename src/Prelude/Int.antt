-- ===== src/Prelude/Int.antt =====
-- The integers of the program (`int`), over the native numbers. Its key codes, return codes and
-- coordinates are compared, tested against bounds and truncated to words; none of them is added up.
use push_streamer_client.Prelude.{
  ℕ, ◌-◌, ◌%◌, ◌≡◌, refl, ◌↔◌, Bool, true, false, arith, ltb, leb, ◌==◌, if◌then◌else◌,
}

-- `negsuc n` is -(n + 1).
pub data ℤ : Type 0 where
  pos : ℕ → ℤ
  negsuc : ℕ → ℤ

unfoldable pub eq_ℤ : ℤ → ℤ → Bool
eq_ℤ (pos a) (pos b) = a == b
eq_ℤ (pos a) (negsuc b) = false
eq_ℤ (negsuc a) (pos b) = false
eq_ℤ (negsuc a) (negsuc b) = a == b

pub eq_ℤ_iff : (a b : ℤ) → (eq_ℤ a b ≡ true) ↔ (a ≡ b)
unfolding eq_ℤ
eq_ℤ_iff (pos a) (pos b) = ground arith
eq_ℤ_iff (pos a) (negsuc b) = ground arith
eq_ℤ_iff (negsuc a) (pos b) = ground arith
eq_ℤ_iff (negsuc a) (negsuc b) = ground arith

pub eq_ℤ_refl : (a : ℤ) → eq_ℤ a a ≡ true
eq_ℤ_refl a = (eq_ℤ_iff a a).1 refl

-- `0 < a`.
abbrev pub is_pos : ℤ → Bool
is_pos (pos n) = ltb 0 n
is_pos (negsuc n) = false

-- `lo <= a && a <= hi`, for bounds that are no less than 0.
abbrev pub between : ℕ → ℤ → ℕ → Bool
between lo (pos n) hi = if leb lo n then leb n hi else false
between lo (negsuc n) hi = false

-- The conversion of an `int` to a word of `m` values, 2 ^ 8 or 2 ^ 16: the remainder by `m`.
unfoldable pub wrap_to : ℕ → ℤ → ℕ
wrap_to m (pos n) = n % m
wrap_to m (negsuc n) = m - 1 - n % m
