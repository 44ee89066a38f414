-- ===== src/Buttons.antt =====
-- cloudstreamer.cpp: the functions that write the buttons and the hat of a joystick into bytes:
-- `BitSet`, `replaceAllDistinct`, `ConvertTheSpecialString`, `ConvertTheSpecialStringEx`, `Power2`.
pub mod Bits
pub mod Hat
pub mod Pressed
pub mod Laws
mod Tests
use Prim.Native.Nat.{bit_and, bit_or, suc, zero}
use push_streamer_client.Prelude.{
  ℕ, ◌-◌, ◌/◌, ◌%◌, ◌^◌, ◌+◌, Bool, true, false, ◌&&◌, Option, none, some, List, [], ◌∷◌, map,
  String, length, str_append, ltb, leb, ◌==◌, if◌then◌else◌,
}
use push_streamer_client.Prelude.Int.{ℤ, pos, negsuc, wrap_to}
use push_streamer_client.Qt.{Qt, is_empty}
use Prim.Native.Char.{Char, code}

-- `1 << (position - 1)`, as a word of 32 bits. A shift by a count that is not in 0..31 is undefined
-- in C++: `odd` says what the machine makes of it.
unfoldable pub shifted : (ℕ → ℕ) → ℕ → ℕ
shifted odd p = if leb 1 p && leb p 32 then 2 ^ (p - 1) else odd p

-- `BitSet`, as the new value of the byte.
unfoldable pub bit_set : (ℕ → ℕ) → ℕ → ℕ → Bool → ℕ
bit_set odd b p flag =
    let t = shifted odd p in if flag then bit_or b t % 256 else bit_and b (4294967295 - t) % 256

-- The bit of a number with an index from 0.
unfoldable pub bit_of : ℕ → ℕ → Bool
bit_of b i = (b / 2 ^ i) % 2 == 1

-- The last bits of a number, the highest first: the text of a `bitset`.
unfoldable pub bits : ℕ → ℕ → List Bool
bits zero v = []
bits (suc n) v = bit_of v n ∷ bits n v

-- `substr(1, size)`.
unfoldable pub tail : List Bool → List Bool
tail [] = []
tail (b ∷ bs) = bs

-- The loop of `ConvertTheSpecialStringEx`: `size - index` is the length of the rest.
unfoldable pub set_bits : (ℕ → ℕ) → ℕ → List Bool → ℕ
set_bits odd b [] = b
set_bits odd b (f ∷ fs) = set_bits odd (bit_set odd b (suc (length fs)) f) fs

-- `ConvertTheSpecialStringEx`, as the new value of the byte.
unfoldable pub convert_the_special_string_ex : (ℕ → ℕ) → ℤ → ℕ → ℕ
convert_the_special_string_ex odd value result =
    set_bits odd result (tail (bits 10 (wrap_to 1024 value)))

-- The loop of `Power2`, with the number of rounds that it may take.
unfoldable pub power_loop : ℕ → ℕ → ℕ → Option ℕ
power_loop zero v count = none
power_loop (suc n) v count =
    let half = v / 2 in
    let rest = power_loop n half (suc count) in if half == 1 then some (suc count) else rest

-- `Power2`: an `int` that is at least 2 is 1 after at most 30 halvings.
unfoldable pub power2 : ℤ → Option ℕ
power2 (negsuc n) = some 0
power2 (pos n) = let loop = power_loop 30 n 0 in if ltb n 2 then some 0 else loop

unfoldable pub starts_with : String → String → Bool
starts_with String.[] s = true
starts_with (String.◌∷◌ d ds) String.[] = false
starts_with (String.◌∷◌ d ds) (String.◌∷◌ c s) = code d == code c && starts_with ds s

unfoldable pub chars : String → ℕ
chars String.[] = 0
chars (String.◌∷◌ c s) = suc (chars s)

-- The rest of the loop of `replaceAllDistinct`, with the number of characters that are still part of
-- the last hit.
unfoldable pub replace_from : ℕ → String → String → String → String
replace_from skip old new String.[] = ""
replace_from (suc n) old new (String.◌∷◌ c s) = replace_from n old new s
replace_from zero old new (String.◌∷◌ c s) =
    let hit = replace_from (chars old - 1) old new s in
    let kept = replace_from zero old new s in
    if starts_with old (String.◌∷◌ c s)
    then str_append new hit
    else str_append (String.◌∷◌ c String.[]) kept

-- `replaceAllDistinct`; `none` is a loop without end, since an empty text is found everywhere.
unfoldable pub replace_all_distinct : String → String → String → Option String
replace_all_distinct str old new =
    if is_empty old then none else some (replace_from zero old new str)

-- The division and the remainder of an `int` by 8, which round to 0: the index of a byte, `none` if
-- it is negative, and the remainder converted to `unsigned char`.
unfoldable pub byte_index : ℤ → Option ℕ
byte_index (pos n) = some (n / 8)
byte_index (negsuc n) = if ltb n 7 then some 0 else none

unfoldable pub byte_position : ℤ → ℕ
byte_position (pos n) = n % 8
byte_position (negsuc n) = (256 - suc n % 8) % 256

-- The byte with an index, changed; `none` if there is no such byte.
unfoldable pub change_at : List ℕ → ℕ → (ℕ → ℕ) → Option (List ℕ)
change_at [] i f = none
change_at (b ∷ bs) zero f = some (f b ∷ bs)
change_at (b ∷ bs) (suc i) f = elim (change_at bs i f) [ none ↦ none | some r ↦ some (b ∷ r) ]

-- One round of the loop of `ConvertTheSpecialString`; `none` is a write outside of the array.
unfoldable pub set_button : (ℕ → ℕ) → List ℕ → ℤ → Option (List ℕ)
set_button odd bs k = elim (byte_index k) [
  | none ↦ none
  | some i ↦ change_at bs i (λ b. bit_set odd b (byte_position k) true)
]

-- The loop over the first values of the list.
unfoldable pub set_buttons : (ℕ → ℕ) → List ℕ → ℕ → List ℤ → Option (List ℕ)
set_buttons odd bs zero ks = some bs
set_buttons odd bs (suc n) [] = some bs
set_buttons odd bs (suc n) (k ∷ ks) = elim (set_button odd bs k) [
  | none ↦ none
  | some r ↦ set_buttons odd r n ks
]

-- `memset(result, 0, size)`; no call clears more than the array has.
unfoldable pub clear_first : ℕ → List ℕ → List ℕ
clear_first zero bs = bs
clear_first (suc n) [] = []
clear_first (suc n) (b ∷ bs) = 0 ∷ clear_first n bs

-- The values of a text such as "1, 12": the text without spaces, split at the commas.
unfoldable pub values_of : Qt → String → Option (List ℤ)
values_of qt str = elim (replace_all_distinct str " " "") [
  | none ↦ none
  | some t ↦ some (map qt.to_int (qt.split t ","))
]

-- `ConvertTheSpecialString`: the array afterwards.
unfoldable pub convert_the_special_string : Qt → (ℕ → ℕ) → String → List ℕ → ℕ → Option (List ℕ)
convert_the_special_string qt odd str result size1 = elim (values_of qt str) [
  | none ↦ none
  | some ks ↦ set_buttons odd (clear_first size1 result) size1 ks
]

-- The two calls of `DealTheJoystick` on its array of 16 bytes.
unfoldable pub joystick_buttons : Qt → (ℕ → ℕ) → String → List ℕ → Option (List ℕ)
joystick_buttons qt odd buttons fresh = elim (convert_the_special_string qt odd buttons fresh 16) [
  | none ↦ none
  | some btn ↦ convert_the_special_string qt odd buttons btn 1
]
