-- ===== src/Text.antt =====
-- The text functions at the top of cloudstreamer.cpp: `split`, a loop over `strtok`.
pub mod Laws
mod Tests
use Prim.Native.Char.{Char, code}
use push_streamer_client.Prelude.{
  ℕ, ◌≡◌, Bool, true, false, ◌||◌, List, [], ◌∷◌, String, str_append, str_eq, ◌==◌, if◌then◌else◌,
}
use push_streamer_client.Qt.{is_empty}

-- Whether a character is one of the delimiters: `strtok` reads its second argument as a set.
unfoldable pub is_delim : String → Char → Bool
is_delim String.[] c = false
is_delim (String.◌∷◌ d ds) c = code d == code c || is_delim ds c

-- The rest of the run of `strtok`, with the part of the token that is already read.
unfoldable pub tokens : String → String → String → List String
tokens ds cur String.[] = if is_empty cur then [] else cur ∷ []
tokens ds cur (String.◌∷◌ c s) =
    let fresh = tokens ds "" s in
    let more = tokens ds (str_append cur (String.◌∷◌ c String.[])) s in
    if is_delim ds c then (if is_empty cur then fresh else cur ∷ fresh) else more

-- `split`.
unfoldable pub split : String → String → List String
split str delim = if is_empty str then [] else tokens delim "" str
