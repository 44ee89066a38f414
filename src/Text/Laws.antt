-- ===== src/Text/Laws.antt =====
-- The theorem of `split` of cloudstreamer.cpp.
use Prim.Native.Char.{Char}
use text.Mathlib.TextLemmas.{
  nil-append as nil-append_str, cons-append as cons-append_str, append-nil as append-nil_str,
  append_assoc as append_assoc_str,
}
use push_streamer_client.Prelude.{
  ◌≡◌, refl, ◌∙◌, sym, ap, ap₂, Bool-cases, inl, inr, false, List, [], ◌∷◌, String, str_append,
  str_eq_iff, arith, All, if◌then◌else◌,
}
use push_streamer_client.Qt.{is_empty}
use push_streamer_client.Text.{is_delim, tokens, split}

-- A text without its delimiters.
unfoldable pub strip : String → String → String
strip ds String.[] = ""
strip ds (String.◌∷◌ c s) =
    let rest = strip ds s in if is_delim ds c then rest else String.◌∷◌ c rest

unfoldable pub join : List String → String
join [] = ""
join (t ∷ ts) = str_append t (join ts)

pub cons_append : (c : Char) (s : String) → str_append (String.◌∷◌ c String.[]) s ≡ String.◌∷◌ c s
cons_append c s = cons-append_str c String.[] s ∙ ap (String.◌∷◌ c) (nil-append_str s)

-- The parts of `split`, put together, are the text without its delimiters.
join-tokens : (ds cur s : String) → join (tokens ds cur s) ≡ str_append cur (strip ds s)
unfolding join tokens strip
join-tokens ds cur String.[] = ground (arith, append-nil_str cur, str_eq_iff cur "")
join-tokens ds cur (String.◌∷◌ c s) =
    let c1 = String.◌∷◌ c String.[] in
    ground (
      arith,
      str_eq_iff cur "",
      join-tokens ds "" s,
      join-tokens ds (str_append cur c1) s,
      nil-append_str (strip ds s),
      append_assoc_str cur c1 (strip ds s),
      cons_append c (strip ds s),
    )

strip-append : (ds a b : String) → strip ds (str_append a b) ≡ str_append (strip ds a) (strip ds b)
unfolding strip
strip-append ds String.[] b = ap (strip ds) (nil-append_str b) ∙ sym (nil-append_str (strip ds b))
strip-append ds (String.◌∷◌ c a) b =
    ap (strip ds) (cons-append_str c a b)
    ∙ ground (arith, strip-append ds a b, cons-append_str c (strip ds a) (strip ds b))

-- A part of a text: not empty, and without delimiters.
abbrev pub IsToken : String → String → Type 0
IsToken ds t = (is_empty t ≡ false) × (strip ds t ≡ t)

strip-nil : (ds : String) → strip ds "" ≡ ""
unfolding strip
strip-nil ds = refl

strip-char :
    (ds : String) (c : Char)
    → is_delim ds c ≡ false
    → strip ds (String.◌∷◌ c String.[]) ≡ String.◌∷◌ c String.[]
unfolding strip
strip-char ds c d = ground arith

tokens-All : (ds cur s : String) → strip ds cur ≡ cur → All (IsToken ds) (tokens ds cur s)
unfolding tokens
tokens-All ds cur String.[] h = elim (Bool-cases (is_empty cur)) [
  | inl e ↦ rw e tt
  | inr e ↦ rw e ((e, h), tt)
]
tokens-All ds cur (String.◌∷◌ c s) h =
    let fresh = tokens-All ds "" s (strip-nil ds) in
    elim (Bool-cases (is_delim ds c)) [
      | inl d ↦ elim (Bool-cases (is_empty cur)) [
        | inl e ↦ rw (d, e) fresh
        | inr e ↦ rw (d, e) ((e, h), fresh)
      ]
      | inr d ↦ rw d (
          tokens-All ds (str_append cur (String.◌∷◌ c String.[])) s
            (strip-append ds cur (String.◌∷◌ c String.[]) ∙ ap₂ str_append h (strip-char ds c d)))
    ]

-- `split` with a set of delimiters: the parts are not empty and have no delimiter, and put
-- together they are the text without its delimiters.
pub split_lem :
    (str delim : String)
    → All (IsToken delim) (split str delim) × (join (split str delim) ≡ strip delim str)
unfolding split join
split_lem str delim =
    let parts = tokens-All delim "" str (strip-nil delim) in
    let whole = join-tokens delim "" str ∙ nil-append_str (strip delim str) in
    elim (Bool-cases (is_empty str)) [
      | inl e ↦ rw (e, (str_eq_iff str "").0 e) (tt, sym (strip-nil delim))
      | inr e ↦ rw e (parts, whole)
    ]
