-- ===== src/Hid/Tables.antt =====
-- The two key tables of cloudGame/include/libGetrtpcmd_copy.cpp: `map<int, BYTE>`, filled by
-- `KeyCodeInit`. A table is an association list; the map's ordering is never used.
use push_streamer_client.Prelude.{
  ℕ, ◌≡◌, Bool, true, false, Option, none, some, List, [], ◌∷◌, arith, if◌then◌else◌,
}
use push_streamer_client.Prelude.Int.{ℤ, pos, eq_ℤ}

abbrev pub Table : Type 0
Table = List (ℤ × ℕ)

-- `map::find`.
unfoldable pub find : ℤ → Table → Option ℕ
find k [] = none
find k ((j, b) ∷ t) = if eq_ℤ j k then some b else find k t

-- `it != map.end()`.
abbrev pub is_some : Option ℕ → Bool
is_some none = false
is_some (some b) = true

unfoldable pub has : ℤ → Table → Bool
has k t = is_some (find k t)

-- `map::insert`: a key that is there keeps its value.
insert : ℤ → ℕ → Table → Table
insert k b [] = (k, b) ∷ []
insert k b ((j, c) ∷ t) = (j, c) ∷ (if eq_ℤ j k then t else insert k b t)

-- The inserts of a list of pairs, in order.
insert_all : Table → Table → Table
unfolding insert
insert_all [] t = t
insert_all ((k, b) ∷ ps) t = insert_all ps (insert k b t)

-- `map::operator[]`: a missing key is added, with the value 0.
unfoldable pub index : ℤ → Table → ℕ × Table
index k t = elim (find k t) [ some b ↦ (b, t) | none ↦ (0, (k, 0) ∷ t) ]

abbrev code : ℕ → ℕ → ℤ × ℕ
code k b = (pos k, b)

-- The pairs that `KeyCodeInit` inserts into `KeyCode`.
abbrev key_pairs : Table
key_pairs =
    code 0 0
    ∷ code 48 39
    ∷ code 49 30
    ∷ code 50 31
    ∷ code 51 32
    ∷ code 52 33
    ∷ code 53 34
    ∷ code 54 35
    ∷ code 55 36
    ∷ code 56 37
    ∷ code 57 38
    ∷ code 65 4
    ∷ code 66 5
    ∷ code 67 6
    ∷ code 68 7
    ∷ code 69 8
    ∷ code 70 9
    ∷ code 71 10
    ∷ code 72 11
    ∷ code 73 12
    ∷ code 74 13
    ∷ code 75 14
    ∷ code 76 15
    ∷ code 77 16
    ∷ code 78 17
    ∷ code 79 18
    ∷ code 80 19
    ∷ code 81 20
    ∷ code 82 21
    ∷ code 83 22
    ∷ code 84 23
    ∷ code 85 24
    ∷ code 86 25
    ∷ code 87 26
    ∷ code 88 27
    ∷ code 89 28
    ∷ code 90 29
    ∷ code 96 98
    ∷ code 97 89
    ∷ code 98 90
    ∷ code 99 91
    ∷ code 100 92
    ∷ code 101 93
    ∷ code 102 94
    ∷ code 103 95
    ∷ code 104 96
    ∷ code 105 97
    ∷ code 106 85
    ∷ code 107 87
    ∷ code 108 88
    ∷ code 109 86
    ∷ code 110 99
    ∷ code 111 84
    ∷ code 112 58
    ∷ code 113 59
    ∷ code 114 60
    ∷ code 115 61
    ∷ code 116 62
    ∷ code 117 63
    ∷ code 118 64
    ∷ code 119 65
    ∷ code 120 66
    ∷ code 121 67
    ∷ code 122 68
    ∷ code 123 69
    ∷ code 8 42
    ∷ code 9 43
    ∷ code 13 40
    ∷ code 20 57
    ∷ code 27 41
    ∷ code 32 44
    ∷ code 33 75
    ∷ code 34 78
    ∷ code 35 77
    ∷ code 36 74
    ∷ code 37 80
    ∷ code 38 82
    ∷ code 39 79
    ∷ code 40 81
    ∷ code 45 73
    ∷ code 46 76
    ∷ code 144 83
    ∷ code 186 51
    ∷ code 187 46
    ∷ code 188 54
    ∷ code 189 45
    ∷ code 190 55
    ∷ code 191 56
    ∷ code 192 53
    ∷ code 219 47
    ∷ code 220 49
    ∷ code 221 48
    ∷ code 222 50
    ∷ []

-- The pairs that it inserts into `ModifiersKeyCodes`.
abbrev modifier_pairs : Table
modifier_pairs =
    code 0 0
    ∷ code 17 1
    ∷ code 16 2
    ∷ code 18 4
    ∷ code 91 8
    ∷ code 317 16
    ∷ code 316 32
    ∷ code 318 64
    ∷ code 391 128
    ∷ []

unfoldable pub key_codes : Table
unfolding insert_all
key_codes = insert_all key_pairs []

unfoldable pub modifier_codes : Table
unfolding insert_all
modifier_codes = insert_all modifier_pairs []

-- A read of a key that is there leaves the table alone.
pub index-has : (k : ℤ) (t : Table) → has k t ≡ true → (index k t).1 ≡ t
unfolding index has
index-has k t h = ground arith
