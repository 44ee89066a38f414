-- ===== src/Text/Tests.antt =====
-- `split` of cloudstreamer.cpp on a concrete text.
use push_streamer_client.Prelude.{◌≡◌, refl, [], ◌∷◌, All}
use push_streamer_client.Text.{split, tokens, is_delim}
use push_streamer_client.Text.Laws.{IsToken, split_lem, strip, join}

split_path : split "race.exe&&games" "&&" ≡ "race.exe" ∷ "games" ∷ []
unfolding split tokens is_delim
split_path = refl

split_lem_test :
    All (IsToken "&&") (split "race.exe&&games" "&&")
    × (join (split "race.exe&&games" "&&") ≡ "race.exegames")
unfolding strip is_delim
split_lem_test = split_lem "race.exe&&games" "&&"
