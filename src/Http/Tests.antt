-- ===== src/Http/Tests.antt =====
-- The downloads of libGetrtpcmd_copy.cpp over a libcurl that hands over two chunks.
use push_streamer_client.Prelude.{◌≡◌, ◌⊎◌, refl, true, false, some, [], ◌∷◌, ◌++◌, str_append}
use push_streamer_client.Http.{
  global_init, global_cleanup, easy_init, easy_cleanup, perform, Curl, Disk, has_stream,
  get_options, post_options, file_options, http_get, http_post_raw, my_fwrite, wfile,
}
use push_streamer_client.Http.Laws.{
  feed, CurlLaws, DiskLaws, append_all, kept, accepts, takes_all, requests-body, wfile-keeps,
}

abbrev curl : Curl
curl = record { init_ok = true; transfer = λ calls write s. feed write s ("ab" ∷ "c" ∷ []) true }

abbrev curl_laws : CurlLaws curl
curl_laws = record {
  chunks = λ calls. "ab" ∷ "c" ∷ [];
  succeeds = λ calls. true;
  transfer_feeds = λ calls write s. refl;
}

abbrev disk : Disk
disk = record { can_open = λ name. true; fwrite = λ t chunk. (str_append t chunk, true) }

disk-DiskLaws : DiskLaws disk
disk-DiskLaws = record { fwrite_all = λ t chunk e. refl }

requests-body_test :
    let get = global_init ∷ easy_init ∷ get_options "u" in
    let post = global_init ∷ easy_init ∷ post_options "u" "{}" in
    let clean = perform ∷ easy_cleanup ∷ global_cleanup ∷ [] in
    (http_get curl "u" ≡ ("abc", get ++ clean))
    × (http_post_raw curl "u" "{}" ≡ ("abc", post ++ clean))
unfolding append_all
requests-body_test = requests-body curl curl_laws "u" "{}" refl

wfile-keeps_example :
    let asked = global_init ∷ easy_init ∷ file_options "u" ++ perform ∷ easy_cleanup ∷ [] in
    let r = wfile curl disk "u" "f" in
    ((true ≡ true)
      × (r ≡ record {
        result = true;
        file = some "abc";
        is_open = false;
        calls = asked ++ global_cleanup ∷ [];
      }))
    ⊎ ((true ≡ false) × (r.result ≡ false) × (r.is_open ≡ has_stream r.file) × (r.calls ≡ asked))
unfolding append_all kept takes_all accepts
wfile-keeps_example = wfile-keeps curl curl_laws disk disk-DiskLaws "u" "f" refl

-- A disk that is full leaves the stream open.
full : (wfile curl (record disk { fwrite = λ t chunk. (t, false) }) "u" "f").is_open ≡ true
unfolding wfile feed my_fwrite has_stream
full = refl

-- Without libcurl there is no file, and the result is true.
without_curl : (wfile (record curl { init_ok = false }) disk "u" "f").result ≡ true
unfolding wfile
without_curl = refl
