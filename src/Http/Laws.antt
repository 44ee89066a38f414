-- ===== src/Http/Laws.antt =====
-- The theorems of the downloads of libGetrtpcmd_copy.cpp: which answers they keep, and what they leave
-- open.
use push_streamer_client.Prelude.{
  ◌≡◌, ◌⊎◌, refl, Bool, true, false, Option, none, some, List, [], ◌∷◌, ◌++◌, String, str_append,
  ◌&&◌, if◌then◌else◌, Bool-cases, inl, inr,
}
use push_streamer_client.Http.{
  CurlCall, global_init, global_cleanup, easy_init, easy_cleanup, perform, Curl, Disk, write_func,
  FtpFile, my_fwrite, get_options, post_options, file_options, request, http_get, http_post_raw,
  has_stream, wfile,
}

-- The chunks of a body, handed to a callback until it does not take one.
unfoldable pub feed : {S : Type 0} → (S → String → S × Bool) → S → List String → Bool → S × Bool
feed write s [] ok = (s, ok)
feed write s (b ∷ bs) ok =
    let rest = feed write (write s b).0 bs ok in
    if (write s b).1 then rest else ((write s b).0, false)

-- What libcurl documents: for some calls there are the chunks of a body, which it hands over in order,
-- and a result; a callback that does not take a chunk ends the transfer with an error.
pub record CurlLaws (c : Curl) : Type 1 where
  pub chunks : List CurlCall → List String
  pub succeeds : List CurlCall → Bool
  pub transfer_feeds :
      {S : Type 0} (calls : List CurlCall) (write : S → String → S × Bool) (s : S)
      → c.transfer calls write s ≡ feed write s (chunks calls) (succeeds calls)

-- `fwrite` that has written all of a text.
pub record DiskLaws (d : Disk) : Type 0 where
  pub fwrite_all :
      (t chunk : String) → (d.fwrite t chunk).1 ≡ true → (d.fwrite t chunk).0 ≡ str_append t chunk

-- The texts of a list behind a text.
unfoldable pub append_all : String → List String → String
append_all t [] = t
append_all t (b ∷ bs) = append_all (str_append t b) bs

feed-write_func :
    (t : String) (bs : List String) (ok : Bool) → feed write_func t bs ok ≡ (append_all t bs, ok)
unfolding feed write_func append_all
feed-write_func t [] ok = refl
feed-write_func t (b ∷ bs) ok = feed-write_func (str_append t b) bs ok

module _ (c : Curl) (l : CurlLaws c) where
  open l use {chunks, succeeds, transfer_feeds}

  request_lem :
      (options : List CurlCall)
      → c.init_ok ≡ true
      → request c options ≡ (
        append_all "" (chunks (global_init ∷ easy_init ∷ options)),
        global_init ∷ easy_init ∷ options ++ perform ∷ easy_cleanup ∷ global_cleanup ∷ [],
      )
  unfolding request
  request_lem options i =
      let before = global_init ∷ easy_init ∷ options in
      rw
        (
          i,
          transfer_feeds before write_func "",
          feed-write_func "" (chunks before) (succeeds before),
        )
        refl

  -- `HttpGet` and `HttpPostRaw`, when libcurl could be set up: the result is what of the body was received,
  -- whether the transfer succeeded or not, and both clean up after it.
  pub requests-body :
      (url text : String)
      → c.init_ok ≡ true
      → let get = global_init ∷ easy_init ∷ get_options url in
        let post = global_init ∷ easy_init ∷ post_options url text in
        let clean = perform ∷ easy_cleanup ∷ global_cleanup ∷ [] in
        (http_get c url ≡ (append_all "" (chunks get), get ++ clean))
        × (http_post_raw c url text ≡ (append_all "" (chunks post), post ++ clean))
  unfolding http_get http_post_raw
  requests-body url text i =
      (request_lem (get_options url) i, request_lem (post_options url text) i)

-- A file whose stream holds a text.
abbrev with_text : String → String → FtpFile
with_text name t = record { filename = name; stream = some t }

abbrev new_file : String → FtpFile
new_file name = record { filename = name; stream = none }

-- What the chunks of a body leave in a file.
unfoldable pub kept : List String → Option String
kept [] = none
kept (b ∷ bs) = some (append_all "" (b ∷ bs))

module _ (d : Disk) where
  -- Whether `fwrite` writes all of each chunk behind a text.
  unfoldable pub accepts : String → List String → Bool
  accepts t [] = true
  accepts t (b ∷ bs) = (d.fwrite t b).1 && accepts (str_append t b) bs

  -- Whether the file can be made, if there is something to write, and takes all chunks.
  unfoldable pub takes_all : String → List String → Bool
  takes_all name [] = true
  takes_all name (b ∷ bs) = d.can_open name && accepts "" (b ∷ bs)

module _ (d : Disk) (dl : DiskLaws d) where
  my_fwrite-all :
      (name t b : String)
      → (d.fwrite t b).1 ≡ true
      → my_fwrite d (with_text name t) b ≡ (with_text name (str_append t b), true)
  unfolding my_fwrite
  my_fwrite-all name t b e = rw (dl.fwrite_all t b e, e) refl

  -- How a transfer into a file ends, by a test that tells whether all of it is written.
  abbrev Fed : Bool → FtpFile × Bool → FtpFile → Type 0
  Fed b r f = ((b ≡ true) × (r ≡ (f, true))) ⊎ ((b ≡ false) × (r.1 ≡ false))

  Fed-end : (f : FtpFile) (ok : Bool) → Fed ok (f, ok) f
  Fed-end f true = inl (refl, refl)
  Fed-end f false = inr (refl, refl)

  feed-fails :
      (name t b : String) (bs : List String) (ok : Bool)
      → (d.fwrite t b).1 ≡ false
      → (feed (my_fwrite d) (with_text name t) (b ∷ bs) ok).1 ≡ false
  unfolding feed my_fwrite
  feed-fails name t b bs ok e = rw e refl

  -- Either all chunks are behind the text, or the transfer failed.
  feed-open :
      (name t : String) (bs : List String) (ok : Bool)
      → Fed
          (accepts d t bs && ok)
          (feed (my_fwrite d) (with_text name t) bs ok)
          (with_text name (append_all t bs))
  unfolding feed append_all accepts
  feed-open name t [] ok = Fed-end (with_text name t) ok
  feed-open name t (b ∷ bs) ok = elim (Bool-cases (d.fwrite t b).1) [
    | inl e ↦ rw (my_fwrite-all name t b e, e) (feed-open name (str_append t b) bs ok)
    | inr e ↦ rw e (inr (refl, feed-fails name t b bs ok e))
  ]

  my_fwrite-first :
      (name b : String)
      → d.can_open name ≡ true
      → my_fwrite d (new_file name) b ≡ my_fwrite d (with_text name "") b
  unfolding my_fwrite
  my_fwrite-first name b e = rw (my_fwrite, e) refl

  feed-first :
      (name b : String) (bs : List String) (ok : Bool)
      → d.can_open name ≡ true
      → feed (my_fwrite d) (new_file name) (b ∷ bs) ok
        ≡ feed (my_fwrite d) (with_text name "") (b ∷ bs) ok
  unfolding feed
  feed-first name b bs ok e = rw (my_fwrite-first name b e) refl

  feed-closed_file :
      (name b : String) (bs : List String) (ok : Bool)
      → d.can_open name ≡ false
      → (feed (my_fwrite d) (new_file name) (b ∷ bs) ok).1 ≡ false
  unfolding feed my_fwrite
  feed-closed_file name b bs ok e = rw (my_fwrite, e) refl

  feed-new :
      (name : String) (bs : List String) (ok : Bool)
      → Fed
          (takes_all d name bs && ok)
          (feed (my_fwrite d) (new_file name) bs ok)
          (record { filename = name; stream = kept bs })
  unfolding kept takes_all feed
  feed-new name [] ok = Fed-end (new_file name) ok
  feed-new name (b ∷ bs) ok = elim (Bool-cases (d.can_open name)) [
    | inl e ↦ rw (feed-first name b bs ok e, e) (feed-open name "" (b ∷ bs) ok)
    | inr e ↦ rw e (inr (refl, feed-closed_file name b bs ok e))
  ]

module _ (c : Curl) (l : CurlLaws c) (d : Disk) (dl : DiskLaws d) where
  open l use {chunks, succeeds, transfer_feeds}

  -- `wfile`, when libcurl could be set up. If the transfer succeeds and the file takes all that it
  -- hands over, it returns true, and the file holds what was received, closed, with no file made if
  -- that was nothing, and libcurl is cleaned up. If one of them fails, it returns false, and a file
  -- that was opened stays open, and libcurl is not cleaned up. libcurl and `fwrite` do what they
  -- document.
  pub wfile-keeps :
      (url path : String)
      → c.init_ok ≡ true
      → let before = global_init ∷ easy_init ∷ file_options url in
        let asked = before ++ perform ∷ easy_cleanup ∷ [] in
        let whole = takes_all d path (chunks before) && succeeds before in
        let r = wfile c d url path in
        ((whole ≡ true)
          × (r ≡ record {
            result = true;
            file = kept (chunks before);
            is_open = false;
            calls = asked ++ global_cleanup ∷ [];
          }))
        ⊎ ((whole ≡ false)
            × (r.result ≡ false)
            × (r.is_open ≡ has_stream r.file)
            × (r.calls ≡ asked))
  unfolding wfile
  wfile-keeps url path i =
      let before = global_init ∷ easy_init ∷ file_options url in
      let t = transfer_feeds before (my_fwrite d) (new_file path) in
      elim (feed-new d dl path (chunks before) (succeeds before)) [
        | inl (b, e) ↦ inl (b, rw (i, t, e) refl)
        | inr (b, e) ↦ inr (b, rw (i, t, e) refl, rw (i, t, e) refl, rw (i, t, e) refl)
      ]
