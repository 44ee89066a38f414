-- ===== src/Http.antt =====
-- cloudGame/include/libGetrtpcmd_copy.cpp: `HttpGet`, `HttpPostRaw` and `wfile` of the class
-- `libGetrtpcmd`, which ask a server by libcurl and keep the answer in a text or a file. libcurl and
-- the files of the C library are parameters.
pub mod Laws
mod Tests
use push_streamer_client.Prelude.{
  ◌≡◌, Bool, true, false, Option, none, some, List, [], ◌∷◌, ◌++◌, String, str_append,
  if◌then◌else◌,
}

-- The options that are set, and the other calls of libcurl. The macro `SKIP_PEER_VERIFICATION`
-- is defined.
pub data CurlCall : Type 0 where
  global_init global_cleanup easy_init easy_cleanup perform : CurlCall
  set_url set_user_agent set_cookie_file set_cookie_jar set_http_header set_post_fields :
      String → CurlCall
  set_max_redirs_5 set_follow_location set_write_function set_header_function : CurlCall
  set_verbose verify_no_peer verify_no_host : CurlCall
  set_user_password : String → CurlCall

-- `curl_easy_init` succeeds, and `curl_easy_perform` after some calls: it hands the body to a callback
-- that changes a state and says whether it took all of it; the result is `CURLE_OK` or not.
pub record Curl : Type 1 where
  pub init_ok : Bool
  pub transfer : {S : Type 0} → List CurlCall → (S → String → S × Bool) → S → S × Bool

-- `fopen` for writing; and `fwrite` of a text behind what a file holds: what it then holds, and whether
-- all was written.
pub record Disk : Type 0 where
  pub can_open : String → Bool
  pub fwrite : String → String → String × Bool

-- `write_func`: it returns the length that it got.
unfoldable pub write_func : String → String → String × Bool
write_func buffer chunk = (str_append buffer chunk, true)

-- `FtpFile`: the name, and the stream with what was written to it.
pub record FtpFile : Type 0 where
  pub filename : String
  pub stream : Option String

-- `my_fwrite`: the file is opened with the first data; -1 if that fails is no length.
unfoldable pub my_fwrite : Disk → FtpFile → String → FtpFile × Bool
my_fwrite d f chunk =
    let opened : Option String = elim f.stream [
      | none ↦ if d.can_open f.filename then some "" else none
      | some t ↦ some t
    ] in
    elim opened [
      | none ↦ (f, false)
      | some t ↦ let (t', all) = d.fwrite t chunk in (record f { stream = some t' }, all)
    ]

abbrev pub user_agent : String
user_agent = "Mozilla/5.0 (Windows NT 6.1; WOW64; rv:13.0) Gecko/20100101 Firefox/13.0.1"

-- The options that `HttpGet` sets.
unfoldable pub get_options : String → List CurlCall
get_options url =
    set_url url
    ∷ set_user_agent user_agent
    ∷ verify_no_peer
    ∷ verify_no_host
    ∷ verify_no_peer
    ∷ set_cookie_file "./cookie.txt"
    ∷ set_cookie_jar "./cookie.txt"
    ∷ set_max_redirs_5
    ∷ set_follow_location
    ∷ set_write_function
    ∷ set_header_function
    ∷ []

-- The options that `HttpPostRaw` sets.
unfoldable pub post_options : String → String → List CurlCall
post_options url text =
    set_url url
    ∷ set_user_agent user_agent
    ∷ verify_no_peer
    ∷ verify_no_host
    ∷ verify_no_peer
    ∷ set_cookie_file "./cookie.txt"
    ∷ set_cookie_jar "./cookie.txt"
    ∷ set_http_header "Content-Type:application/json;charset=UTF-8"
    ∷ set_post_fields text
    ∷ set_max_redirs_5
    ∷ set_follow_location
    ∷ set_write_function
    ∷ set_header_function
    ∷ []

-- The options that `wfile` sets.
unfoldable pub file_options : String → List CurlCall
file_options url =
    set_url url
    ∷ verify_no_peer
    ∷ verify_no_host
    ∷ verify_no_peer
    ∷ set_write_function
    ∷ set_verbose
    ∷ set_user_password "SUREN:SUREN"
    ∷ []

-- What `wfile` leaves: its result, the file with the name, whether its stream is still open, and the calls.
pub record Download : Type 0 where
  pub result : Bool
  pub file : Option String
  pub is_open : Bool
  pub calls : List CurlCall

-- Whether a stream is open.
unfoldable pub has_stream : Option String → Bool
has_stream none = false
has_stream (some t) = true

module _ (c : Curl) where
  -- The common course of `HttpGet` and `HttpPostRaw`: the text, and the calls. The numbers that are asked
  -- of a transfer that succeeded are only printed; the headers are collected and not used.
  unfoldable pub request : List CurlCall → String × List CurlCall
  request options =
      let asked = (c.transfer (global_init ∷ easy_init ∷ options) write_func "").0 in
      if c.init_ok
      then (
        asked,
        global_init ∷ easy_init ∷ options ++ perform ∷ easy_cleanup ∷ global_cleanup ∷ [],
      )
      else ("", global_init ∷ easy_init ∷ global_cleanup ∷ [])

  -- `HttpGet`.
  unfoldable pub http_get : String → String × List CurlCall
  http_get url = request (get_options url)

  -- `HttpPostRaw`.
  unfoldable pub http_post_raw : String → String → String × List CurlCall
  http_post_raw url text = request (post_options url text)

  -- `wfile`: a failed transfer returns before the stream is closed.
  unfoldable pub wfile : Disk → String → String → Download
  wfile d url filepath =
      let before = global_init ∷ easy_init ∷ file_options url in
      let (f, ok) =
        c.transfer before (my_fwrite d) (record { filename = filepath; stream = none }) in
      let asked = before ++ perform ∷ easy_cleanup ∷ [] in
      if c.init_ok
      then if ok
        then record {
          result = true;
          file = f.stream;
          is_open = false;
          calls = asked ++ global_cleanup ∷ [];
        }
        else record {
          result = false;
          file = f.stream;
          is_open = has_stream f.stream;
          calls = asked;
        }
      else record {
        result = true;
        file = none;
        is_open = false;
        calls = global_init ∷ easy_init ∷ global_cleanup ∷ [];
      }
