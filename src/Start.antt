-- ===== src/Start.antt =====
-- main.cpp: the start of the program: `HasAnotherInstance`, and `main`, which reads streamConfig.ini, binds the
-- service to the session and connects it. The handler of crashes, the priority of the process and the
-- script that watches the program are not part of the model.
pub mod Laws
mod Tests
use push_streamer_client.Prelude.{
  ℕ, zero, suc, ◌+◌, ◌≡◌, Bool, true, false, not, Option, none, some, List, [], ◌∷◌, String,
  str_append, str_eq, leb, if◌then◌else◌,
}
use push_streamer_client.Prelude.Int.{ℤ, pos, eq_ℤ}
use push_streamer_client.Qt.{Qt, is_empty}
use push_streamer_client.Ini.{Ini, to_string, open_file, get_value}
use push_streamer_client.Relay.{Event}
use push_streamer_client.Service.{
  Receiver, Service, new_service, bind_outter, service_connect, service_disconnect, service_steps,
}

-- The loop of `HasAnotherInstance` over the processes that `Process32Next` gives.
unfoldable pub count_instances : String → List String → ℕ → ℕ
count_instances name [] count = count
count_instances name (p ∷ ps) count =
    let hit = count_instances name ps (suc count) in
    let rest = count_instances name ps count in
    if leb 2 count then count else if str_eq p name then hit else rest

-- `HasAnotherInstance`: the process that `Process32First` gives is not compared.
unfoldable pub has_another_instance : String → List String → Bool
has_another_instance name [] = false
has_another_instance name (p ∷ ps) = leb 2 (count_instances name ps 0)

abbrev pub default_server : String
default_server = "ws://socket1.cccsaas.com:9092"

module _ (qt : Qt) where
  -- The level of the log, if the file sets one.
  unfoldable pub log_level : Ini qt → Option ℤ
  log_level ini =
      let level = to_string (get_value qt ini "streamConfig" "logServel") in
      if is_empty level then none else some (qt.to_int level)

  -- The server that the program connects to.
  unfoldable pub server_url : Ini qt → String
  server_url ini =
      let url = to_string (get_value qt ini "streamConfig" "serverUrl") in
      if is_empty url then default_server else url

  -- What `main` has set up before the event loop.
  unfoldable pub set_up : (rc : Receiver) → (String → Bool) → Ini qt → rc.State → Service rc
  set_up rc valid ini t =
      service_connect rc valid (bind_outter rc (new_service rc t)) (server_url ini) ""

  -- `main` with the processes that run and the events of its event loop; `none` is the result -1.
  unfoldable pub main :
      (rc : Receiver) → (String → Bool) → List String → rc.State → List Event → Option (Service rc)
  main rc valid processes t es =
      let (ini, ret) = open_file qt none (str_append qt.app_dir "//streamConfig.ini") in
      let ended = service_disconnect rc (service_steps rc valid (set_up rc valid ini t) es) in
      if not (eq_ℤ ret (pos 0))
      then none
      else if has_another_instance "CloudStreamer.exe" processes
      then none
      else some ended
