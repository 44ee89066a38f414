-- ===== src/Start/Laws.antt =====
-- The theorems of main.cpp.
use push_streamer_client.Prelude.{
  ℕ, suc, ◌+◌, ◌≡◌, refl, ◌∙◌, ap, Bool, true, false, none, some, List, [], ◌∷◌, String, str_eq,
  str_append, leb, arith, if◌then◌else◌,
}
use push_streamer_client.Prelude.Int.{pos, eq_ℤ}
use push_streamer_client.Qt.{Qt, is_empty}
use push_streamer_client.Ini.{Ini, to_string, open_file, get_value}
use push_streamer_client.Relay.{Event, connect_ws, start, run_thread, init, new_relay}
use push_streamer_client.Service.{
  Receiver, Service, new_service, bind_outter, service_connect, service_disconnect, service_steps,
}
use push_streamer_client.Service.Laws.{receive_all}
use push_streamer_client.Relay.Goes.{texts_of_events}
use push_streamer_client.Service.Heard.{service_steps-heard}
use push_streamer_client.Start.{
  count_instances, has_another_instance, default_server, server_url, set_up, main,
}

-- How often a name is in a list.
unfoldable pub occurrences : String → List String → ℕ
occurrences name [] = 0
occurrences name (p ∷ ps) = (if str_eq p name then 1 else 0) + occurrences name ps

count_instances-occurrences :
    (name : String) (ps : List String) (k : ℕ)
    → leb 2 (count_instances name ps k) ≡ leb 2 (k + occurrences name ps)
unfolding count_instances occurrences
count_instances-occurrences name [] k = ground arith
count_instances-occurrences name (p ∷ ps) k =
    ground
      (arith, count_instances-occurrences name ps k, count_instances-occurrences name ps (suc k))

-- `HasAnotherInstance` tells whether at least two processes after the first one have the name.
pub has_another_instance_lem :
    (name first : String) (ps : List String)
    → has_another_instance name (first ∷ ps) ≡ leb 2 (occurrences name ps)
unfolding has_another_instance
has_another_instance_lem name first ps =
    count_instances-occurrences name ps 0 ∙ ap (leb 2) (omega arith)

choice-not_empty :
    (url : String) (b : Bool)
    → is_empty url ≡ b
    → is_empty (if b then default_server else url) ≡ false
choice-not_empty url true e = refl
choice-not_empty url false e = e

module _ (qt : Qt) (rc : Receiver) where
  set_up-socket :
      (valid : String → Bool) (ini : Ini qt) (t : rc.State)
      → is_empty (server_url qt ini) ≡ false
      → let s = set_up qt rc valid ini t in
        (s.relay.socket ≡ some (record { uri = server_url qt ini; is_connected = false }))
        × (s.relay.active_disconnect ≡ false)
        × (s.bound ≡ true)
        × (s.receiver ≡ t)
  unfolding set_up service_connect bind_outter new_service connect_ws start run_thread init
      new_relay
  set_up-socket valid ini t h = ground arith

  server_url-not_empty : (ini : Ini qt) → is_empty (server_url qt ini) ≡ false
  unfolding server_url
  server_url-not_empty ini =
      let url = to_string (get_value qt ini "streamConfig" "serverUrl") in
      choice-not_empty url (is_empty url) refl

  -- The whole program, with streamConfig.ini there and no other instance: it runs, and whatever happens on
  -- the connection to the relay server (it is opened, accidents are queued and delivered, texts are
  -- sent), every message of the server that is not empty reaches what is bound to the service, once
  -- and in order, and nothing else does.
  pub main-receives :
      (valid : String → Bool) (processes : List String) (es : List Event) (t : rc.State)
      → (open_file qt none (str_append qt.app_dir "//streamConfig.ini")).1 ≡ pos 0
      → has_another_instance "CloudStreamer.exe" processes ≡ false
      → (s : Service rc) × (main qt rc valid processes t es ≡ some s)
        × (s.receiver ≡ receive_all rc t (texts_of_events es))
  unfolding main service_disconnect eq_ℤ
  main-receives valid processes es t o h =
      let ini = (open_file qt none (str_append qt.app_dir "//streamConfig.ini")).0 in
      let s = set_up qt rc valid ini t in
      let (socket, active, bound, receiver) =
        set_up-socket valid ini t (server_url-not_empty ini) in
      (
        service_disconnect rc (service_steps rc valid s es),
        rw (main, o, h) refl,
        service_steps-heard rc valid es s (((_, socket), active), bound)
            ∙ ap (λ x. receive_all rc x (texts_of_events es)) receiver,
      )
