-- ===== src/Start/Tests.antt =====
-- The start of the program in main.cpp at concrete inputs.
use push_streamer_client.Prelude.{◌≡◌, refl, Bool, true, some, List, [], ◌∷◌, ◌++◌, String}
use push_streamer_client.Qt.{Qt}
use push_streamer_client.Qt.Example.{File, example_qt, load_from, is_there}
use push_streamer_client.Ini.{open_file}
use push_streamer_client.Relay.{message, opened, accident, delivered}
use push_streamer_client.Service.{Receiver, Service}
use push_streamer_client.Service.Laws.{receive_all}
use push_streamer_client.Relay.Goes.{texts_of_events, text_of_event}
use push_streamer_client.Start.{count_instances, has_another_instance, main}
use push_streamer_client.Start.Laws.{occurrences, has_another_instance_lem, main-receives}

abbrev stream_config : File
stream_config = record { groups = []; values = ("streamConfig/serverUrl", "ws://a") ∷ [] }

abbrev qt : Qt
qt = example_qt (("/app//streamConfig.ini", stream_config) ∷ [])

abbrev keeping : Receiver
keeping = record { State = List String; receive = λ ts t. ts ++ t ∷ [] }

abbrev any : String → Bool
any url = true

has_another_instance_lem_example :
    has_another_instance "a.exe" ("a.exe" ∷ "a.exe" ∷ "b.exe" ∷ "a.exe" ∷ []) ≡ true
unfolding occurrences
has_another_instance_lem_example =
    has_another_instance_lem "a.exe" "a.exe" ("a.exe" ∷ "b.exe" ∷ "a.exe" ∷ [])

main-receives_example :
    (s : Service keeping) × (main qt keeping any
        ("System" ∷ "CloudStreamer.exe" ∷ [])
        []
        (message "a" ∷ opened ∷ message "" ∷ accident ∷ message "b" ∷ delivered ∷ message "c" ∷ [])
      ≡ some s)
    × (s.receiver ≡ "a" ∷ "b" ∷ "c" ∷ [])
unfolding has_another_instance count_instances open_file load_from is_there receive_all
    texts_of_events text_of_event
main-receives_example =
    main-receives qt keeping any ("System" ∷ "CloudStreamer.exe" ∷ [])
      (message "a" ∷ opened ∷ message "" ∷ accident ∷ message "b" ∷ delivered ∷ message "c" ∷ []) []
      refl refl
