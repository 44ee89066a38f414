-- ===== src/Consumer/Tests.antt =====
-- Runs of consumerkeyboardvalue.h, and its theorems at concrete inputs.
use push_streamer_client.Prelude.{◌≡◌, refl, true, false, List, [], ◌∷◌, ◌++◌, map, length, arith}
use push_streamer_client.Prelude.Int.{pos, eq_ℤ}
use push_streamer_client.Device.{key_down, key_up, ns_sleep, press, release, run_callback}
use push_streamer_client.Consumer.{
  Products, normal_key_action, mouse_action, Action, produces, rounds, stops, run, step, produce,
  round, consume, stop, new_consumer, filter_key_type, is_filter_out_key_type, find_type, same_type,
}
use push_streamer_client.Consumer.Laws.{
  Accounts, start, run_in_order, rounds_drain, stopped_silent, filter_key_type_lem,
}

abbrev press_a : Products
press_a = record { type = normal_key_action; callback = press (pos 65) }

abbrev release_a : Products
release_a = record { type = normal_key_action; callback = release (pos 65) }

abbrev schedule : List Action
schedule = produces press_a ∷ rounds false ∷ produces release_a ∷ rounds true ∷ []

schedule_calls :
    (run start schedule).calls
    ≡ key_down (pos 65) ∷ key_up (pos 65) ∷ key_down (pos 65) ∷ key_up (pos 65) ∷ ns_sleep 1 ∷ []
unfolding run step produce round consume new_consumer run_callback eq_ℤ
schedule_calls = refl

run_in_order_example :
    Accounts (press_a ∷ release_a ∷ []) (run start schedule).consumer (run start schedule).calls
run_in_order_example = run_in_order schedule

rounds_drain_test :
    length
      (run
        (run start (produces press_a ∷ []))
        (map rounds (true ∷ false ∷ []))).consumer.keyboard_vector
    ≡ 0
unfolding run step produce new_consumer
rounds_drain_test =
    rounds_drain (true ∷ false ∷ []) (run start (produces press_a ∷ [])) refl (omega arith)

stopped_silent_test :
    let r = run start (produces press_a ∷ stops ∷ []) in
    ((run r (rounds true ∷ produces release_a ∷ [])).calls ≡ r.calls)
    × ((run r (rounds true ∷ produces release_a ∷ [])).consumer.keyboard_vector
        ≡ r.consumer.keyboard_vector ++ release_a ∷ [])
unfolding run step produce stop new_consumer
stopped_silent_test =
    stopped_silent (rounds true ∷ produces release_a ∷ [])
      (run start (produces press_a ∷ stops ∷ [])) refl

filter_key_type_lem_test :
    is_filter_out_key_type (filter_key_type new_consumer mouse_action false) mouse_action ≡ false
unfolding new_consumer find_type same_type
filter_key_type_lem_test = filter_key_type_lem new_consumer mouse_action mouse_action false
