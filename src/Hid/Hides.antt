-- ===== src/Hid/Hides.antt =====
-- What the reports of libGetrtpcmd_copy.cpp say of a held key while a modifier is pressed.
use push_streamer_client.Prelude.{◌≡◌, ◌≢◌, true, false, [], arith}
use push_streamer_client.Prelude.Int.{ℤ, pos, eq_ℤ_refl}
use push_streamer_client.Hid.{Keyboard, down, step, key_down, key_up, key_report}
use push_streamer_client.Hid.Tables.{has}
use push_streamer_client.Hid.Invariant.{IsValid, step-IsValid}
use push_streamer_client.Hid.Refinement.{holds, key_down-holds}
use push_streamer_client.Hid.Reports.{
  full_report, modifier_byte, key_down_report, key_down_hides, key_up_report,
}

key_down-IsValid : (s : Keyboard) (k : ℤ) → IsValid s → IsValid (key_down s k).0
unfolding step
key_down-IsValid s k v = step-IsValid s (down k) v

-- In a valid state with a free slot a key with a usage code is pressed, and then a key that has none,
-- such as a modifier. The first report shows all that is held. After the second press the key is
-- still held, but the second report shows the modifiers and no key at all, as if every key had been
-- released. The report of the next release, of any key, shows all that is held again.
pub modifier_hides :
    (s : Keyboard) (j k m : ℤ)
    → IsValid s
    → j ≢ pos 0
    → has j s.key_code ≡ true
    → holds s (pos 0) ≡ true
    → has k (key_down s j).0.key_code ≡ false
    → let s1 = (key_down s j).0 in
      let s2 = (key_down s1 k).0 in
      ((key_down s j).1 ≡ full_report s1)
      × (holds s2 j ≡ true)
      × ((key_down s1 k).1 ≡ key_report (modifier_byte s2) [])
      × ((key_up s2 m).1 ≡ full_report (key_up s2 m).0)
modifier_hides s j k m v n h f e =
    let s1 = (key_down s j).0 in
    let s2 = (key_down s1 k).0 in
    let v1 = key_down-IsValid s j v in
    let held1 : holds s1 j ≡ true = ground (arith, key_down-holds s j j v n, eq_ℤ_refl j, h, f) in
    let held2 : holds s2 j ≡ true = ground (arith, key_down-holds s1 j k v1 n, held1) in
    (
      key_down_report s j v h,
      held2,
      (key_down_hides s1 k v1 e).1,
      key_up_report s2 m (key_down-IsValid s1 k v1),
    )
