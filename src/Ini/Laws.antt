-- ===== src/Ini/Laws.antt =====
-- The theorems of dealinifile.cpp.
use push_streamer_client.Prelude.{
  ◌≡◌, refl, ◌≢◌, none, some, List, [], ◌∷◌, ◌++◌, String, All, str_eq_iff, arith, if◌then◌else◌,
}
use push_streamer_client.Qt.{Qt, SettingsLaws}
use push_streamer_client.Ini.{
  Ini, to_string, key_path, get_value, find_group, get_value_where, set_ini_value,
}

module _ (qt : Qt) where
  -- A read of a group and a key after `SetValue` on an open file: the value that was set, in its
  -- local encoding, under every spelling of its path, and else what was there.
  pub get_value-set_ini_value :
      SettingsLaws qt
      → (s : qt.Settings) (topic key v topic' key' : String) → topic ≢ ""
      → key ≢ ""
      → get_value qt (set_ini_value qt (some s) topic key v).0 topic' key' ≡ (
          if qt.same_key (key_path topic key) (key_path topic' key')
          then some (qt.to_local v)
          else get_value qt (some s) topic' key')
  unfolding get_value set_ini_value
  get_value-set_ini_value l s topic key v topic' key' ht hk = ground (
    arith,
    str_eq_iff topic "",
    str_eq_iff key "",
    l.value-set_value s (key_path topic key) (qt.to_local v) (key_path topic' key'),
  )

  -- The group has the value under the key.
  abbrev pub Has : Ini qt → String → String → String → Type 0
  Has ini key key_value g = key_value ≡ to_string (get_value qt ini g key)

  find_group-first :
      (ini : Ini qt) (key key_value goal : String) (before : List String) (g : String)
      (after : List String)
      → All (λ h. ¬ Has ini key key_value h) before
      → Has ini key key_value g
      → find_group qt ini key key_value goal (before ++ g ∷ after) ≡ get_value qt ini g goal
  unfolding find_group
  find_group-first ini key key_value goal [] g after a h =
      ground (arith, str_eq_iff key_value (to_string (get_value qt ini g key)))
  find_group-first ini key key_value goal (b ∷ bs) g after a h = ground (
    arith,
    str_eq_iff key_value (to_string (get_value qt ini b key)),
    find_group-first ini key key_value goal bs g after a.1 h,
    a.0,
  )

  find_group-none :
      (ini : Ini qt) (key key_value goal : String) (gs : List String)
      → All (λ h. ¬ Has ini key key_value h) gs
      → find_group qt ini key key_value goal gs ≡ none
  unfolding find_group
  find_group-none ini key key_value goal [] a = refl
  find_group-none ini key key_value goal (b ∷ bs) a = ground (
    arith,
    str_eq_iff key_value (to_string (get_value qt ini b key)),
    find_group-none ini key key_value goal bs a.1,
    a.0,
  )

  -- The search by a value on an open file, with a key that is not empty: if no group before `g` has
  -- the value under the key, and `g` has it, the result is the goal of `g`.
  pub get_value_where-first :
      (s : qt.Settings) (key key_value goal : String) (before : List String) (g : String)
      (after : List String)
      → key ≢ ""
      → qt.child_groups s ≡ before ++ g ∷ after
      → All (λ h. ¬ Has (some s) key key_value h) before
      → Has (some s) key key_value g
      → get_value_where qt (some s) key key_value goal ≡ get_value qt (some s) g goal
  unfolding get_value_where
  get_value_where-first s key key_value goal before g after hk e a h =
      ground
        (arith, str_eq_iff key "", find_group-first (some s) key key_value goal before g after a h)

  -- The search by a value on an open file has no result if no group has the value under the key.
  pub get_value_where-none :
      (s : qt.Settings) (key key_value goal : String)
      → All (λ h. ¬ Has (some s) key key_value h) (qt.child_groups s)
      → get_value_where qt (some s) key key_value goal ≡ none
  unfolding get_value_where
  get_value_where-none s key key_value goal a =
      ground (arith, find_group-none (some s) key key_value goal (qt.child_groups s) a)
