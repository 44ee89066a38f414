-- ===== src/Keymap/Cache.antt =====
-- The cache of keyvaluetransformt.cpp (`m_keyValueMap`) and the queue behind the class.
use mathlib.Core.List.{append_assoc, append-nil}
use push_streamer_client.Prelude.{
  ◌≡◌, refl, ◌∙◌, sym, ap, true, false, Option, none, some, List, [], ◌∷◌, ◌++◌, map, String,
  str_eq, str_eq_iff, arith, if◌then◌else◌,
}
use push_streamer_client.Prelude.Int.{ℤ}
use push_streamer_client.Qt.{Qt, is_empty}
use push_streamer_client.Device.{Callback}
use push_streamer_client.Consumer.{Consumer, Products, KeyBoardType, produce}
use push_streamer_client.Keymap.Direction.{Floats, DirectionKey, direction_name}
use push_streamer_client.Keymap.{
  Keymap, map_find, map_assign, no_tables, get_key_value_in_map, set_key_value_in_map,
  add_key_value_to_thread, add_all, lookup_key, get_map_key_value, file_text, lookup_direction,
  get_map_key_value_ex,
}

pub map_find-assign :
    (k j v : String) (m : List (String × String))
    → map_find j (map_assign k v m) ≡ (if str_eq k j then some v else map_find j m)
unfolding map_find map_assign
map_find-assign k j v [] = refl
map_find-assign k j v ((i, w) ∷ m) =
    ground (arith, str_eq_iff k j, str_eq_iff i k, str_eq_iff i j, map_find-assign k j v m)

str_eq_refl : (s : String) → str_eq s s ≡ true
str_eq_refl s = (str_eq_iff s s).1 refl

-- The products that a list of keys makes.
abbrev pub products : KeyBoardType → (ℤ → Callback) → List ℤ → List Products
products t f = map (λ k. record { type = t; callback = f k })

-- The queue of the consumer, empty without one.
abbrev pub queue_of : Option Consumer → List Products
queue_of none = []
queue_of (some c) = c.keyboard_vector

module _ (qt : Qt) (fl : Floats) where
  abbrev pub queue : Keymap qt fl → List Products
  queue s = queue_of s.consumer

  -- A value that was cached is found again.
  pub get-set :
      (s : Keymap qt fl) (key v : String)
      → is_empty key ≡ false
      → get_key_value_in_map qt fl (set_key_value_in_map qt fl s key v) key ≡ qt.to_local v
  unfolding get_key_value_in_map set_key_value_in_map
  get-set s key v h = ground (
    arith,
    map_find-assign (qt.to_local key) (qt.to_local key) (qt.to_local v) s.key_value_map,
    str_eq_refl (qt.to_local key),
  )

  -- The cache does not touch the files or the queue.
  pub set_frame :
      (s : Keymap qt fl) (key v : String)
      → ((set_key_value_in_map qt fl s key v).consumer ≡ s.consumer)
        × (no_tables qt fl (set_key_value_in_map qt fl s key v) ≡ no_tables qt fl s)
  unfolding set_key_value_in_map no_tables
  set_frame s key v = ground arith

  pub get_frame :
      (s : Keymap qt fl) (key : String)
      → ((get_map_key_value qt fl s key).1.consumer ≡ s.consumer)
        × (no_tables qt fl (get_map_key_value qt fl s key).1 ≡ no_tables qt fl s)
  unfolding get_map_key_value
  get_frame s key = ground (arith, set_frame s key (lookup_key qt fl s key))

  -- A lookup that was made once gives the same value again and changes nothing more, if the value
  -- in the files survives the local encoding.
  pub get_map_key_value_twice :
      (s : Keymap qt fl) (key : String)
      → qt.to_local (lookup_key qt fl s key) ≡ lookup_key qt fl s key
      → get_map_key_value qt fl (get_map_key_value qt fl s key).1 key
        ≡ get_map_key_value qt fl s key
  unfolding get_map_key_value
  get_map_key_value_twice s key h =
      let v = lookup_key qt fl s key in ground (arith, set_frame s key v, get-set s key v)

  -- With key files, the value of a key that is not empty and not in the cache is that of its name in
  -- the game's file, or, if it has none there, in the default file; a key with no name has none.
  pub get_map_key_value_miss :
      (s : Keymap qt fl) (key name : String)
      → no_tables qt fl s ≡ false
      → is_empty key ≡ false
      → get_key_value_in_map qt fl s key ≡ ""
      → file_text qt s.name_key_table key ≡ name
      → (get_map_key_value qt fl s key).0 ≡ (
          if is_empty name
          then ""
          else if is_empty (file_text qt s.game_key_board name)
          then file_text qt s.default_key_board name
          else file_text qt s.game_key_board name)
  unfolding get_map_key_value lookup_key
  get_map_key_value_miss s key name t k c e =
      rw (t, k, c, e)
        (ground (arith, str_eq_iff name "", str_eq_iff (file_text qt s.default_key_board name) ""))

  add_one :
      (s : Keymap qt fl) (c : Consumer) (p : Products)
      → s.consumer ≡ some c
      → (add_key_value_to_thread qt fl s p).consumer ≡ some (produce c p)
  unfolding add_key_value_to_thread
  add_one s c p e = ground arith

  pub add_one-queue :
      (s : Keymap qt fl) (c : Consumer) (p : Products)
      → s.consumer ≡ some c
      → queue (add_key_value_to_thread qt fl s p) ≡ queue s ++ p ∷ []
  unfolding add_key_value_to_thread produce
  add_one-queue s c p e = ground arith

  -- The loop appends one product for each key, in order.
  pub add_all-queue :
      (ks : List ℤ) (s : Keymap qt fl) (c : Consumer) (t : KeyBoardType) (f : ℤ → Callback)
      → s.consumer ≡ some c
      → queue (add_all qt fl s t f ks) ≡ queue s ++ products t f ks
  unfolding add_all
  add_all-queue [] s c t f e = sym (append-nil (queue s))
  add_all-queue (k ∷ ks) s c t f e =
      let p : Products = record { type = t; callback = f k } in
      add_all-queue ks (add_key_value_to_thread qt fl s p) (produce c p) t f (add_one s c p e)
      ∙ ap (λ q. q ++ products t f ks) (add_one-queue s c p e)
      ∙ append_assoc (queue s) (p ∷ []) (products t f ks)

  pub add_one-only :
      (s : Keymap qt fl) (o : Option Consumer) (p : Products)
      → s.consumer ≡ o
      → add_key_value_to_thread qt fl s p
        ≡ record s { consumer = (add_key_value_to_thread qt fl s p).consumer }
  unfolding add_key_value_to_thread
  add_one-only s o p e = ground arith

  -- The loop changes nothing but the consumer.
  pub add_all-only :
      (ks : List ℤ) (s : Keymap qt fl) (t : KeyBoardType) (f : ℤ → Callback)
      → add_all qt fl s t f ks ≡ record s { consumer = (add_all qt fl s t f ks).consumer }
  unfolding add_all
  add_all-only [] s t f = refl
  add_all-only (k ∷ ks) s t f =
      let p : Products = record { type = t; callback = f k } in
      add_all-only ks (add_key_value_to_thread qt fl s p) t f
      ∙ ap
          (λ (r : Keymap qt fl). record r {
            consumer = (add_all qt fl (add_key_value_to_thread qt fl s p) t f ks).consumer;
          })
          (add_one-only s s.consumer p refl)

  -- A lookup does not read the consumer.
  pub get_map_key_value-consumer :
      (s : Keymap qt fl) (key : String) (o : Option Consumer)
      → (get_map_key_value qt fl (record s { consumer = o }) key).0
        ≡ (get_map_key_value qt fl s key).0
  unfolding get_map_key_value lookup_key get_key_value_in_map no_tables
  get_map_key_value-consumer s key o = ground arith

  -- Without a consumer the loop does nothing.
  pub add_all-none :
      (ks : List ℤ) (s : Keymap qt fl) (t : KeyBoardType) (f : ℤ → Callback)
      → s.consumer ≡ none
      → (add_all qt fl s t f ks).consumer ≡ none
  unfolding add_all add_key_value_to_thread
  add_all-none [] s t f e = e
  add_all-none (k ∷ ks) s t f e =
      add_all-none ks (add_key_value_to_thread qt fl s (record { type = t; callback = f k })) t f
        (ground arith)

  pub add_all-some :
      (ks : List ℤ) (s : Keymap qt fl) (c : Consumer) (t : KeyBoardType) (f : ℤ → Callback)
      → s.consumer ≡ some c
      → (d : Consumer) × ((add_all qt fl s t f ks).consumer ≡ some d)
  unfolding add_all
  add_all-some [] s c t f e = (c, e)
  add_all-some (k ∷ ks) s c t f e =
      let p : Products = record { type = t; callback = f k } in
      add_all-some ks (add_key_value_to_thread qt fl s p) (produce c p) t f (add_one s c p e)

  pub no_tables-consumer :
      (s : Keymap qt fl) (o : Option Consumer)
      → no_tables qt fl (record s { consumer = o }) ≡ no_tables qt fl s
  unfolding no_tables
  no_tables-consumer s o = refl

  -- A lookup of a direction leaves the queue as it is.
  pub get_ex_frame :
      (s : Keymap qt fl) (d : DirectionKey) (v : List ℤ)
      → (get_map_key_value_ex qt fl s d v).0.consumer ≡ s.consumer
  unfolding get_map_key_value_ex
  get_ex_frame s d v =
      ground (arith, set_frame s (direction_name d) (lookup_direction qt fl s (direction_name d)))
