-- ===== src/Consumer.antt =====
-- consumerkeyboardvalue.h: the thread `ConsumerKeyBoardValue` that runs the queued callbacks. One
-- thread produces and one consumes; the model interleaves whole operations of the two. (The
-- source's queue has no lock: the mutex lines are commented out.)
pub mod Laws
mod Tests
use push_streamer_client.Prelude.{
  ℕ, ◌≡◌, Bool, true, false, Option, none, some, List, [], ◌∷◌, ◌++◌, if◌then◌else◌,
}
use push_streamer_client.Device.{DeviceCall, Callback, run_callback}

pub data KeyBoardType : Type 0 where
  no_type normal_key_action handle_shake_direct_key mouse_action : KeyBoardType

unfoldable pub same_type : KeyBoardType → KeyBoardType → Bool
same_type no_type no_type = true
same_type normal_key_action normal_key_action = true
same_type handle_shake_direct_key handle_shake_direct_key = true
same_type mouse_action mouse_action = true
same_type _ _ = false

-- `m_pointer` is always null, and `m_role` is never set or read.
pub record Products : Type 0 where
  pub type : KeyBoardType
  pub callback : Callback

-- `m_threadFlag`, `m_keyboardVector` with its front first, and `m_filterOutKeyMap`.
pub record Consumer : Type 0 where
  pub thread_flag : Bool
  pub keyboard_vector : List Products
  pub filter_out_key_map : List (KeyBoardType × Bool)

-- The constructor.
unfoldable pub new_consumer : Consumer
new_consumer = record {
  thread_flag = true;
  keyboard_vector = [];
  filter_out_key_map =
      (no_type, true)
      ∷ (normal_key_action, true)
      ∷ (handle_shake_direct_key, true)
      ∷ (mouse_action, true)
      ∷ [];
}

-- `Produce`: both of its branches push the value; the result is always -1.
unfoldable pub produce : Consumer → Products → Consumer
produce c p = record c { keyboard_vector = c.keyboard_vector ++ p ∷ [] }

-- The lookup in `m_filterOutKeyMap`.
unfoldable pub find_type : KeyBoardType → List (KeyBoardType × Bool) → Option Bool
unfolding same_type
find_type t [] = none
find_type t ((u, b) ∷ m) = if same_type u t then some b else find_type t m

unfoldable pub assign_type :
    KeyBoardType → Bool → List (KeyBoardType × Bool) → List (KeyBoardType × Bool)
unfolding same_type
assign_type t b [] = []
assign_type t b ((u, c) ∷ m) = if same_type u t then (u, b) ∷ m else (u, c) ∷ assign_type t b m

-- `FilterKeyType`: only a type that is there is set.
unfoldable pub filter_key_type : Consumer → KeyBoardType → Bool → Consumer
unfolding assign_type
filter_key_type c t b = record c { filter_out_key_map = assign_type t b c.filter_out_key_map }

-- `IsFilterOutKeyType`.
unfoldable pub is_filter_out_key_type : Consumer → KeyBoardType → Bool
unfolding find_type
is_filter_out_key_type c t = elim (find_type t c.filter_out_key_map) [ some b ↦ b | none ↦ false ]

-- The flag that `Stop` clears.
unfoldable pub stop : Consumer → Consumer
stop c = record c { thread_flag = false }

-- One round of the loop of `run`: the front product is taken by copy, called, and popped. `ok` is
-- what the device answers to the first call.
unfoldable pub consume : Consumer → List Products → Bool → Consumer × List DeviceCall
unfolding run_callback
consume c [] ok = (c, [])
consume c (p ∷ ps) ok = (record c { keyboard_vector = ps }, run_callback p.callback ok)

-- `while(m_threadFlag)`.
unfoldable pub round : Consumer → Bool → Consumer × List DeviceCall
round c ok = if c.thread_flag then consume c c.keyboard_vector ok else (c, [])

-- An interleaving of the producer and the loop.
pub data Action : Type 0 where
  produces : Products → Action
  rounds : Bool → Action
  stops : Action

-- The consumer, and the calls made so far.
pub record Run : Type 0 where
  pub consumer : Consumer
  pub calls : List DeviceCall

unfoldable pub step : Run → Action → Run
step r (produces p) = record r { consumer = produce r.consumer p }
step r (rounds ok) =
    let (c, ds) = round r.consumer ok in record { consumer = c; calls = r.calls ++ ds }
step r stops = record r { consumer = stop r.consumer }

unfoldable pub run : Run → List Action → Run
run r [] = r
run r (a ∷ as') = run (step r a) as'
