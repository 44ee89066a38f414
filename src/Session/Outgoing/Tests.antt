-- ===== src/Session/Outgoing/Tests.antt =====
-- The messages to the relay server at concrete inputs. A JSON object is the list of its assignments here,
-- the last one first; one text is parsed as the answer of the server, and the texts of the three messages
-- as what they were written from.
use push_streamer_client.Prelude.{
  ◌≡◌, refl, Bool, true, false, ◌||◌, Option, none, some, List, [], ◌∷◌, String, str_append, str_eq,
  if◌then◌else◌,
}
use push_streamer_client.Prelude.Int.{ℤ, pos}
use push_streamer_client.Qt.Example.{to_int, number}
use push_streamer_client.Relay.{Relay, text, send_frame}
use push_streamer_client.Session.{done, Session, sign_in}
use push_streamer_client.Session.Messages.{Json}
use push_streamer_client.Session.Number.{generate_random_number, random_loop}
use push_streamer_client.Session.Dispatch.{parse_message_callback}
use push_streamer_client.Session.Tests.{qt, late, fresh}
use push_streamer_client.Session.Outgoing.{
  Builder, BuilderLaws, assign, root, sign_in_members, report_members, feed_back_members,
  transfer_sign_string_ex, message_feed_back, send_effect,
}
use push_streamer_client.Session.Outgoing.Signed.{
  Accepted, LocalTexts, SignInData, ReportData, FeedBackData, messages-Accepted,
}
use push_streamer_client.Session.Outgoing.Handshake.{IsAnswer, sign_in-Accepted}

pub data Tree : Type 0 where
  null : Tree
  str : String → Tree
  num : ℤ → Tree
  member : Tree → String → Tree → Tree

unfoldable pub look_up : Tree → String → Tree
look_up (member v k x) j = if str_eq k j then x else look_up v j
look_up _ j = null

unfoldable pub has : Tree → String → Bool
has (member v k x) j = str_eq k j || has v j
has _ j = false

unfoldable pub text_of : Tree → Option String
text_of (str t) = some t
text_of _ = none

unfoldable pub number_of : Tree → Option ℤ
number_of (num n) = some n
number_of _ = none

unfoldable pub holds : Tree → Bool
holds null = true
holds (member v k x) = true
holds _ = false

unfoldable pub is_text : Tree → Bool
is_text (str t) = true
is_text _ = false

unfoldable pub print_tree : Tree → String
print_tree null = "null"
print_tree (str t) = str_append "'" (str_append t "'")
print_tree (num n) = number n
print_tree (member v k x) =
    str_append (print_tree v) (str_append "," (str_append k (str_append ":" (print_tree x))))

-- The texts that are parsed.
unfoldable pub read_tree : List Tree → String → Option Tree
read_tree [] t = none
read_tree (v ∷ vs) t = let rest = read_tree vs t in if str_eq (print_tree v) t then some v else rest

abbrev pub tree_json : List Tree → Json
tree_json vs = record {
  Value = Tree;
  parse = read_tree vs;
  get = look_up;
  is_member = has;
  is_object = holds;
  is_string = is_text;
  text = text_of;
  number = number_of;
  as_string = text_of;
  atoi = to_int;
  set_text = λ v k t. member v k (str t);
  set_init = λ v. member v "init" (num (pos 123));
  write = print_tree;
}

abbrev pub tree_builder : (vs : List Tree) → Builder (tree_json vs)
tree_builder vs = record { null = null; set = member; of_text = str; of_int = num }

tree_laws : (vs : List Tree) → BuilderLaws (tree_json vs) (tree_builder vs)
unfolding look_up text_of number_of holds
tree_laws vs = record {
  null_object = refl;
  set_object = λ v x k o. refl;
  get-set = λ v x k j o. refl;
  text-of_text = λ t. refl;
  number-of_int = λ n. refl;
}

kept : (vs : List Tree) → LocalTexts qt late (tree_json vs) (tree_builder vs) "key"
kept vs = record { to_local-number = λ n. refl; to_local-md5 = λ t. refl }

-- The messages, which do not depend on the texts that are parsed.
abbrev pub report_tree : Tree
report_tree =
    root qt late (tree_json []) (tree_builder []) "key" 41 1000 "GameReportDeviceState" "abc"
      (report_members qt late (tree_json []) (tree_builder []) "key" "d1" "race" 1)

abbrev pub feed_back_tree : Tree
feed_back_tree =
    root qt late (tree_json []) (tree_builder []) "key" 41 1000 "ReceiveCallback" "abc"
      (feed_back_members qt late (tree_json []) (tree_builder []) "key" "StartGame" "1" "failed")

abbrev pub sign_in_tree : Tree
sign_in_tree =
    root qt late (tree_json []) (tree_builder []) "key" 3780 1000 "SignIn" ""
      (sign_in_members qt late (tree_json []) (tree_builder []) "key" "d1")

abbrev pub answer : Tree
answer = member null "code" (str "0")

abbrev pub trees : List Tree
trees = report_tree ∷ feed_back_tree ∷ sign_in_tree ∷ answer ∷ []

abbrev pub tj : Json
tj = tree_json trees

abbrev pub tb : Builder tj
tb = tree_builder trees

messages-Accepted_example :
    Accepted qt late tj tb "key"
      (transfer_sign_string_ex qt late tj tb "key" 41 1000 "d1" "abc" "race" 1)
      "GameReportDeviceState"
      "abc"
      (ReportData qt late tj tb "key" "d1" "race" 1)
    × ((t : String) × (message_feed_back qt late tj tb "key" 41 1000 "abc" "StartGame" "1" "failed"
          ≡ some t)
        × Accepted qt late tj tb "key" t "ReceiveCallback" "abc"
            (FeedBackData qt late tj tb "key" "StartGame" "1" "failed"))
unfolding root assign read_tree print_tree number
messages-Accepted_example =
    messages-Accepted qt late tj tb "key" (tree_laws trees) (kept trees) 41 1000 "d1" "abc" "race" 1
      "StartGame" "1" "failed" refl refl refl

abbrev pub connected : Relay
connected = record {
  ws_url = "ws";
  login_command = "";
  active_disconnect = false;
  running = true;
  socket = some (record { uri = "ws"; is_connected = true });
  pending = 0;
  outputs = [];
}

abbrev pub answer_text : String
answer_text = "null,code:'0'"

is_answer : IsAnswer qt late tj tb "key" answer_text
unfolding root assign read_tree print_tree number has look_up text_of
is_answer = record {
  value = answer;
  parsed = refl;
  no_type = refl;
  has_code = refl;
  code_is = refl;
}

sign_in-Accepted_example :
    (s' : Session qt) × (t : String) × (parse_message_callback qt late tj fresh answer_text
      ≡ done (s', none))
    × (s'.effects ≡ sign_in "d1" ∷ [])
    × (s'.device_no ≡ "d1")
    × ((send_effect qt late tj tb "key" connected
          (3 ∷ 13 ∷ 17 ∷ 8 ∷ [])
          41
          1000
          s'.session_id
          (sign_in "d1")).outputs
        ≡ send_frame text t ∷ [])
    × Accepted qt late tj tb "key" t "SignIn" "" (SignInData qt late tj tb "key" "d1")
unfolding root assign read_tree print_tree number generate_random_number random_loop
sign_in-Accepted_example =
    sign_in-Accepted qt late tj tb "key" (tree_laws trees) (kept trees) fresh answer_text connected
      (record { uri = "ws"; is_connected = true }) (3 ∷ 13 ∷ 17 ∷ 8 ∷ []) 3780 41 1000 is_answer
      refl refl refl refl refl
