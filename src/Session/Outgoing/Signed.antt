-- ===== src/Session/Outgoing/Signed.antt =====
-- What the relay server reads of the messages that cloudstreamer.cpp builds.
use push_streamer_client.Prelude.{
  ℕ, ◌≡◌, refl, ◌∙◌, ap, sym, subst, true, false, some, List, [], ◌∷◌, String, str_append, str_eq,
  if◌then◌else◌,
}
use push_streamer_client.Prelude.Int.{ℤ, pos}
use push_streamer_client.Qt.{Qt, is_empty}
use push_streamer_client.Session.{World}
use push_streamer_client.Session.Messages.{Json}
use push_streamer_client.Session.Outgoing.{
  Builder, BuilderLaws, assign, root, sign_in_members, report_members, feed_back_members,
  transfer_sign_string_ex, message_feed_back,
}

module _ (qt : Qt) (w : World) (js : Json) (b : Builder js) (sign_key : String) where
  open js use {Value}

  -- A text that is signed with the key, as a server reads it: the sign is the hash of the time, the
  -- key and the number in the same text; and the text has a type, a session and data.
  pub record Accepted (t type session : String) (Data : Value → Type 0) : Type 0 where
    pub value : Value
    pub nonce : String
    pub epoch : String
    pub parsed : js.parse t ≡ some value
    pub nonce_is : js.text (js.get value "noncestr") ≡ some nonce
    pub epoch_is : js.text (js.get value "timestamp") ≡ some epoch
    pub signed :
        js.text (js.get value "sign") ≡ some (w.md5 (str_append (str_append epoch sign_key) nonce))
    pub type_is : js.text (js.get value "type") ≡ some type
    pub session_is : js.text (js.get value "sessionId") ≡ some session
    pub has : Data (js.get value "data")

  -- The texts that the 8 bits of the system keep: numbers and hashes have ASCII letters only.
  pub record LocalTexts : Type 0 where
    pub to_local-number : (n : ℤ) → qt.to_local (qt.number n) ≡ qt.number n
    pub to_local-md5 : (t : String) → qt.to_local (w.md5 t) ≡ w.md5 t

  -- The last value that is assigned to a name.
  unfoldable pub assigned : String → List (String × Value) → Value → Value
  assigned j [] v = v
  assigned j ((k, x) ∷ m) v = assigned j m (if str_eq k j then x else v)

  get-assign :
      BuilderLaws js b
      → (m : List (String × Value)) (v : Value) (j : String) → js.is_object v ≡ true
      → js.get (assign js b v m) j ≡ assigned j m (js.get v j)
  unfolding assign assigned
  get-assign laws [] v j o = refl
  get-assign laws ((k, x) ∷ m) v j o =
      get-assign laws m (b.set v k x) j (laws.set_object v x k o)
      ∙ ap (assigned j m) (laws.get-set v x k j o)

  -- A name that some assignments give a value whatever was there.
  get-members :
      BuilderLaws js b
      → (m : List (String × Value)) (j : String) (x : Value) → assigned j m (js.get b.null j) ≡ x
      → js.get (assign js b b.null m) j ≡ x
  get-members laws m j x e = get-assign laws m b.null j laws.null_object ∙ e

  text-members :
      BuilderLaws js b
      → (m : List (String × Value)) (j t : String) → assigned j m (js.get b.null j) ≡ b.of_text t
      → js.text (js.get (assign js b b.null m) j) ≡ some t
  text-members laws m j t e =
      ap (js.text) (get-members laws m j (b.of_text t) e) ∙ laws.text-of_text t

  -- The root is accepted.
  pub root-Accepted :
      BuilderLaws js b
      → LocalTexts
      → (n ms : ℕ) (t type session : String) (members : List (String × Value))
        (Data : Value → Type 0)
      → js.parse t ≡ some (root qt w js b sign_key n ms type session members)
      → Data (assign js b b.null members)
      → Accepted t type session Data
  unfolding root assigned
  root-Accepted laws kept n ms t type session members Data p d =
      let nonce = qt.number (pos n) in
      let epoch = qt.number (pos ms) in
      record {
        value = root qt w js b sign_key n ms type session members;
        nonce = nonce;
        epoch = epoch;
        parsed = p;
        nonce_is =
            text-members laws _ "noncestr" nonce (ap (b.of_text) (kept.to_local-number (pos n)));
        epoch_is =
            text-members laws _ "timestamp" epoch (ap (b.of_text) (kept.to_local-number (pos ms)));
        signed = text-members laws _ "sign" _ (ap (b.of_text) (kept.to_local-md5 _));
        type_is = text-members laws _ "type" type refl;
        session_is = text-members laws _ "sessionId" session refl;
        has = subst Data (sym (get-members laws _ "data" _ refl)) d;
      }

  -- The data of the three messages.
  abbrev pub SignInData : String → Value → Type 0
  SignInData device d = js.text (js.get d "deviceNo") ≡ some (qt.to_local device)

  abbrev pub ReportData : String → String → ℕ → Value → Type 0
  ReportData device game running d =
      (js.text (js.get d "deviceNo") ≡ some (qt.to_local device))
      × (js.text (js.get d "gameId") ≡ some game)
      × (js.number (js.get d "status") ≡ some (pos running))
      × (js.text (js.get d "pushVersion") ≡ some "1.0.1.18")

  abbrev pub FeedBackData : String → String → String → Value → Type 0
  FeedBackData type code message d =
      (js.text (js.get d "receiveType") ≡ some type)
      × (js.text (js.get d "resultCode") ≡ some code)
      × (js.text (js.get d "resultMessage") ≡ some message)

  pub sign_in_members-SignInData :
      BuilderLaws js b
      → (device : String)
      → SignInData device (assign js b b.null (sign_in_members qt w js b sign_key device))
  unfolding assigned
  sign_in_members-SignInData laws device = text-members laws _ "deviceNo" _ refl

  report_members-ReportData :
      BuilderLaws js b
      → (device game : String) (running : ℕ)
      → ReportData device game running
          (assign js b b.null (report_members qt w js b sign_key device game running))
  unfolding assigned
  report_members-ReportData laws device game running = (
    text-members laws _ "deviceNo" _ refl,
    text-members laws _ "gameId" _ refl,
    ap (js.number) (get-members laws _ "status" (b.of_int (pos running)) refl)
        ∙ laws.number-of_int (pos running),
    text-members laws _ "pushVersion" _ refl,
  )

  feed_back_members-FeedBackData :
      BuilderLaws js b
      → (type code message : String)
      → FeedBackData type code message
          (assign js b b.null (feed_back_members qt w js b sign_key type code message))
  unfolding assigned
  feed_back_members-FeedBackData laws type code message = (
    text-members laws _ "receiveType" _ refl,
    text-members laws _ "resultCode" _ refl,
    text-members laws _ "resultMessage" _ refl,
  )

  -- A GameReportDeviceState message is accepted by a server that knows the key, with the session, the
  -- device, the game and the status that were sent; so is a ReceiveCallback message about a type of
  -- message that is not empty, with its three texts. The texts are those that jsoncpp parses back.
  pub messages-Accepted :
      BuilderLaws js b
      → LocalTexts
      → (n ms : ℕ) (device session game : String) (running : ℕ) (type code message : String)
      → let v =
          root qt w js b sign_key n ms "GameReportDeviceState" session
            (report_members qt w js b sign_key device game running) in
        let u =
          root qt w js b sign_key n ms "ReceiveCallback" session
            (feed_back_members qt w js b sign_key type code message) in
        js.parse (js.write v) ≡ some v
        → js.parse (js.write u) ≡ some u
        → is_empty type ≡ false
        → Accepted
            (transfer_sign_string_ex qt w js b sign_key n ms device session game running)
            "GameReportDeviceState"
            session
            (ReportData device game running)
          × ((t : String) × (message_feed_back qt w js b sign_key n ms session type code message
                ≡ some t)
              × Accepted t "ReceiveCallback" session (FeedBackData type code message))
  unfolding transfer_sign_string_ex message_feed_back
  messages-Accepted laws kept n ms device session game running type code message p q h = (
    root-Accepted laws kept n ms _ "GameReportDeviceState" session _ _ p
        (report_members-ReportData laws device game running),
    (
      _,
      rw h refl,
      root-Accepted laws kept n ms _ "ReceiveCallback" session _ _ q
          (feed_back_members-FeedBackData laws type code message),
    ),
  )
