-- ===== src/Session/Messages.antt =====
-- The JSON messages that the callbacks of cloudstreamer.cpp read.
use push_streamer_client.Prelude.{Bool, Option, none, some, String, if◌then◌else◌}
use push_streamer_client.Prelude.Int.{ℤ, pos}
use push_streamer_client.Session.{Run, done, aborted, ◌>>=◌, PushStreamerParams}

-- What the callbacks use of jsoncpp, which is not the project's code. `text` and `number` are
-- `asCString` and `asInt`; `none` is a failed assertion, on a value of another type.
pub record Json : Type 1 where
  pub Value : Type 0
  -- `Reader::parse`; `none` is a text that is no JSON.
  pub parse : String → Option Value
  -- `operator[]`: a missing member is the null value.
  pub get : Value → String → Value
  pub is_member : Value → String → Bool
  pub is_object : Value → Bool
  pub is_string : Value → Bool
  pub text : Value → Option String
  pub number : Value → Option ℤ
  -- `asString`, which a number has too
  pub as_string : Value → Option String
  -- `atoi` of the C library
  pub atoi : String → ℤ
  -- an object with a member set to a text
  pub set_text : Value → String → String → Value
  -- an object with the member "init" set to 123
  pub set_init : Value → Value
  -- `FastWriter::write`
  pub write : Value → String

-- The members of a StartGame message that are used.
pub record StartMessage : Type 0 where
  pub control_url : String
  pub port : String
  pub params : PushStreamerParams
  pub force : ℤ
  pub login : String
  pub start_params : String

pub record StopMessage : Type 0 where
  pub server_url : String
  pub control_url : String
  pub port : String

-- `ClearFunctionParams`.
abbrev pub no_params : PushStreamerParams
no_params = record {
  server_url = "";
  domain = "";
  room_id = "";
  framerate = "";
  bitrate = "";
  deadline = "";
  cpuused = "";
  x = "";
  y = "";
  mode = "";
  capmode = "";
  vol = "";
}

module _ (js : Json) where
  open js use {Value}

  abbrev pub need {ℓ} : {A : Type ℓ} → Option A → Run A
  need none = aborted
  need (some a) = done a

  -- `root[name].asCString()`.
  abbrev pub field : Value → String → Run String
  field v name = need (js.text (js.get v name))

  -- The login parameters, with the port set to the device number.
  unfoldable pub login_text : Value → String → String
  login_text v port =
      let login = js.get v "keyboardLoginParams" in
      js.write (if js.is_object login then js.set_text (js.set_init login) "port" port else login)

  abbrev pub force_of : Value → Run ℤ
  force_of v =
      let n = need (js.number (js.get v "force")) in
      if js.is_member v "force" then n else done (pos 0)

  -- The part of `StartGameCallback` that reads the message, in the order of the code. `playerUrl`,
  -- `control`, `fileMiniTime` and `isQueuing` are read and not used.
  unfoldable pub read_start : Value → String → Run StartMessage
  read_start v port_text = do
    room_id ← field v "roomId"
    player_url ← field v "playerUrl"
    server_url ← field v "serverUrl"
    control_url ← field v "controlUrl"
    port ← field v "port"
    framerate ← field v "framerate"
    bitrate ← field v "bitrate"
    deadline ← field v "deadline"
    cpuused ← field v "cpuused"
    x ← field v "x"
    y ← field v "y"
    mode ← field v "mode"
    capmode ← field v "capmode"
    vol ← field v "vol"
    control ← field v "control"
    file_mini_time ← field v "fileMiniTime"
    is_queuing ← field v "isQueuing"
    force ← force_of v
    start_params ← field v "startGameParams"
    done (record {
      control_url = control_url;
      port = port;
      params = record {
        server_url = server_url;
        domain = server_url;
        room_id = room_id;
        framerate = framerate;
        bitrate = bitrate;
        deadline = deadline;
        cpuused = cpuused;
        x = x;
        y = y;
        mode = mode;
        capmode = capmode;
        vol = vol;
      };
      force = force;
      login = login_text v port_text;
      start_params = start_params;
    })

  -- The part of `StopGameCallback` that reads the message.
  unfoldable pub read_stop : Value → Run StopMessage
  read_stop v = do
    game_id ← field v "gameId"
    room_id ← field v "roomId"
    server_url ← field v "serverUrl"
    player_url ← field v "playerUrl"
    control_url ← field v "controlUrl"
    port ← field v "port"
    done (record { server_url = server_url; control_url = control_url; port = port })
