-- ===== src/Session.antt =====
-- cloudstreamer.cpp: the game session of the class `CloudStreamer`, that is, the fields and
-- functions that start, watch and stop a game and its stream. What a function does to other
-- programs is a list of effects. What it asks of them is answered by a `World`, which may answer
-- differently each time.
pub mod Config
pub mod Process
pub mod Actions
pub mod Messages
pub mod Callbacks
pub mod Resolution
pub mod Dispatch
pub mod Threads
pub mod Protect
pub mod Frames
pub mod Stops
pub mod Starts
pub mod Streams
pub mod Resolutions
pub mod Commands
pub mod Watch
pub mod Number
pub mod ReportTimer
pub mod Outgoing
pub mod Tests
pub mod CommandTests
use push_streamer_client.Prelude.{
  ℕ, suc, ◌+◌, ◌≡◌, Bool, true, false, Option, none, some, List, [], ◌∷◌, ◌++◌, String,
}
use push_streamer_client.Prelude.Int.{ℤ}
use push_streamer_client.Qt.{Qt}
use push_streamer_client.Ini.{Ini}
use push_streamer_client.GameInfo.{GameInfo}

-- How a function ends that may wait, or read a message: with a value; still waiting when the fuel of
-- a loop is used up; or aborted by an assertion of the JSON library.
pub data Run {ℓ} (A : Type ℓ) : Type ℓ where
  done : A → Run A
  waiting aborted : Run A

infixl 5 ◌>>=◌
abbrev pub ◌>>=◌ {ℓ κ} : {A : Type ℓ} {B : Type κ} → Run A → (A → Run B) → Run B
done a >>= f = f a
waiting >>= f = waiting
aborted >>= f = aborted

-- The answers of the operating system and of CloudGame.h at each moment: the snapshot of the
-- processes (their names and pids), the results of `closepush` and `push`, and the clock as text;
-- the hash function of Qt, the key of the server of the player's keys, and the file of the device number.
pub record World : Type 0 where
  pub processes : ℕ → List (String × ℕ)
  pub close_push_ok : ℕ → Bool
  pub push_ok : ℕ → Bool
  pub epoch_time : ℕ → String
  pub md5 : String → String
  -- `g_wsServerKey`, as the constructor read it from streamConfig.ini
  pub ws_server_key : String
  -- the contents of c:\testDeviceNo.txt, if it is there
  pub device_file : Option String

-- `PushStreamerParams`.
pub record PushStreamerParams : Type 0 where
  pub server_url : String
  pub domain : String
  pub room_id : String
  pub framerate : String
  pub bitrate : String
  pub deadline : String
  pub cpuused : String
  pub x : String
  pub y : String
  pub mode : String
  pub capmode : String
  pub vol : String

-- `StartGameParams`.
pub record StartGameParams : Type 0 where
  pub game_id : String
  pub start_game_params : String
  pub data_text : String
  pub force : ℤ

-- The fields of `KeyBoardThread` that the session sets, and the arguments of its `start`.
pub record KeyBoardThread : Type 0 where
  pub device_number : String
  pub game_pid : ℕ
  pub key_paths : Option (String × String × String)
  pub ws_url : String
  pub login_command : String

pub data UiMode : Type 0 where
  default_mode only_push_streamer only_key_board : UiMode

pub data StartGameModel : Type 0 where
  normal_model only_push_streamr : StartGameModel

pub data Effect : Type 0 where
  -- `LastGaspGoalPushStreamer`: taskkill of gst-launch-1.0.exe
  kill_streamer : Effect
  -- `ExecuteOutterScript`: the script and its arguments
  execute_script : String → List String → Effect
  -- `StartGame` of CloudGame.h, with the arguments as one text
  start_script : String → String → Effect
  -- `SetGStreamerLogPath`
  set_log_path : String → Effect
  -- `wfile`: address and path
  download : String → String → Effect
  -- `closepush`: room and server
  close_push : String → String → Effect
  -- `push`: room, server, domain, and the numbers from the frame rate to the volume
  push : String → String → String → List ℤ → Effect
  -- a message GameReportDeviceState: device, session, game and status
  report : String → String → String → ℕ → Effect
  -- a message ReceiveCallback: type, code and text
  feed_back : String → String → String → Effect
  -- a message SignIn, with the device number
  sign_in : String → Effect
  keyboard_start : KeyBoardThread → Effect
  keyboard_stop : Effect
  protect_start : Effect
  sleep : ℕ → Effect

-- The fields of the class, the singleton `RecordGameInfo`, the number of answers that the world
-- has given, and the effects so far. `config` is the pointer `m_CloudGameConfigIniParse`;
-- `protect` is `m_gstlaunchProtectTheadFlag` behind the pointer to its thread.
pub record Session (qt : Qt) : Type 0 where
  pub device_no : String
  pub session_id : String
  pub game_id : String
  pub game_pid : ℕ
  pub control_url : String
  pub mode : UiMode
  pub config : Option (Ini qt)
  pub info : GameInfo qt
  pub push_streamer_params : PushStreamerParams
  pub start_game_params : StartGameParams
  pub key_board_thread : Option KeyBoardThread
  pub protect : Option Bool
  pub now : ℕ
  pub effects : List Effect

module _ (qt : Qt) where
  -- One more effect.
  abbrev pub emit : Session qt → Effect → Session qt
  emit s e = record s { effects = s.effects ++ e ∷ [] }

  -- One more answer of the world.
  abbrev pub tick : Session qt → Session qt
  tick s = record s { now = suc s.now }
