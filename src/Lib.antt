-- ===== src/Lib.antt =====
-- A model of the push-stream client: a Windows program that runs on a cloud-game node. It takes
-- commands to start and to stop a game from a relay server over a web socket, starts the game and
-- the program that streams its picture, and turns the key and mouse messages of the player into
-- reports of a virtual HID device.
--
-- The parts, and the files that model them (paths from the repository's root):
-- - Hid: cloudGame/include/libGetrtpcmd_copy.cpp, the class `libGetrtpcmd`. The state is the two
--   tables and the held keys; `key_down`, `key_up` and the mouse functions return the report that
--   the source sends to the device. Hid/Tables has the tables, Hid/Slots the five key slots, and
--   Hid/Open the search for the device among the machine's interfaces.
-- - Http: the downloads of the same class. libcurl is a parameter.
-- - Device and Consumer: consumerkeyboardvalue.h, the thread that runs queued callbacks, and the
--   callbacks of keyvaluetransformt.cpp as data. A schedule interleaves producing, rounds of the
--   thread and stopping, each as a whole; the queue's own memory accesses, which the source does
--   not lock, are not interleaved.
-- - Keymap: keyvaluetransformt.cpp, the class `KeyValueTransformt`. Keymap has the files and the
--   cache, Keymap/Direction and Keymap/Stick the stick, Keymap/Keys the buttons and the mouse. It
--   reads ini files by Ini and queues into Consumer.
-- - Ini: dealinifile.cpp, and GameInfo: recordgameinfo.cpp, which keeps the state of the game in
--   an ini file so that a restart finds it.
-- - Singleton: `RecordGameInfo::GetInstance` of recordgameinfo.cpp and `QLog::instance` of
--   qlog4qt.cpp, in turns of the threads that ask for them, and of the one that releases the
--   first.
-- - Session: cloudstreamer.cpp, the functions of `CloudStreamer` that start, stop and recover a
--   game. Session/Config has the lookups of games, Session/Process the processes, Session/Actions
--   the three actions of a start, Session/Messages the JSON messages, Session/Callbacks the
--   callbacks, Session/Resolution the change of the stream's values, Session/Dispatch
--   `ParseMessageCallback`, Session/Protect the loop that starts the streamer again, and
--   Session/Number the number of a SignIn message. Effects on other programs are appended to a
--   list, and a `World` answers what the program asks.
-- - Session/Outgoing: the texts of the messages to the relay server, with their signs, over a
--   parameter for the part of jsoncpp that builds values; `send_effect` is the signal `Send`,
--   which ends in Relay.
-- - Session/ReportTimer: the timer of the reports and its thread; timeouts are events. A message
--   runs the timer's restart as its report alone in Session/Dispatch.
-- - Session/Threads: the detached threads of the callbacks, and their interleavings as lists of
--   choices: a message arrives, or a thread has its next turn. ProtectGstLaunch is one of them.
-- - Panel: cloudstreamer.cpp, the window: Panel/Files the texts that it reads from
--   streamConfig.ini, Panel/Presses the buttons and the exit. It works on the state of Session.
-- - KeyMessages: cloudstreamer.cpp, how `KeyBoardThread` handles a message of the player:
--   KeyMessages has the keyboards, the mouse and the gamepad, KeyMessages/Joystick the joystick,
--   and KeyMessages/Dispatch `MessageCallback` with the test of the window in front. Gamepad
--   messages use Keymap with the scaling of Keymap/Range, joystick messages Buttons; all others
--   make calls of Device.
-- - KeyLink: cloudstreamer.cpp, the connection of `KeyBoardThread`: start, stop, login, the thread
--   that connects again, and the timer that pings.
-- - Relay: websocketconnection.cpp and wsservicecloudgamethread.cpp, the connection to the relay
--   server. What websocketpp and Qt's signals do is a sequence of events; `steps` runs them.
-- - Service: wsservicecloudgame.cpp, which passes the messages of Relay on to a `Receiver`. The
--   session is one (`session_receiver`).
-- - Start: main.cpp, which binds the service to its receiver, connects it, and runs its events.
-- - MutexCell: mutexcellcallback.cpp, a queue of callbacks that are called under mutexes. A
--   relation, `Reachable`, has the steps of its thread and of the others.
-- - Text: `split` of cloudstreamer.cpp, by which Session cuts the path of a game and KeyMessages a
--   mouse message. Buttons: the functions of cloudstreamer.cpp that write bits into bytes.
--
-- Parameters, since their code is not the project's: `Qt` (QSettings, files and text functions,
-- with the laws `SettingsLaws`, and `KeysApart` and `FlagTexts` for the names and numbers that
-- GameInfo uses), `Floats` (comparisons of `float`), `Json` and `Reader` (jsoncpp, with the laws
-- `SetTextLaws` for members that are set; `Reader` also has `atoi` and the scaling of a coordinate
-- by floating-point arithmetic), `Scale` (the arithmetic of the joystick's axes), `Junk` (bytes
-- that are read and not set, and shifts by a count out of range, which C++ leaves open), `Builder`
-- (how jsoncpp builds values, with the laws `BuilderLaws`, and `LocalTexts` for numbers and hashes
-- as texts), `Curl` and `Disk` (libcurl, and files of the C library) and `World` (the processes,
-- CloudGame.h, the clock, the hash and a key of streamConfig.ini). Qt/Example and the Tests have
-- concrete ones.
--
-- Integers: codes are ℤ, and the coordinates of the mouse wrap at 65536 as `UINT16` does; a byte
-- of the buttons is a number below 256, and an `int` that is written into it is taken by its
-- remainder. The loops that wait for a process have fuel, the number of questions that they may
-- ask; theorems say how much is enough. The loop of `ProtectGstLaunch` has fuel too, and runs
-- until it is stopped. `Power2` has 30 rounds, since an `int` is below 2 ^ 31, and `ReleaseQueue`
-- needs three. `DeviceOpen` has the 1024 rounds of the source. All other loops are recursions on
-- lists or texts.
--
-- Not modelled: crash dumps, the view of the log and the tray icon, which are input and output;
-- the copies of websocketpp, log4qt, jsoncpp and easywsclient. `handle_message` of Session runs
-- the callback of a message before the next message; Session/Threads interleaves them, each
-- callback but StartGameCallback and ProtectGstLaunch as one step.
pub mod Buttons
pub mod Consumer
pub mod Device
pub mod GameInfo
pub mod Hid
pub mod Http
pub mod Ini
pub mod KeyLink
pub mod KeyMessages
pub mod Keymap
pub mod MutexCell
pub mod Panel
pub mod Prelude
pub mod Qt
pub mod Relay
pub mod Service
pub mod Session
pub mod Singleton
pub mod Start
pub mod Text
