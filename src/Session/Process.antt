-- ===== src/Session/Process.antt =====
-- The processes of a game in cloudstreamer.cpp: whether it runs, starting it, killing it. A loop
-- that waits has fuel.
use push_streamer_client.Prelude.{
  ℕ, zero, suc, Bool, true, false, ◌||◌, none, some, List, [], ◌∷◌, String, str_append, str_eq, ltb,
  if◌then◌else◌,
}
use push_streamer_client.Prelude.Int.{pos, eq_ℤ}
use push_streamer_client.Qt.{Qt, is_empty}
use push_streamer_client.Ini.{Ini, to_string, open_file, get_value}
use push_streamer_client.Text.{split as tokens_of}
use push_streamer_client.Session.{
  Run, done, waiting, ◌>>=◌, World, Session, execute_script, start_script, sleep, emit, tick,
}
use push_streamer_client.Session.Config.{get_value_by_game_id, get_game_path_by_id}

-- `isProcessRunning` on a snapshot: the pid of the first process of that name, or 0.
unfoldable pub is_process_running : String → List (String × ℕ) → ℕ
is_process_running name [] = 0
is_process_running name ((exe, pid) ∷ ps) =
    if str_eq name exe then pid else is_process_running name ps

abbrev pub cloud_path_bat : String
cloud_path_bat = "executeFile.bat"

-- The games of the groups of the configuration file, by id.
unfoldable pub ids_of : (qt : Qt) → Ini qt → List String → List String
ids_of qt ini [] = []
ids_of qt ini (g ∷ gs) = to_string (get_value qt ini g "id") ∷ ids_of qt ini gs

abbrev pub groups_of : (qt : Qt) → Ini qt → List String
groups_of qt none = []
groups_of qt (some file) = qt.child_groups file

module _ (qt : Qt) (w : World) where
  open qt use {app_dir, child_groups}

  -- `isProcessRunning`, asked now.
  unfoldable pub running_pid : Session qt → String → Session qt × ℕ
  running_pid s name = (tick qt s, is_process_running name (w.processes s.now))

  -- The rest of `GameIsAreadlyRunning`, with the name of the game's program.
  unfoldable pub check_running : Session qt → String → Session qt × Bool
  check_running s name =
      let (s', pid) = running_pid s name in
      if is_empty name then (s, false) else (record s' { game_pid = pid }, ltb 0 pid)

  -- `GameIsAreadlyRunning`.
  unfoldable pub game_is_areadly_running : Session qt → String → Session qt × Bool
  game_is_areadly_running s game_id =
      let (s', name) = get_value_by_game_id qt s game_id "gameexeName" in
      if is_empty game_id then (s, false) else check_running s' name

  -- `KillGameByName`.
  unfoldable pub kill_game_by_name : Session qt → String → Session qt
  kill_game_by_name s name = emit qt s (
      start_script (str_append (str_append app_dir "/") cloud_path_bat)
        (str_append (str_append "stop  \"" name) "\""))

  -- The loop of `KillAreadlyRunningGame` that waits until the process is gone.
  unfoldable pub wait_gone : ℕ → Session qt → String → Run (Session qt)
  wait_gone zero s name = waiting
  wait_gone (suc n) s name =
      let (s', pid) = running_pid s name in
      let rest = wait_gone n (emit qt s' (sleep 100)) name in if ltb 0 pid then rest else done s'

  -- `KillAreadlyRunningGame`.
  unfoldable pub kill_areadly_running_game : ℕ → Session qt → String → Run (Session qt × Bool)
  kill_areadly_running_game n s game_id =
      let (s', name) = get_value_by_game_id qt s game_id "gameExeName" in
      let gone = wait_gone n (kill_game_by_name s' name) name in
      if is_empty game_id
      then done (s, false)
      else if is_empty name
      then done (s', false)
      else gone >>= λ s''. done (s'', true)

  -- The part of `StartGameByGameId` after its guard on the path, with the two parts of the path.
  -- The start parameters are not passed on, and the result is false on every branch.
  unfoldable pub start_parts : Session qt → List String → Session qt
  start_parts s [] = s
  start_parts s (exe ∷ []) = s
  start_parts s (exe ∷ folder ∷ parts) =
      let params = str_append "start;" (str_append exe (str_append ";" folder)) in
      emit qt s
        (execute_script (str_append (str_append app_dir "/") cloud_path_bat) (qt.split params ";"))

  -- `StartGameByGameId`.
  unfoldable pub start_game_by_game_id : Session qt → String → String → Session qt × Bool
  start_game_by_game_id s game_id start_game_params =
      let (s', path) = get_game_path_by_id qt s game_id in
      if is_empty game_id then (s, false) else (start_parts s' (tokens_of path "&&"), false)

  -- One round of the loop of `ForeachKillExe`.
  unfoldable pub kill_other : ℕ → Session qt → String → String → Run (Session qt)
  kill_other n s keep id =
      let (s', running) = game_is_areadly_running s id in
      let killed = kill_areadly_running_game n s' id in
      if str_eq id keep || is_empty id
      then done s
      else if running
      then (killed >>= λ r. done r.0)
      else done s'

  unfoldable pub kill_others : ℕ → Session qt → String → List String → Run (Session qt)
  kill_others n s keep [] = done s
  kill_others n s keep (id ∷ ids) = do s' ← kill_other n s keep id; kill_others n s' keep ids

  -- `ForeachKillExe`: it opens the configuration file anew.
  unfoldable pub foreach_kill_exe : ℕ → Session qt → String → Run (Session qt)
  foreach_kill_exe n s keep =
      let (ini, ret) = open_file qt none (str_append app_dir "/cloudGameConfig.ini") in
      if is_empty app_dir
      then done s
      else if eq_ℤ ret (pos 0)
      then kill_others n s keep (ids_of qt ini (groups_of qt ini))
      else done s
