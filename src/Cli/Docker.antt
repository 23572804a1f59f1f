-- ===== src/Cli/Docker.antt =====
-- packages/core/src/cli/lib/dockerServices.ts: the containers that a project runs through Docker.
use queueway.Cli.Machine.{
  redis, postgres, rabbitmq, pause, volume_rm, volume_ls, rm_container, ps, clock, command,
  docker_pull, Command, compose_up, ServiceName, Wizard, done, perform, ◌>>=◌, ◌>>◌, Output,
}
use queueway.Base.{
  zero, ltb, true, if◌then◌else◌, ◌*◌, trim, ◌++◌, suc, is_empty, ◌+◌, false, not, codes, ◌&&◌, ℕ,
  List, Bool,
}
use queueway.Cli.Detect.{is_port_open, succeeded}

abbrev pub service_text : ServiceName → List ℕ
service_text postgres = codes "postgres"
service_text redis = codes "redis"
service_text rabbitmq = codes "rabbitmq"

abbrev pub suffix : ServiceName → List ℕ
suffix postgres = codes "pgdata"
suffix redis = codes "redisdata"
suffix rabbitmq = codes "rabbitdata"

abbrev pub container_name : List ℕ → ServiceName → List ℕ
container_name slug service = codes "queueway-" ++ slug ++ codes "-" ++ service_text service

abbrev pub volume_name : List ℕ → ServiceName → List ℕ
volume_name slug service = codes "queueway-" ++ slug ++ codes "_" ++ suffix service

-- Each round pauses for a second.
unfoldable pub wait_rounds : ℕ → ℕ → ℕ → Wizard Bool
wait_rounds zero deadline port = done false
wait_rounds (suc rounds) deadline port = do
  now ← perform clock
  if not (ltb now deadline) then done false else (do
    taken ← is_port_open port
    if taken then done true else perform (pause 1000) >> wait_rounds rounds deadline port)

unfoldable pub wait_for_port : ℕ → ℕ → Wizard Bool
wait_for_port port seconds = do
  now ← perform clock
  wait_rounds (suc seconds) (now + 1000 * seconds) port

-- The command again after ten seconds, as often as there are attempts.
unfoldable pub try_command : Command → ℕ → Wizard Bool
try_command c zero = done false
try_command c (suc zero) = do fine ← succeeded c; done fine
try_command c (suc (suc attempts)) = do
  fine ← succeeded c
  if fine then done true else perform (pause 10000) >> try_command c (suc attempts)

unfoldable pub pull_image : ServiceName → Wizard Bool
pull_image service = try_command (docker_pull service) 3

unfoldable pub start_stack : Wizard Bool
start_stack = try_command compose_up 2

-- `!err && String(stdout).trim().length > 0`
abbrev pub has_output : Output → Bool
has_output output = output.exit_ok && not (is_empty (trim output.stdout))

unfoldable pub volume_exists : List ℕ → ServiceName → Wizard Bool
volume_exists slug service = do
  output ← perform (command (volume_ls (volume_name slug service)))
  done (has_output output)

unfoldable pub remove_volume : List ℕ → ServiceName → Wizard Bool
remove_volume slug service = do
  perform (command (rm_container (container_name slug service)))
  output ← perform (command (volume_rm (volume_name slug service)))
  done output.exit_ok

unfoldable pub container_running : List ℕ → ServiceName → Wizard Bool
container_running slug service = do
  output ← perform (command (ps (container_name slug service)))
  done (has_output output)
