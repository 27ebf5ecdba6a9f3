-- ===== src/Service/Logs.antt =====
-- executor/executor.go (writeLog), service/cmd_service.go (startLogConsumer): the way of what a shell
-- prints, from its stream over the channel to the log file and the server.
pub mod Complete
use flow_agent_x.Prelude.{
  ℕ, ◌+◌, Bool, true, false, Option, none, some, List, [], ◌∷◌, ◌++◌, if◌then◌else◌, length, Text,
  codes,
}
use flow_agent_x.Prelude.Exec.{Err, Result, ok, err}
use flow_agent_x.Executor.Output.{remove_docker_header}

-- A round of the loop of writeLog: what the stream has, and whether the channel is closed when it is
-- sent. The context may be done, and a stream at its end has an error.
pub data Round : Type 0 where
  chunk : Text → Round
  closed : Text → Round
  read_error : Err → Round
  context_done : Round

-- What one stream has sent on the channel, in order, and what it has added to the size in the result.
pub record Stream : Type 0 where
  pub stdout : List Text
  pub log_size : ℕ

-- The log file of a command, which is none if it could not be created, the logs pushed to the server (job, step, text), and the files uploaded.
pub record Consumed : Type 0 where
  pub file : Option Text
  pub pushed : List (Text × Text × Text)
  pub uploads : List Text

-- `encode` is base64's EncodeToString, `decode` its DecodeString.
module _ (encode : Text → Text) (decode : Text → Result Text) where
  -- The send on a closed channel panics, and the panic is only logged.
  unfoldable pub write_log : List Round → Stream → Stream
  unfolding remove_docker_header
  write_log [] s = s
  write_log (chunk bytes ∷ rounds) s = write_log rounds (record {
    stdout = s.stdout ++ encode (remove_docker_header bytes) ∷ [];
    log_size = s.log_size + length bytes;
  })
  write_log (closed bytes ∷ rounds) s = s
  write_log (read_error e ∷ rounds) s = s
  write_log (context_done ∷ rounds) s = s

  -- A write without a file fails, and its error is dropped.
  abbrev pub write_decoded : Result Text → Option Text → Option Text
  write_decoded (ok log) (some file) = some (file ++ log)
  write_decoded (ok log) none = none
  write_decoded (err e) file = file

  -- The loop over the channel
  unfoldable pub consume : Text → Text → List Text → Consumed → Consumed
  consume job step [] c = c
  consume job step (log ∷ logs) c = consume job step logs (record c {
    file = write_decoded (decode log) c.file;
    pushed = c.pushed ++ (job, step, log) ∷ [];
  })

  -- os.Create, whose error is dropped
  abbrev pub created_file : Option Err → Option Text
  created_file none = some []
  created_file (some e) = none

  -- consumeShellLog, from a new file to the upload, for all that is sent on the channel until it is
  -- closed, by any number of senders.
  unfoldable pub consume_shell_log : Option Err → (job step path : Text) → List Text → Consumed
  unfolding consume
  consume_shell_log create job step path logs =
      let c =
        consume job step logs (record { file = created_file create; pushed = []; uploads = [] }) in
      record c { uploads = path ∷ c.uploads }

  -- consumeTtyLog: what is pushed to the server for a terminal.
  unfoldable pub consume_tty_log : Text → List Text → List (Text × Text)
  consume_tty_log tty_id [] = []
  consume_tty_log tty_id (log ∷ logs) = (tty_id, log) ∷ consume_tty_log tty_id logs
