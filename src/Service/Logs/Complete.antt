-- ===== src/Service/Logs/Complete.antt =====
-- The log file of a command holds what its shell has printed.
use flow_agent_x.Prelude.{
  ℕ, ◌+◌, ◌≡◌, ◌∙◌, sym, Option, none, some, List, [], ◌∷◌, ◌++◌, map, append_assoc, append-nil,
  length, Text, arith,
}
use flow_agent_x.Prelude.Exec.{Result}
use flow_agent_x.Executor.Output.{remove_docker_header}
use flow_agent_x.Service.Logs.{Round, chunk, closed, read_error, context_done, Stream, write_log}

-- The chunks that are sent: those before the first round that is none.
abbrev pub chunks : List Round → List Text
chunks [] = []
chunks (chunk bytes ∷ rounds) = bytes ∷ chunks rounds
chunks (closed bytes ∷ rounds) = []
chunks (read_error e ∷ rounds) = []
chunks (context_done ∷ rounds) = []

abbrev pub tag : Text → Text → Text → Text × Text × Text
tag job step log = (job, step, log)

abbrev pub joined : List Text → Text
joined [] = []
joined (t ∷ ts) = t ++ joined ts

abbrev pub total : List Text → ℕ
total [] = 0
total (t ∷ ts) = length t + total ts

module _ (encode : Text → Text) (decode : Text → Result Text) where
  write_log-stdout :
      (rounds : List Round) (s : Stream)
      → (write_log encode decode rounds s).stdout
        ≡ s.stdout ++ map (λ bytes. encode (remove_docker_header bytes)) (chunks rounds)
  unfolding write_log
  write_log-stdout [] s = sym (append-nil s.stdout)
  write_log-stdout (chunk bytes ∷ rounds) s = write_log-stdout rounds _ ∙ append_assoc s.stdout _ _
  write_log-stdout (closed bytes ∷ rounds) s = sym (append-nil s.stdout)
  write_log-stdout (read_error e ∷ rounds) s = sym (append-nil s.stdout)
  write_log-stdout (context_done ∷ rounds) s = sym (append-nil s.stdout)

  write_log-log_size :
      (rounds : List Round) (s : Stream)
      → (write_log encode decode rounds s).log_size ≡ s.log_size + total (chunks rounds)
  unfolding write_log
  write_log-log_size [] s = omega arith
  write_log-log_size (chunk bytes ∷ rounds) s =
      let p = write_log-log_size rounds (record {
        stdout = s.stdout ++ encode (remove_docker_header bytes) ∷ [];
        log_size = s.log_size + length bytes;
      }) in
      omega arith
  write_log-log_size (closed bytes ∷ rounds) s = omega arith
  write_log-log_size (read_error e ∷ rounds) s = omega arith
  write_log-log_size (context_done ∷ rounds) s = omega arith

  abbrev pub add_to : Option Text → Text → Option Text
  add_to none t = none
  add_to (some file) t = some (file ++ t)

  -- What one stream sends is what it gave before its end, each read without the header of the engine
  -- at its front, and it adds the bytes of the reads with their headers to the log size.
  pub write_log_lem :
      (rounds : List Round) (s : Stream)
      → ((write_log encode decode rounds s).stdout
          ≡ s.stdout ++ map (λ bytes. encode (remove_docker_header bytes)) (chunks rounds))
        × ((write_log encode decode rounds s).log_size ≡ s.log_size + total (chunks rounds))
  write_log_lem rounds s = (write_log-stdout rounds s, write_log-log_size rounds s)
