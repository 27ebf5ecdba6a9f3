-- ===== src/Api/Messages.antt =====
-- api/client.go: the messages to the server that wait for no answer (SendCmdOut, SendShellLog,
-- SendTtyLog, ReportProfile). `marshal` is json.Marshal.
use flow_agent_x.Prelude.{
  ℕ, Bool, true, not, ◌&&◌, ◌==◌, ◌≡◌, sym, refl, ◌⊎◌, inl, inr, [], ◌∷◌, Text, codes, Lacks, arith,
}
use flow_agent_x.Prelude.Exec.{Err, Result, ok, err}
use flow_agent_x.Api.Names.{build_message, split_line, split_line-build_message}
use flow_agent_x.Api.Pending.{
  Client, Attempt, done, send_message_with_bytes, send_message_with_json, Step, sent, send,
}
use flow_agent_x.Service.Startup.{Profile}

-- domain/cmd_shell.go and domain/cmd_tty.go
pub record ShellLog : Type 0 where
  pub job_id : Text
  pub step_id : Text
  pub log : Text

pub record TtyLog : Type 0 where
  pub id : Text
  pub log : Text

abbrev pub event_profile : Text
event_profile = codes "profile___"

abbrev pub event_cmd_out : Text
event_cmd_out = codes "cmd_out___"

abbrev pub event_shell_log : Text
event_shell_log = codes "slog______"

abbrev pub event_tty_log : Text
event_tty_log = codes "tlog______"

-- All four functions drop the error of the encoding, and then the message.
abbrev pub ignored : Result Attempt → Client → Attempt
ignored (ok a) c = a
ignored (err e) c = done c

-- The bytes are those of CmdOut.ToBytes.
unfoldable pub send_cmd_out : Text → Client → Attempt
unfolding send_message_with_bytes
send_cmd_out bytes c = send_message_with_bytes event_cmd_out bytes c

module _ (marshal : ShellLog → Result Text) where
  unfoldable pub send_shell_log : (job_id step_id log : Text) → Client → Attempt
  unfolding send_message_with_json
  send_shell_log job_id step_id log c =
      ignored
        (send_message_with_json marshal event_shell_log
          (record { job_id = job_id; step_id = step_id; log = log }) c)
        c

module _ (marshal : TtyLog → Result Text) where
  unfoldable pub send_tty_log : (tty_id log : Text) → Client → Attempt
  unfolding send_message_with_json
  send_tty_log tty_id log c =
      ignored (send_message_with_json marshal event_tty_log (record { id = tty_id; log = log }) c) c

module _ (marshal : Profile → Result Text) where
  unfoldable pub report_profile : Profile → Client → Attempt
  unfolding send_message_with_json
  report_profile profile c = ignored (send_message_with_json marshal event_profile profile c) c

-- A message was put in the channel, and the server can tell its event from its body.
abbrev pub Sent : Text → Text → Client → Client → Type 0
Sent event body c d =
    Step c (sent (record { event = event; body = body })) d
    × (split_line (build_message event body) ≡ (event, body))

-- A message with the encoding was sent, or it has none and nothing has changed.
abbrev pub SentOrDropped : Text → Result Text → Client → Client → Type 0
SentOrDropped event encoded c d =
    ((e : Err) × (encoded ≡ err e) × (d ≡ c))
    ⊎ ((body : Text) × (encoded ≡ ok body) × Sent event body c d)

abbrev lacks : ℕ → Text → Bool
lacks b [] = true
lacks b (c ∷ s) = let rest = lacks b s in not (c == b) && rest

lacks-Lacks : (b : ℕ) (s : Text) → lacks b s ≡ true → Lacks b s
lacks-Lacks b [] h = tt
lacks-Lacks b (c ∷ s) h =
    let (e, r) : (not (c == b) ≡ true) × (lacks b s ≡ true) = ground (arith, h) in
    (ground (arith, e), lacks-Lacks b s r)

json-SentOrDropped {ℓ} :
    {A : Type ℓ} (marshal : A → Result Text) (event : Text) (msg : A) (c d : Client)
    → Lacks b'\n' event
    → ignored (send_message_with_json marshal event msg c) c ≡ done d
    → SentOrDropped event (marshal msg) c d
unfolding send_message_with_json
json-SentOrDropped marshal event msg c d l h = by_encoding (marshal msg) refl h
  where
    by_encoding :
        (r : Result Text)
        → marshal msg ≡ r
        → ignored (elim r [ err e ↦ err e | ok body ↦ ok (send_message_with_bytes event body c) ]) c
          ≡ done d
        → SentOrDropped event (marshal msg) c d
    by_encoding (err e) q k = inl (e, q, let p : c ≡ d = cc in sym p)
    by_encoding (ok body) q k = inr (body, q, (send k, split_line-build_message event body l))

-- The four functions return without an error. If the channel takes what they send, the bytes of a
-- result, and whatever else can be encoded, are sent under the event of the function, in a step of
-- the client that its queue keeps, and the server finds the event and the body; what cannot be
-- encoded is dropped, and the client is as before.
pub messages-SentOrDropped :
    (shell : ShellLog → Result Text) (tty : TtyLog → Result Text) (profile : Profile → Result Text)
    (bytes job step id log : Text) (r : Profile) (c d1 d2 d3 d4 : Client)
    → send_cmd_out bytes c ≡ done d1
    → send_shell_log shell job step log c ≡ done d2
    → send_tty_log tty id log c ≡ done d3
    → report_profile profile r c ≡ done d4
    → Sent event_cmd_out bytes c d1
      × SentOrDropped event_shell_log
          (shell (record { job_id = job; step_id = step; log = log }))
          c
          d2
      × SentOrDropped event_tty_log (tty (record { id = id; log = log })) c d3
      × SentOrDropped event_profile (profile r) c d4
unfolding send_cmd_out send_shell_log send_tty_log report_profile
messages-SentOrDropped shell tty profile bytes job step id log r c d1 d2 d3 d4 h1 h2 h3 h4 = (
  (send h1, split_line-build_message event_cmd_out bytes (lacks-Lacks b'\n' event_cmd_out refl)),
  json-SentOrDropped shell event_shell_log (record { job_id = job; step_id = step; log = log }) c d2
      (lacks-Lacks b'\n' event_shell_log refl) h2,
  json-SentOrDropped tty event_tty_log (record { id = id; log = log }) c d3
      (lacks-Lacks b'\n' event_tty_log refl) h3,
  json-SentOrDropped profile event_profile r c d4 (lacks-Lacks b'\n' event_profile refl) h4,
)
