-- ===== src/Scenarios/Server.antt =====
-- api/ at concrete inputs.
use flow_agent_x.Prelude.{
  ℕ, ◌+◌, ◌≡◌, ◌≢◌, ◌⊎◌, refl, true, false, none, some, Option, List, [], ◌∷◌, ◌++◌, replicate,
  Text, codes, arith,
}
use flow_agent_x.Prelude.Int.{pos}
use flow_agent_x.Prelude.Exec.{Err, foreign, Result, ok, err, ret}
use flow_agent_x.Domain.Secret.{Secret}
use flow_agent_x.Util.Bytes.{bytes_trim_right}
use flow_agent_x.Util.Bytes.Trim.{bytes_trim_right_lem}
use flow_agent_x.Api.Names.{encode_cache_name}
use flow_agent_x.Api.Pending.{
  Message, queued, Client, new_client, send_message_with_bytes, Label, sent, handed, internal, Step,
  send, dial, accept, Run, here, next, dialed, start_goroutines, clear_conn, signalled, read_failed,
  consume_pending_message, wrote,
}
use flow_agent_x.Api.Pending.Queue.{messages, QueueStep, Step_refines, sent_of, handed_of, Run-sent}
use flow_agent_x.Api.Pending.Consumers.{marks, Run-consumers, lost_connection}
use flow_agent_x.Api.Requests.{Web, Login, Session, Response, FileOp, removed, get_secret}
use flow_agent_x.Api.Requests.Answers.{Asked, get_secret-returns}
use flow_agent_x.Api.Connect.{Network, Connected, connect, connect-Run}
use flow_agent_x.Api.Caches.{Disk, cache_put, cache_dest, cache_download}
use flow_agent_x.Api.Caches.Put.{cache_put-removed}
use flow_agent_x.Api.Caches.Files.{cache_dest-encode_cache_name, cache_download-Left, Left}

abbrev result : Message
result = record { event = codes "cmd_out___"; body = codes "{}" }

-- A connection is made, and one message is sent.
abbrev one_message : Client
one_message = record (start_goroutines (dialed new_client)) { pending = queued result ∷ [] }

abbrev labels : List Label
labels = internal ∷ internal ∷ sent result ∷ []

sends : Step (start_goroutines (dialed new_client)) (sent result) one_message
unfolding send_message_with_bytes new_client start_goroutines dialed
sends = send refl

run : Run new_client labels one_message
unfolding dialed
run = next (next (next here dial) (accept (omega arith))) sends

Step_refines_example : QueueStep [] (sent result) (result ∷ [])
unfolding new_client start_goroutines dialed
Step_refines_example = Step_refines sends

Run-sent_example : sent_of labels ≡ handed_of labels ++ messages one_message.pending
unfolding new_client
Run-sent_example = Run-sent refl run

Run-consumers_example :
    one_message.consumers
    ≡ marks one_message.pending
      + one_message.reading
      + one_message.signalling
      + one_message.clearing
      + one_message.marking
unfolding new_client start_goroutines dialed
Run-consumers_example = Run-consumers run refl

lost_connection_example :
    let d = clear_conn (signalled (read_failed one_message)) in
    Step one_message internal (read_failed one_message)
    × Step (read_failed one_message) internal (signalled (read_failed one_message))
    × Step (signalled (read_failed one_message)) internal d
    × (consume_pending_message d ≡ wrote false result (record d { pending = [] }))
    × Step d (handed false result) (record d { pending = [] })
    × (d.marking ≡ one_message.marking + 1)
unfolding new_client start_goroutines dialed
lost_connection_example = lost_connection one_message result [] (omega arith) (omega arith) refl

abbrev accepted : Response
accepted = record { code = pos 200; message = [] }

-- A server that answers every request with one token.
abbrev web : Web
web = record {
  new_request = λ url. none;
  fetch = λ h r. ok (codes "answer");
  response = λ s. ok (accepted, tt);
  base = λ s. ok (accepted, some (record { name = codes "t"; category = codes "TOKEN" }));
  job_cache = λ s. ok (accepted, none);
  raw = λ s. ok s;
  auth = λ s. err (foreign 1);
  rsa = λ s. err (foreign 1);
  token_field = λ s. ok (codes "t", some (codes "secret"));
  smtp = λ s. err (foreign 1);
  text = λ s. err (foreign 1);
}

abbrev login : Login
login = record { token = codes "x"; server = codes "http://s" }

abbrev fresh : Session
fresh = record { requests = []; ops = []; logs = [] }

get_secret-returns_example :
    (r : Result Secret) × Asked web login
      (codes "t")
      fresh
      r
      (get_secret web login (codes "t") fresh)
get_secret-returns_example = get_secret-returns web login (codes "t") fresh

-- A network whose connections answer the event of the agent, and the parser of its answer.
abbrev network : Network
network = record {
  parse_url = λ s. ok (codes "ws://s/agent");
  dial_to = λ url token. ok (record { write = λ m. none; read = λ m. ok (codes "answer") });
}

abbrev parse_config : Text → Result (Response × Text)
parse_config s = ok (accepted, s)

connect-Run_example :
    ((n : ℕ) × Run new_client
        (replicate n internal)
        (connect parse_config network
          (codes "x")
          (codes "http://s")
          (ok (codes "{}"))
          new_client).1)
    × Connected parse_config new_client
        (connect parse_config network (codes "x") (codes "http://s") (ok (codes "{}")) new_client)
connect-Run_example =
    connect-Run parse_config network (codes "x") (codes "http://s") (ok (codes "{}")) new_client

-- A machine on which every path exists and zips, with an encoding that puts a letter in front.
abbrev disk : Disk
disk = record {
  temp_dir = λ h. ok (codes "/tmp/1");
  is_file_exists = λ h p. true;
  zip = λ h p q. none;
  read_file = λ h p. ok (codes "zip");
  base_name = λ p. p;
  create = λ h p. none;
  copy = λ h p. none;
  rename = λ h p q. none;
  unzip = λ h p q. some (foreign 2);
  goos = codes "linux";
  encode = λ s. b'e' ∷ s;
  decode = decode_name;
}
  where
    decode_name : Text → Result Text
    decode_name [] = err (foreign 3)
    decode_name (c ∷ s) = ok s

cache_put-removed_example :
    ((r : Option Err) × ((cache_put disk web login
          (codes "1")
          (codes "k")
          (codes "/ws")
          (codes "/ws/a" ∷ [])
          fresh).0
        ≡ ret r))
    × ((ops : List FileOp) × ((cache_put disk web login
            (codes "1")
            (codes "k")
            (codes "/ws")
            (codes "/ws/a" ∷ [])
            fresh).1.ops
          ≡ removed (codes "/tmp/1") ∷ ops))
cache_put-removed_example =
    cache_put-removed disk web login (codes "1") (codes "k") (codes "/ws") (codes "/ws/a" ∷ [])
      fresh (codes "/tmp/1") refl

cache_dest_example :
    cache_dest disk
      (codes "/out")
      (encode_cache_name disk.encode disk.decode (codes "/ws") (codes "/ws/a/b"))
    ≡ codes "/out/a/b"
cache_dest_example =
    cache_dest-encode_cache_name disk (λ s. refl) (codes "/out") (codes "/w") b's' (codes "a/b")

cache_download_example :
    ((cache_download disk web login (codes "1") (codes "/ws") (codes "ea") fresh).0 ≡ ret tt)
    × Left disk web login
        (codes "1")
        (codes "/ws")
        (codes "ea")
        fresh
        (cache_download disk web login (codes "1") (codes "/ws") (codes "ea") fresh).1.ops
cache_download_example =
    cache_download-Left disk web login (codes "1") (codes "/ws") (codes "ea") fresh

bytes_trim_right_example :
    (bytes_trim_right (codes "out # ") (codes "# ") ++ codes "# " ≡ codes "out # ")
    ⊎ ((bytes_trim_right (codes "out # ") (codes "# ") ≡ codes "out # ")
        × ((r : Text) → r ++ codes "# " ≢ codes "out # "))
bytes_trim_right_example = bytes_trim_right_lem (codes "out # ") (codes "# ")
