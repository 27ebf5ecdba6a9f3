-- ===== src/Api/Connect.antt =====
-- api/client.go: Connect, with the exchange of messages that opens a connection, and Close.
use flow_agent_x.Prelude.{
  ℕ, ◌+◌, ◌≡◌, inl, inr, refl, true, Option, none, some, replicate, Text, codes, arith,
}
use flow_agent_x.Prelude.Exec.{Err, Result, ok, err, Result-cases}
use flow_agent_x.Api.Names.{build_message}
use flow_agent_x.Api.Requests.{Response, parse_response}
use flow_agent_x.Api.Pending.{
  Client, connected, set_conn_state, dial_failed, dialed, handshake_failed, start_goroutines,
  internal, dial_fail, dial, refuse, accept, Run, here, next,
}

-- api/const.go
abbrev pub event_connect : Text
event_connect = codes "connect___"

-- A connection: the answer to the first message that is written to it.
pub record Socket : Type 0 where
  pub write : Text → Option Err
  pub read : Text → Result Text

-- url.Parse, with the scheme and the path replaced, and websocket.Dialer.Dial with the token
pub record Network : Type 0 where
  pub parse_url : Text → Result Text
  pub dial_to : Text → Text → Result Socket

-- `send_message_with_resp` behind the encoding of the message. Every error is a panic that the
-- function recovers and returns.
module _ {ℓ} {A : Type ℓ} (parse : Text → Result (Response × A)) where
  unfoldable pub exchange : Socket → Text → Result A
  exchange socket message = elim (socket.write message) [
    | some e ↦ err e
    | none ↦ elim (socket.read message) [ err e ↦ err e | ok body ↦ parse_response (parse body) ]
  ]

  unfoldable pub send_message_with_resp : Socket → Text → Result Text → Result A
  unfolding exchange
  send_message_with_resp socket event encoded = elim encoded [
    | err e ↦ err e
    | ok body ↦ exchange socket (build_message event body)
  ]

  -- Connect behind the handshake
  abbrev pub finish_connect : Result A → Client → Result A × Client
  finish_connect (err e) c = (err e, handshake_failed (dialed c))
  finish_connect (ok config) c = (ok config, start_goroutines (dialed c))

  unfoldable pub connect_with : Result Socket → Result Text → Client → Result A × Client
  unfolding send_message_with_resp dial_failed
  connect_with (err e) init c = (err e, dial_failed c)
  connect_with (ok socket) init c =
      finish_connect (send_message_with_resp socket event_connect init) c

  unfoldable pub connect :
      Network → (token server : Text) → Result Text → Client → Result A × Client
  unfolding connect_with
  connect network token server init c = elim (network.parse_url server) [
    | err e ↦ (err e, c)
    | ok url ↦ connect_with (network.dial_to url token) init c
  ]

  -- What a call leaves behind: a configuration with a connected client, a reader and a consumer
  -- more, or an error and as many goroutines as before.
  abbrev pub Connected : Client → Result A × Client → Type 0
  Connected c (ok config, d) =
      (d.conn ≡ true)
      × (d.conn_state ≡ connected)
      × (d.reading ≡ c.reading + 1)
      × (d.consumers ≡ c.consumers + 1)
  Connected c (err e, d) = (d.reading ≡ c.reading) × (d.consumers ≡ c.consumers)

  finish_connect-Run :
      (r : Result A) (c : Client)
      → ((n : ℕ) × Run c (replicate n internal) (finish_connect r c).1)
        × Connected c (finish_connect r c)
  unfolding dialed set_conn_state handshake_failed start_goroutines
  finish_connect-Run (err e) c = ((2, next (next here dial) (refuse (omega arith))), (refl, refl))
  finish_connect-Run (ok config) c =
      ((2, next (next here dial) (accept (omega arith))), (refl, refl, refl, refl))

  connect_with-Run :
      (r : Result Socket) (init : Result Text) (c : Client)
      → ((n : ℕ) × Run c (replicate n internal) (connect_with r init c).1)
        × Connected c (connect_with r init c)
  unfolding connect_with dial_failed
  connect_with-Run (err e) init c = ((1, next here dial_fail), (refl, refl))
  connect_with-Run (ok socket) init c =
      finish_connect-Run (send_message_with_resp socket event_connect init) c

  -- Every call of Connect, whatever the network answers, is a run of the internal steps of a client,
  -- and either returns a configuration and leaves the client connected with one reader and one
  -- consumer more, or returns an error and starts neither.
  pub connect-Run :
      (network : Network) (token server : Text) (init : Result Text) (c : Client)
      → ((n : ℕ) × Run c (replicate n internal) (connect network token server init c).1)
        × Connected c (connect network token server init c)
  unfolding connect
  connect-Run network token server init c = elim (Result-cases (network.parse_url server)) [
    | inl (url, e) ↦ rw (e, connect) (connect_with-Run (network.dial_to url token) init c)
    | inr (x, e) ↦ rw (e, connect) ((0, here), (refl, refl))
  ]
