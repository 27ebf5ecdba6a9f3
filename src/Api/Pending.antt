-- ===== src/Api/Pending.antt =====
-- api/client.go: the connection to the server and the channel of messages that wait for it, with
-- the goroutines that share both. The dialer and the connection of github.com/gorilla/websocket are
-- in the environment: what they answer chooses among the steps.
pub mod Queue
pub mod Consumers
use flow_agent_x.Prelude.{
  ℕ, ◌+◌, ◌-◌, ◌<◌, ◌≡◌, Bool, true, false, List, [], ◌∷◌, ◌++◌, if◌then◌else◌, length, ltb, Text,
}
use flow_agent_x.Prelude.Exec.{Err, Result, ok, err}

pub record Message : Type 0 where
  pub event : Text
  pub body : Text

-- An element of the channel: a message, or the pointer `disconnected`.
pub data Item : Type 0 where
  queued : Message → Item
  disconnected : Item

pub data ConnState : Type 0 where
  initial connected reconnecting : ConnState

-- `conn` tells whether the field is not nil. The goroutines are counted by where they stand.
pub record Client : Type 0 where
  pub conn : Bool
  pub conn_state : ConnState
  pub pending : List Item
  pub closed : Bool  -- close(c.pending)
  pub connecting : ℕ  -- in Connect, with a new connection
  pub reading : ℕ  -- in readMessage, before c.conn.ReadMessage
  pub signalling : ℕ  -- before c.reConn <-
  pub clearing : ℕ  -- before c.conn = nil
  pub marking : ℕ  -- before c.pending <- disconnected
  pub consumers : ℕ  -- in consumePendingMessage

-- api/factory.go
abbrev pub pending_size : ℕ
pending_size = 100

unfoldable pub new_client : Client
new_client = record {
  conn = false;
  conn_state = initial;
  pending = [];
  closed = false;
  connecting = 0;
  reading = 0;
  signalling = 0;
  clearing = 0;
  marking = 0;
  consumers = 0;
}

-- A statement on a channel is done, waits, or panics.
pub data Attempt : Type 0 where
  done : Client → Attempt
  blocked crashed : Attempt

-- c.pending <- item
unfoldable pub push : Item → Client → Attempt
push item c =
    if c.closed
    then crashed
    else if ltb (length c.pending) pending_size
    then done (record c { pending = c.pending ++ (item ∷ []) })
    else blocked

unfoldable pub send_message_with_bytes : Text → Text → Client → Attempt
unfolding push
send_message_with_bytes event body c = push (queued (record { event = event; body = body })) c

unfoldable pub send_message_with_json {ℓ} :
    {A : Type ℓ} (marshal : A → Result Text) → Text → A → Client → Result Attempt
unfolding send_message_with_bytes
send_message_with_json marshal event msg c = elim (marshal msg) [
  | err e ↦ err e
  | ok body ↦ ok (send_message_with_bytes event body c)
]

unfoldable pub set_conn_state : ConnState → Client → Client
set_conn_state state c = record c { conn_state = state }

unfoldable pub is_re_connecting : Client → Bool
is_re_connecting c = elim c.conn_state [ reconnecting ↦ true | _ ↦ false ]

unfoldable pub is_connected : Client → Bool
is_connected c = elim c.conn_state [ connected ↦ true | _ ↦ false ]

-- Connect as far as the dialer's error, which comes with a nil connection
unfoldable pub dial_failed : Client → Client
dial_failed c = record c { conn = false }

unfoldable pub dialed : Client → Client
unfolding set_conn_state
dialed c = set_conn_state connected (record c { conn = true; connecting = c.connecting + 1 })

-- the answer to the init event
unfoldable pub handshake_failed : Client → Client
handshake_failed c = record c { connecting = c.connecting - 1 }

unfoldable pub start_goroutines : Client → Client
start_goroutines c = record c {
  connecting = c.connecting - 1;
  reading = c.reading + 1;
  consumers = c.consumers + 1;
}

-- readMessage at a close error: the three statements behind the state's update, one by one
unfoldable pub read_failed : Client → Client
unfolding set_conn_state
read_failed c =
    set_conn_state reconnecting
      (record c { reading = c.reading - 1; signalling = c.signalling + 1 })

unfoldable pub signalled : Client → Client
signalled c = record c { signalling = c.signalling - 1; clearing = c.clearing + 1 }

unfoldable pub clear_conn : Client → Client
clear_conn c = record c { conn = false; clearing = c.clearing - 1; marking = c.marking + 1 }

unfoldable pub mark_disconnected : Client → Attempt
unfolding push
mark_disconnected c = push disconnected (record c { marking = c.marking - 1 })

-- One round of consumePendingMessage: the rest of the channel, and the message that is taken out of
-- it, with whether the connection is there at that time. The write that follows is not a step of its
-- own.
pub data Round : Type 0 where
  wrote : (present : Bool) → Message → Client → Round
  exited : Client → Round
  waits : Round

unfoldable pub leave : Client → Client
leave c = record c { consumers = c.consumers - 1 }

unfoldable pub consume_from : List Item → Client → Round
unfolding leave
consume_from [] c = if c.closed then exited (leave c) else waits
consume_from (queued m ∷ rest) c = wrote c.conn m (record c { pending = rest })
consume_from (disconnected ∷ rest) c = exited (leave (record c { pending = rest }))

unfoldable pub consume_pending_message : Client → Round
unfolding consume_from
consume_pending_message c = consume_from c.pending c

-- Close behind its test of the connection
unfoldable pub close : Client → Attempt
close c = if c.conn then if c.closed then crashed else done (record c { closed = true }) else done c

pub data Label : Type 0 where
  sent : Message → Label
  handed : (present : Bool) → Message → Label
  internal : Label

-- One step of one goroutine, or of a caller of the client. A message that is read goes to another
-- channel and changes nothing here; an error of a read that is no close error ends the program.
pub data Step (c : Client) : Label → Client → Type 0 where
  send :
      {m : Message} {d : Client}
      → send_message_with_bytes m.event m.body c ≡ done d
      → Step c (sent m) d
  dial_fail : Step c internal (dial_failed c)
  dial : Step c internal (dialed c)
  refuse : 0 < c.connecting → Step c internal (handshake_failed c)
  accept : 0 < c.connecting → Step c internal (start_goroutines c)
  fail : 0 < c.reading → Step c internal (read_failed c)
  signal : 0 < c.signalling → Step c internal (signalled c)
  clear : 0 < c.clearing → Step c internal (clear_conn c)
  mark : {d : Client} → 0 < c.marking → mark_disconnected c ≡ done d → Step c internal d
  write :
      {b : Bool} {m : Message} {d : Client}
      → 0 < c.consumers
      → consume_pending_message c ≡ wrote b m d
      → Step c (handed b m) d
  exit : {d : Client} → 0 < c.consumers → consume_pending_message c ≡ exited d → Step c internal d
  shut : {d : Client} → close c ≡ done d → Step c internal d

-- The runs from a state, with what they did in order.
pub data Run (c : Client) : List Label → Client → Type 0 where
  here : Run c [] c
  next :
      {ls : List Label} {d e : Client} {l : Label}
      → Run c ls d
      → Step d l e
      → Run c (ls ++ (l ∷ [])) e
