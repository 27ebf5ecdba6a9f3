-- ===== src/Api/Pending/Queue.antt =====
-- The channel of messages of api/client.go, seen as a queue without the goroutines.
use flow_agent_x.Prelude.{
  ◌+◌, ◌-◌, ◌≡◌, ◌≤◌, ◌⊎◌, inl, inr, ◌∙◌, sym, ap, refl, Bool, true, false, List, [], ◌∷◌, ◌++◌,
  append-nil, append_assoc, arith, length,
}
use flow_agent_x.Api.Pending.{
  Message, Item, queued, disconnected, Client, done, push, pending_size, send_message_with_bytes,
  set_conn_state, dial_failed, dialed, handshake_failed, start_goroutines, read_failed, signalled,
  clear_conn, mark_disconnected, wrote, exited, leave, consume_from, consume_pending_message, close,
  Label, sent, handed, internal, Step, send, dial_fail, dial, refuse, accept, fail, signal, clear,
  mark, write, exit, shut, Run, here, next,
}

-- The messages of a channel, without the marks of lost connections.
abbrev pub messages : List Item → List Message
messages [] = []
messages (queued m ∷ items) = m ∷ messages items
messages (disconnected ∷ items) = messages items

messages-append : (xs ys : List Item) → messages (xs ++ ys) ≡ messages xs ++ messages ys
messages-append [] ys = refl
messages-append (queued m ∷ xs) ys = ap (λ ms. m ∷ ms) (messages-append xs ys)
messages-append (disconnected ∷ xs) ys = messages-append xs ys

-- What a client promises: a queue, which a step extends by the message that it sends, or shortens
-- by the message that it hands on.
abbrev pub QueueStep : List Message → Label → List Message → Type 0
QueueStep q (sent m) q' = q' ≡ q ++ (m ∷ [])
QueueStep q (handed b m) q' = q ≡ m ∷ q'
QueueStep q internal q' = q' ≡ q

pub push_inv :
    (item : Item) (c d : Client)
    → push item c ≡ done d
    → (c.closed ≡ false)
      × (length c.pending + 1 ≤ pending_size)
      × (d ≡ record c { pending = c.pending ++ (item ∷ []) })
unfolding push
push_inv item c d h = ground arith

pub consume_from-wrote :
    (items : List Item) (c d : Client) (b : Bool) (m : Message)
    → consume_from items c ≡ wrote b m d
    → (rest : List Item) × (items ≡ queued m ∷ rest)
      × (b ≡ c.conn)
      × (d ≡ record c { pending = rest })
unfolding consume_from
consume_from-wrote [] c d b m h = absurd (ground arith)
consume_from-wrote (queued n ∷ rest) c d b m h = (rest, cc, cc, cc)
consume_from-wrote (disconnected ∷ rest) c d b m h = cc

pub consume_from-exited :
    (items : List Item) (c d : Client)
    → consume_from items c ≡ exited d
    → ((items ≡ []) × (c.closed ≡ true) × (d ≡ leave c))
      ⊎ ((rest : List Item) × (items ≡ disconnected ∷ rest)
          × (d ≡ leave (record c { pending = rest })))
unfolding consume_from
consume_from-exited [] c d h = inl (ground arith)
consume_from-exited (queued n ∷ rest) c d h = cc
consume_from-exited (disconnected ∷ rest) c d h = inr (rest, refl, cc)

consume_from-exited-messages :
    (items : List Item) (c d : Client)
    → items ≡ c.pending
    → consume_from items c ≡ exited d
    → messages d.pending ≡ messages items
unfolding leave
consume_from-exited-messages items c d e h = elim (consume_from-exited items c d h) [
  | inl (p, _, q) ↦ rw (q, e) refl
  | inr (rest, p, q) ↦ rw (q, p) refl
]

push_refines :
    (item : Item) (c d : Client)
    → push item c ≡ done d
    → messages d.pending ≡ messages c.pending ++ messages (item ∷ [])
push_refines item c d h = rw ((push_inv item c d h).2) (messages-append c.pending (item ∷ []))

pub close-pending : (c d : Client) → close c ≡ done d → d.pending ≡ c.pending
unfolding close
close-pending c d h = ground arith

-- Every step of every goroutine is a step of the queue of the messages that wait: a sender puts its
-- message at the end, a consumer hands on the first one, and nothing else adds, drops or moves one.
pub Step_refines :
    {c d : Client} {l : Label} → Step c l d → QueueStep (messages c.pending) l (messages d.pending)
unfolding send_message_with_bytes set_conn_state dial_failed dialed handshake_failed
    start_goroutines read_failed signalled clear_conn mark_disconnected consume_pending_message
Step_refines {c} {d} (send {m} h) = push_refines (queued m) c d h
Step_refines dial_fail = refl
Step_refines dial = refl
Step_refines (refuse _) = refl
Step_refines (accept _) = refl
Step_refines (fail _) = refl
Step_refines (signal _) = refl
Step_refines (clear _) = refl
Step_refines {c} {d} (mark _ h) =
    push_refines disconnected (record c { marking = c.marking - 1 }) d h ∙ append-nil _
Step_refines {c} {d} (write {b} {m} _ h) =
    let (rest, p, q, r) = consume_from-wrote c.pending c d b m h in rw (r, p) refl
Step_refines {c} {d} (exit _ h) = consume_from-exited-messages c.pending c d refl h
Step_refines {c} {d} (shut h) = ap messages (close-pending c d h)

abbrev pub sent_of : List Label → List Message
sent_of [] = []
sent_of (sent m ∷ ls) = m ∷ sent_of ls
sent_of (handed b m ∷ ls) = sent_of ls
sent_of (internal ∷ ls) = sent_of ls

abbrev pub handed_of : List Label → List Message
handed_of [] = []
handed_of (sent m ∷ ls) = handed_of ls
handed_of (handed b m ∷ ls) = m ∷ handed_of ls
handed_of (internal ∷ ls) = handed_of ls

sent_of-append : (ls ks : List Label) → sent_of (ls ++ ks) ≡ sent_of ls ++ sent_of ks
sent_of-append [] ks = refl
sent_of-append (sent m ∷ ls) ks = ap (λ ms. m ∷ ms) (sent_of-append ls ks)
sent_of-append (handed b m ∷ ls) ks = sent_of-append ls ks
sent_of-append (internal ∷ ls) ks = sent_of-append ls ks

handed_of-append : (ls ks : List Label) → handed_of (ls ++ ks) ≡ handed_of ls ++ handed_of ks
handed_of-append [] ks = refl
handed_of-append (sent m ∷ ls) ks = handed_of-append ls ks
handed_of-append (handed b m ∷ ls) ks = ap (λ ms. m ∷ ms) (handed_of-append ls ks)
handed_of-append (internal ∷ ls) ks = handed_of-append ls ks

-- One more step keeps the balance of what went in, what came out and what waits.
balance :
    (l : Label) (out into q q' : List Message)
    → into ≡ out ++ q
    → QueueStep q l q'
    → into ++ sent_of (l ∷ []) ≡ (out ++ handed_of (l ∷ [])) ++ q'
balance (sent m) out into q q' h s = rw (s, h, append-nil out) (append_assoc out q (m ∷ []))
balance (handed b m) out into q q' h s =
    rw (append-nil into, h, s) (sym (append_assoc out (m ∷ []) q'))
balance internal out into q q' h s = rw (s, append-nil into, append-nil out) h

-- In every run from a client without messages, over any number of connections, the messages that
-- senders put in the channel are those that consumers took out of it, in the same order and each
-- once, followed by those that wait. Whether the connection is there when a message is written, and
-- in which order two consumers write, is not said.
pub Run-sent :
    {c d : Client} {ls : List Label}
    → messages c.pending ≡ []
    → Run c ls d
    → sent_of ls ≡ handed_of ls ++ messages d.pending
Run-sent empty here = rw empty refl
Run-sent empty (next {ls} {d} {e} {l} r st) =
    rw (sent_of-append ls (l ∷ []), handed_of-append ls (l ∷ []))
      (balance l (handed_of ls) (sent_of ls) _ _ (Run-sent empty r) (Step_refines st))
