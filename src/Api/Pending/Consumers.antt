-- ===== src/Api/Pending/Consumers.antt =====
-- The goroutines of api/client.go: how many consumers there are, how full the channel gets, and
-- what a lost connection does to them.
use flow_agent_x.Prelude.{
  ℕ, ◌+◌, ◌-◌, ◌<◌, ◌≤◌, ◌≡◌, ◌≢◌, ◌⊎◌, inl, inr, ◌∙◌, sym, ap, refl, true, false, Bool-cases, List,
  [], ◌∷◌, ◌++◌, arith, length, ltb, length-append,
}
use flow_agent_x.Api.Pending.{
  Message, Item, queued, disconnected, Client, done, wrote, push, pending_size,
  send_message_with_bytes, set_conn_state, dial_failed, dialed, handshake_failed, start_goroutines,
  read_failed, signalled, clear_conn, mark_disconnected, waits, leave, consume_from,
  consume_pending_message, close, Label, handed, internal, Step, send, dial_fail, dial, refuse,
  accept, fail, signal, clear, mark, write, exit, shut, Run, here, next, new_client,
}
use flow_agent_x.Api.Pending.Queue.{
  close-pending, push_inv, consume_from-wrote, consume_from-exited,
}

abbrev pub marks : List Item → ℕ
marks [] = 0
marks (queued m ∷ items) = marks items
marks (disconnected ∷ items) = marks items + 1

marks-append : (xs ys : List Item) → marks (xs ++ ys) ≡ marks xs + marks ys
marks-append [] ys = omega arith
marks-append (queued m ∷ xs) ys = marks-append xs ys
marks-append (disconnected ∷ xs) ys = omega (arith, marks-append xs ys)

-- As long as the channel is open, the consumers are as many as the marks, the readers, and the
-- readers on their way out taken together.
pub record IsBalanced (c : Client) : Type 0 where
  pub fits : length c.pending ≤ pending_size
  pub matched :
      c.closed ≡ false
      → c.consumers ≡ marks c.pending + c.reading + c.signalling + c.clearing + c.marking

close_inv : (c d : Client) → close c ≡ done d → d.closed ≡ false → d ≡ c
unfolding close
close_inv c d h o = ground arith

Step-IsBalanced : {c d : Client} {l : Label} → Step c l d → IsBalanced c → IsBalanced d
unfolding send_message_with_bytes set_conn_state dial_failed dialed handshake_failed
    start_goroutines read_failed signalled clear_conn mark_disconnected consume_pending_message
    leave close
Step-IsBalanced {c} {d} (send {m} h) i =
    let (o, room, e) = push_inv (queued m) c d h in
    rw e (record {
      fits = omega (arith, room, length-append c.pending (queued m ∷ []));
      matched = λ o'. omega (arith, i.matched o', marks-append c.pending (queued m ∷ []));
    })
Step-IsBalanced dial_fail i = record { fits = i.fits; matched = i.matched }
Step-IsBalanced dial i = record { fits = i.fits; matched = i.matched }
Step-IsBalanced (refuse _) i = record { fits = i.fits; matched = i.matched }
Step-IsBalanced (accept p) i = record { fits = i.fits; matched = λ o. omega (arith, i.matched o) }
Step-IsBalanced (fail p) i = record { fits = i.fits; matched = λ o. omega (arith, i.matched o) }
Step-IsBalanced (signal p) i = record { fits = i.fits; matched = λ o. omega (arith, i.matched o) }
Step-IsBalanced (clear p) i = record { fits = i.fits; matched = λ o. omega (arith, i.matched o) }
Step-IsBalanced {c} {d} (mark p h) i =
    let (o, room, e) = push_inv disconnected (record c { marking = c.marking - 1 }) d h in
    rw e (record {
      fits = omega (arith, room, length-append c.pending (disconnected ∷ []));
      matched = λ o'. omega (arith, i.matched o', marks-append c.pending (disconnected ∷ []));
    })
Step-IsBalanced {c} {d} (write {b} {m} p h) i =
    let (rest, e, _, r) = consume_from-wrote c.pending c d b m h in
    rw r (record {
      fits = omega (arith, i.fits, ap length e);
      matched = λ o. omega (arith, i.matched o, ap marks e);
    })
Step-IsBalanced {c} {d} (exit p h) i = elim (consume_from-exited c.pending c d h) [
  | inl (_, o, e) ↦ rw e (record { fits = i.fits; matched = λ o'. absurd (cc) })
  | inr (rest, q, e) ↦ rw e (record {
    fits = omega (arith, i.fits, ap length q);
    matched = λ o. omega (arith, i.matched o, ap marks q);
  })
]
Step-IsBalanced {c} {d} (shut h) i = record {
  fits = rw (close-pending c d h) i.fits;
  matched =
      λ o. rw (close_inv c d h o) (i.matched (sym (ap (λ e. e.closed) (close_inv c d h o)) ∙ o));
}

pub Run-IsBalanced : {d : Client} {ls : List Label} → Run new_client ls d → IsBalanced d
unfolding new_client
Run-IsBalanced here = record { fits = omega arith; matched = λ _. refl }
Run-IsBalanced (next r st) = Step-IsBalanced st (Run-IsBalanced r)

-- While the channel is open, the consumers that run are as many as the marks in the channel, the
-- readers, and the readers that have yet to signal, to clear the connection or to put their mark:
-- each mark that comes ends one consumer, and every consumer is ended by one.
pub Run-consumers :
    {d : Client} {ls : List Label}
    → Run new_client ls d
    → d.closed ≡ false
    → d.consumers ≡ marks d.pending + d.reading + d.signalling + d.clearing + d.marking
Run-consumers r = (Run-IsBalanced r).matched

push_free :
    (item : Item) (c : Client)
    → c.closed ≡ false
    → ltb (length c.pending) pending_size ≡ true
    → push item c ≡ done (record c { pending = c.pending ++ (item ∷ []) })
unfolding push
push_free item c o e = ground arith

full-ne-waits :
    (items : List Item) (c : Client)
    → ltb (length items) pending_size ≡ false
    → consume_from items c ≢ waits
unfolding consume_from
full-ne-waits [] c e h = cc
full-ne-waits (queued m ∷ items) c e h = cc
full-ne-waits (disconnected ∷ items) c e h = cc

-- A reader that waits for room to put its mark does not wait for ever: whenever it stands there
-- with the channel open, it can put the mark, or there is a consumer and it can take an item.
pub marking_progress :
    {c : Client} {ls : List Label}
    → Run new_client ls c
    → c.closed ≡ false
    → 0 < c.marking
    → ((d : Client) × (mark_disconnected c ≡ done d))
      ⊎ ((0 < c.consumers) × (consume_pending_message c ≢ waits))
unfolding mark_disconnected consume_pending_message
marking_progress {c} r o p = elim (Bool-cases (ltb (length c.pending) pending_size)) [
  | inl e ↦ inl (_, push_free disconnected (record c { marking = c.marking - 1 }) o e)
  | inr e ↦ inr (omega (arith, Run-consumers r o), full-ne-waits c.pending c e)
]

write_head :
    (c : Client) (m : Message) (rest : List Item)
    → c.conn ≡ false
    → 0 < c.consumers
    → c.pending ≡ queued m ∷ rest
    → Step c (handed false m) (record c { pending = rest })
unfolding consume_pending_message consume_from
write_head c m rest k q e = write q (ground arith)

-- From every state with a reader, a consumer, and a message at the front of the channel, the reader
-- can meet a close error (read_failed), signal it (signalled) and set the connection to nil
-- (clear_conn), each a step of the client; then the message is still at the front, and the step of
-- the consumer is to write it to a connection that is nil. The reader has only then to put the mark
-- that would have ended the consumer.
pub lost_connection :
    (c : Client) (m : Message) (rest : List Item)
    → 0 < c.reading
    → 0 < c.consumers
    → c.pending ≡ queued m ∷ rest
    → let d = clear_conn (signalled (read_failed c)) in
      Step c internal (read_failed c)
      × Step (read_failed c) internal (signalled (read_failed c))
      × Step (signalled (read_failed c)) internal d
      × (consume_pending_message d ≡ wrote false m (record d { pending = rest }))
      × Step d (handed false m) (record d { pending = rest })
      × (d.marking ≡ c.marking + 1)
unfolding read_failed signalled clear_conn set_conn_state consume_pending_message consume_from
lost_connection c m rest p q e = (
  fail p,
  signal (omega arith),
  clear (omega arith),
  ap (λ items. consume_from items (clear_conn (signalled (read_failed c)))) e,
  write_head (clear_conn (signalled (read_failed c))) m rest refl q e,
  refl,
)
