-- ===== src/Util/Zk.antt =====
-- util/zk.go: the client of zookeeper, but for the goroutine of its events. No part of the agent calls
-- it. The connection is package zk's.
use flow_agent_x.Prelude.{
  ℕ, zero, suc, ◌-◌, ◌≡◌, ◌↔◌, ◌⊎◌, inl, inr, refl, Bool, true, false, Option, none, some, List, [],
  ◌∷◌, if◌then◌else◌, Text, codes,
}
use flow_agent_x.Prelude.Exec.{
  Err, errorf, nil_dereference, Result, ok, err, Outcome, ret, panic, hang, Exec, pure, ◌>>=◌,
}

pub data ZkState : Type 0 where
  zk_connected zk_disconnected other_state : ZkState

-- What the server answers: the events of a new connection, whether a node is there, with the error
-- of the question, and the error of a deletion.
pub record ZkServer : Type 0 where
  pub connect : Result (List ZkState)
  pub exists : Text → Bool × Option Err
  pub create : Text → Text → Result Text
  pub data' : Text → Result Text
  pub delete : Text → Option Err

-- `connections` counts the connections of package zk that were made and not closed.
pub record ZkClient : Type 0 where
  pub conn : Bool
  pub connections : ℕ
  pub handling : Bool  -- the goroutine of the events runs
  pub deleted : List Text

-- The loop sleeps a second behind each event, and waits for the next one without a limit.
unfoldable pub wait_for_connection : List ZkState → ℕ → Outcome Bool
wait_for_connection [] seconds = hang
wait_for_connection (zk_connected ∷ events) seconds = ret true
wait_for_connection (zk_disconnected ∷ events) zero = ret false
wait_for_connection (other_state ∷ events) zero = ret false
wait_for_connection (zk_disconnected ∷ events) (suc n) = wait_for_connection events n
wait_for_connection (other_state ∷ events) (suc n) = wait_for_connection events n

abbrev pub connect_timeout : ℕ
connect_timeout = 10

abbrev pub keep_connection : Outcome Bool → Exec ZkClient (Option Err)
keep_connection (ret true) c = (ret none, record c { conn = true; handling = true })
keep_connection (ret false) c = (ret (some (errorf (codes "zk server connection failed"))), c)
keep_connection (panic e) c = (panic e, c)
keep_connection hang c = (hang, c)

abbrev connect_from : Result (List ZkState) → Exec ZkClient (Option Err)
connect_from (err e) c = (ret (some e), c)
connect_from (ok events) c =
    keep_connection (wait_for_connection events connect_timeout)
      (record c { connections = suc c.connections })

module _ (server : ZkServer) where
  unfoldable pub connect : Exec ZkClient (Option Err)
  unfolding wait_for_connection
  connect = connect_from server.connect

  -- A call on a nil connection panics.
  abbrev pub with_conn {ℓ} : {A : Type ℓ} → Exec ZkClient A → Exec ZkClient A
  with_conn m c = if c.conn then m c else (panic nil_dereference, c)

  unfoldable pub create : (path data' : Text) → Exec ZkClient (Result Text)
  create path data' = with_conn (pure (server.create path data'))

  unfoldable pub exist : Text → Exec ZkClient (Bool × Option Err)
  exist path = with_conn (pure (server.exists path))

  unfoldable pub data_of : Text → Exec ZkClient (Result Text)
  data_of path = with_conn (pure (server.data' path))

  abbrev delete_node : Text → Exec ZkClient (Option Err)
  delete_node path c = (ret (server.delete path), record c { deleted = path ∷ c.deleted })

  -- The error of Exist is dropped.
  unfoldable pub delete : Text → Exec ZkClient (Option Err)
  unfolding exist
  delete path = exist path >>= λ r. if r.0 then with_conn (delete_node path) else pure none

  -- Delete of a client that is connected asks the server to delete a node exactly if the answer to
  -- Exists is that it is there; a question that fails counts as a node that is not there, and nil is
  -- returned.
  pub delete_lem :
      (path : Text) (c : ZkClient)
      → c.conn ≡ true
      → ((server.exists path).0 ≡ true)
          × (delete path c ≡ (ret (server.delete path), record c { deleted = path ∷ c.deleted }))
        ⊎ ((server.exists path).0 ≡ false) × (delete path c ≡ (ret none, c))
  unfolding delete exist
  delete_lem path c h = by_answer (server.exists path).0 refl
    where
      by_answer :
          (b : Bool)
          → (server.exists path).0 ≡ b
          → ((server.exists path).0 ≡ true)
              × (delete path c
                  ≡ (ret (server.delete path), record c { deleted = path ∷ c.deleted }))
            ⊎ ((server.exists path).0 ≡ false) × (delete path c ≡ (ret none, c))
      by_answer true e = inl (e, rw (h, e) refl)
      by_answer false e = inr (e, rw (h, e) refl)

abbrev pub close_zk : ZkClient → ZkClient
close_zk c = if c.conn then record c { connections = c.connections - 1 } else c

-- If Connect fails behind its dial, the connection that was made stays open: the client does not have
-- it, so Close does not close it.
pub failed_connect_lem :
    (server : ZkServer) (events : List ZkState) (c : ZkClient)
    → server.connect ≡ ok events
    → wait_for_connection events connect_timeout ≡ ret false
    → c.conn ≡ false
    → (close_zk (connect server c).1).connections ≡ suc c.connections
unfolding connect
failed_connect_lem server events c h w n = rw (h, w, n) refl

-- A connection is seen among the first events.
abbrev pub SeenWithin : ℕ → List ZkState → Type 0
SeenWithin n [] = ⊥
SeenWithin n (zk_connected ∷ events) = Unit
SeenWithin zero (zk_disconnected ∷ events) = ⊥
SeenWithin zero (other_state ∷ events) = ⊥
SeenWithin (suc n) (zk_disconnected ∷ events) = SeenWithin n events
SeenWithin (suc n) (other_state ∷ events) = SeenWithin n events

-- The wait ends well exactly if the connection is seen among the first events, one more than the
-- seconds given.
pub wait_for_connection_iff :
    (events : List ZkState) (n : ℕ)
    → (wait_for_connection events n ≡ ret true) ↔ SeenWithin n events
unfolding wait_for_connection
wait_for_connection_iff [] n = ((λ h. cc), λ h. absurd h)
wait_for_connection_iff (zk_connected ∷ events) n = ((λ h. tt), λ h. refl)
wait_for_connection_iff (zk_disconnected ∷ events) zero = ((λ h. cc), λ h. absurd h)
wait_for_connection_iff (other_state ∷ events) zero = ((λ h. cc), λ h. absurd h)
wait_for_connection_iff (zk_disconnected ∷ events) (suc n) = wait_for_connection_iff events n
wait_for_connection_iff (other_state ∷ events) (suc n) = wait_for_connection_iff events n
