-- ===== src/TcpClient/Laws.antt =====
-- A client makes at most one connection, and ends it at most once.
use nev.Base.{
  ℕ, suc, ◌+◌, ◌≤◌, ◌≡◌, refl, sym, ap, Bool, true, false, not, ◌||◌, ◌&&◌, List, [], ◌∷◌, ◌++◌,
  Option, some, none, arith, inl, inr, ◌⊎◌, subst,
}
use nev.Channel.{Channel}
use nev.Connector.{
  Connector, State, connected, is_disconnected, start_in_loop_functor, reset_channel_functor, start,
  start_in_loop, connect, start_connecting, stop, run_functor, handle_write, attempt_done,
  remove_and_reset_channel, reset_channel,
}
use nev.TcpClient.{
  Client, ClientConn, ClientCall, connect_established_call, shutdown_call, set_close_cb_call,
  connect_destroyed_queued, new_client, set_client_write_complete, connect_client, disconnect,
  stop_client, new_connection, remove_connection, handle_writable, call_on, take_over,
}

-- The connections that were established, and those whose end was queued.
unfoldable pub made : List ClientCall → ℕ
made [] = 0
made (connect_established_call c ∷ cs) = suc (made cs)
made (_ ∷ cs) = made cs

unfoldable pub ended : List ClientCall → ℕ
ended [] = 0
ended (connect_destroyed_queued c ∷ cs) = suc (ended cs)
ended (_ ∷ cs) = ended cs

abbrev pub present : Option ClientConn → ℕ
present none = 0
present (some c) = 1

made-append : (cs ds : List ClientCall) → made (cs ++ ds) ≡ made cs + made ds
unfolding made
made-append [] ds = omega arith
made-append (connect_established_call c ∷ cs) ds = omega (arith, made-append cs ds)
made-append (shutdown_call c ∷ cs) ds = made-append cs ds
made-append (set_close_cb_call c ∷ cs) ds = made-append cs ds
made-append (connect_destroyed_queued c ∷ cs) ds = made-append cs ds

ended-append : (cs ds : List ClientCall) → ended (cs ++ ds) ≡ ended cs + ended ds
unfolding ended
ended-append [] ds = omega arith
ended-append (connect_destroyed_queued c ∷ cs) ds = omega (arith, ended-append cs ds)
ended-append (connect_established_call c ∷ cs) ds = ended-append cs ds
ended-append (shutdown_call c ∷ cs) ds = ended-append cs ds
ended-append (set_close_cb_call c ∷ cs) ds = ended-append cs ds

pub data Step : Client → Client → Type 0 where
  connects :
      (s : Client) (in_loop : Bool) (sockfd saved_errno : ℕ)
      → Step s (connect_client in_loop sockfd saved_errno s)
  disconnects : (s : Client) → Step s (disconnect s)
  stops : (s : Client) → Step s (stop_client s)
  sets_write_complete : (s : Client) (has_cb : Bool) → Step s (set_client_write_complete has_cb s)
  writes : (s : Client) (err sockfd : ℕ) (c : Channel) → Step s (handle_writable err sockfd c s)
  starts_queued :
      (s : Client) (sockfd saved_errno : ℕ)
      → Step s (record s {
        connector = run_functor sockfd saved_errno start_in_loop_functor s.connector;
      })
  resets :
      (s : Client)
      → Step s (record s { connector = run_functor 0 0 reset_channel_functor s.connector })
  removes : (s : Client) (c : ClientConn) → s.connection ≡ some c → Step s (remove_connection c s)

pub data Reach (s : Client) : Client → Type 0 where
  here : Reach s s
  next : {t u : Client} → Reach s t → Step t u → Reach s u

-- An attempt starts while the connector is not disconnected, which only a `DCHECK` of `startInLoop` forbids.
abbrev pub restarts : {s t : Client} → Step s t → Bool
restarts (connects s in_loop sockfd saved_errno) =
    in_loop && not (is_disconnected s.connector.state)
restarts (starts_queued s sockfd saved_errno) = not (is_disconnected s.connector.state)
restarts _ = false

-- A run in which this never happens.
abbrev pub NeverRestarts : {s t : Client} → Reach s t → Type 0
NeverRestarts here = Unit
NeverRestarts (next r st) = NeverRestarts r × (restarts st ≡ false)

abbrev pub is_up : State → Bool
is_up connected = true
is_up _ = false

-- At most one connection was made, then the connector is connected; it is present or was ended once.
pub record AtMostOne (s : Client) : Type 0 where
  pub before : is_up s.connector.state ≡ false → made s.calls ≡ 0
  pub once : made s.calls ≤ 1
  pub balanced : made s.calls ≡ ended s.calls + present s.connection
  pub numbered : s.next_conn_id ≡ 1 + made s.calls

new_client-AtMostOne : (garbage : Bool) → AtMostOne (new_client garbage)
unfolding new_client made ended
new_client-AtMostOne garbage = ground arith

starting :
    (k : Connector) (sockfd saved_errno : ℕ)
    → is_disconnected k.state ≡ true
    → is_up (start_in_loop sockfd saved_errno k).state ≡ false
unfolding start_in_loop connect start_connecting
starting k sockfd saved_errno h = ground arith

connect_client-AtMostOne :
    (s : Client) (in_loop : Bool) (sockfd saved_errno : ℕ)
    → (not in_loop || is_disconnected s.connector.state) ≡ true
    → AtMostOne s
    → AtMostOne (connect_client in_loop sockfd saved_errno s)
unfolding connect_client start
connect_client-AtMostOne s true sockfd saved_errno h v =
    ground (arith, starting (record s.connector { connect_flag = true }) sockfd saved_errno h)
connect_client-AtMostOne s false sockfd saved_errno h v = ground arith

called :
    (f : ClientConn → ClientCall) (o : Option ClientConn)
    → ((c : ClientConn) → (made (f c ∷ []) ≡ 0) × (ended (f c ∷ []) ≡ 0))
    → (made (call_on f o) ≡ 0) × (ended (call_on f o) ≡ 0)
unfolding call_on made ended
called f none h = (refl, refl)
called f (some c) h = h c

disconnect-AtMostOne : (s : Client) → AtMostOne s → AtMostOne (disconnect s)
unfolding disconnect
disconnect-AtMostOne s v =
    let z = called shutdown_call s.connection (λ c. unfold made ended in (refl, refl)) in
    let a = made-append s.calls (call_on shutdown_call s.connection) in
    let b = ended-append s.calls (call_on shutdown_call s.connection) in
    record {
      before = λ h. omega (arith, a, z.0, v.before h);
      once = omega (arith, a, z.0, v.once);
      balanced = omega (arith, a, b, z.0, z.1, v.balanced);
      numbered = omega (arith, a, z.0, v.numbered);
    }

-- What `handleWrite` of a connector hands over: nothing, or a descriptor when it becomes connected.
pub handles :
    (k : Connector) (err sockfd : ℕ) (c : Channel)
    → let r = handle_write err sockfd c k in
      ((r.1 ≡ none) × (is_up r.0.state ≡ false → is_up k.state ≡ false))
      ⊎ ((fd : ℕ) × (r.1 ≡ some fd) × (is_up k.state ≡ false) × (is_up r.0.state ≡ true))
unfolding handle_write attempt_done remove_and_reset_channel
handles k err sockfd c = ground arith

handed_none :
    (s : Client) (k : Connector)
    → (is_up k.state ≡ false → is_up s.connector.state ≡ false)
    → AtMostOne s
    → AtMostOne (record s { connector = k })
handed_none s k h v = record {
  before = λ f. v.before (h f);
  once = v.once;
  balanced = v.balanced;
  numbered = v.numbered;
}

handed_one :
    (s : Client) (k : Connector) (fd : ℕ)
    → is_up s.connector.state ≡ false
    → is_up k.state ≡ true
    → AtMostOne s
    → AtMostOne (new_connection fd (record s { connector = k }))
unfolding new_connection
handed_one s k fd h t v =
    let c : ClientConn = record {
      conn_id = s.next_conn_id;
      sockfd = fd;
      write_complete = s.has_write_complete_cb;
    } in
    let a = made-append s.calls (connect_established_call c ∷ []) in
    let b = ended-append s.calls (connect_established_call c ∷ []) in
    unfold made ended in
    record {
      before = λ f. ground arith;
      once = omega (arith, a, v.before h);
      balanced = omega (arith, a, b, v.before h, v.balanced);
      numbered = omega (arith, a, v.numbered);
    }

handle_writable-AtMostOne :
    (s : Client) (err sockfd : ℕ) (c : Channel)
    → AtMostOne s
    → AtMostOne (handle_writable err sockfd c s)
unfolding handle_writable
handle_writable-AtMostOne s err sockfd c v =
    let k = (handle_write err sockfd c s.connector).0 in
    let P = λ (o : Option ℕ). AtMostOne (take_over o (record s { connector = k })) in
    unfold take_over in
    elim (handles s.connector err sockfd c) [
      | inl h ↦ subst P (sym h.0) (handed_none s k h.1 v)
      | inr (fd, e, f, t) ↦ subst P (sym e) (handed_one s k fd f t v)
    ]

remove_connection-AtMostOne :
    (s : Client) (c : ClientConn)
    → s.connection ≡ some c
    → AtMostOne s
    → AtMostOne (remove_connection c s)
unfolding remove_connection
remove_connection-AtMostOne s c e v =
    let a = made-append s.calls (connect_destroyed_queued c ∷ []) in
    let b = ended-append s.calls (connect_destroyed_queued c ∷ []) in
    unfold made ended in
    record {
      before = λ f. omega (arith, a, v.before f);
      once = omega (arith, a, v.once);
      balanced = omega (arith, a, b, v.balanced, ap present e);
      numbered = omega (arith, a, v.numbered);
    }

Step-AtMostOne : {s t : Client} (st : Step s t) → restarts st ≡ false → AtMostOne s → AtMostOne t
Step-AtMostOne (connects s in_loop sockfd saved_errno) f v =
    connect_client-AtMostOne s in_loop sockfd saved_errno (ground arith) v
Step-AtMostOne (disconnects s) f v = disconnect-AtMostOne s v
Step-AtMostOne (stops s) f v = unfold stop_client stop in ground arith
Step-AtMostOne (sets_write_complete s has_cb) f v = unfold set_client_write_complete in ground arith
Step-AtMostOne (writes s err sockfd c) f v = handle_writable-AtMostOne s err sockfd c v
Step-AtMostOne (starts_queued s sockfd saved_errno) f v =
    unfold run_functor in
    handed_none s (start_in_loop sockfd saved_errno s.connector) (λ g. ground arith) v
Step-AtMostOne (resets s) f v =
    unfold run_functor reset_channel in handed_none s (reset_channel s.connector) (λ f. f) v
Step-AtMostOne (removes s c e) f v = remove_connection-AtMostOne s c e v

Reach-AtMostOne : {s t : Client} (r : Reach s t) → NeverRestarts r → AtMostOne s → AtMostOne t
Reach-AtMostOne here n v = v
Reach-AtMostOne (next r st) n v = Step-AtMostOne st n.1 (Reach-AtMostOne r n.0 v)

-- Over any run of a new client in which no attempt starts while the connector is not
-- disconnected, which a DCHECK of startInLoop asks for, at most one connection is established,
-- only by a connector that becomes connected; then the client holds it, or its end was queued
-- once.
pub Reach-new_client-AtMostOne :
    (garbage : Bool) {t : Client} (r : Reach (new_client garbage) t) → NeverRestarts r → AtMostOne t
Reach-new_client-AtMostOne garbage r n = Reach-AtMostOne r n (new_client-AtMostOne garbage)
