-- ===== src/TcpClient/System/Held.antt =====
-- What holds of the connection of a client between two events.
use nev.Base.{
  ℕ, ◌<◌, ◌≡◌, refl, sym, ◌∙◌, Bool, true, false, Option, some, none, arith, inl, inr, subst,
  Bool-cases,
}
use nev.Channel.{Channel}
use nev.Connector.{
  is_disconnected, start, start_in_loop, connect, start_connecting, stop, run_functor,
  reset_channel, handle_write,
}
use nev.Connector
use nev.TcpConnection.{Conn, new_conn, connect_established, connect_destroyed, shutdown}
use nev.TcpConnection
use nev.TcpConnection.Invariant.{Inv, new_conn-Inv}
use nev.TcpConnection.Step.{Step, Step-Inv, establishes, shuts, here, next}
use nev.TcpConnection.Lifecycle.{
  closes_in, ClosedOnce, Step-Ahead, Step-down, Reach-new_conn-ClosedOnce,
}
use nev.TcpClient.{
  Client, ClientConn, connect_client, stop_client, set_client_write_complete, disconnect,
  new_connection,
}
use nev.TcpClient.Laws.{
  is_up, handles, connects, disconnects, stops, sets_write_complete, writes, starts_queued, resets,
  removes,
}
use nev.TcpClient.Laws
use nev.TcpClient.System.{
  Link, ClientSystem, link_of, hand_over, hear_writable, shut_held, disconnect_held, is_own,
}

-- The client holds the connection, or removed it once, when it was down.
pub data Stage (s : Client) (p : Link) : Type 0 where
  held : s.connection ≡ some p.key → p.removed ≡ 0 → p.destroy_queued ≡ false → Stage s p
  dropped :
      s.connection ≡ none
      → p.removed ≡ 1
      → TcpConnection.is_disconnected p.conn.state ≡ true
      → Stage s p

pub record LinkOk (s : Client) (p : Link) : Type 0 where
  pub up : is_up s.connector.state ≡ true
  pub conn_inv : Inv p.conn
  pub closed_once : ClosedOnce p.conn
  pub stage : Stage s p

abbrev pub SystemInv : Client → Option Link → Type 0
SystemInv s none = s.connection ≡ none
SystemInv s (some p) = LinkOk s p

-- A step of the client that does not reach its connection.
pub own-Step :
    {s t : Client} (st : Laws.Step s t)
    → is_own st ≡ true
    → (t.connection ≡ s.connection)
      × (is_up s.connector.state ≡ true → is_up t.connector.state ≡ true)
unfolding run_functor reset_channel
own-Step (connects s in_loop sockfd saved_errno) o =
    unfold connect_client start start_in_loop connect start_connecting in (refl, λ u. ground arith)
own-Step (disconnects s) o = absurd (ground arith)
own-Step (stops s) o = unfold stop_client stop in (refl, λ u. u)
own-Step (sets_write_complete s has_cb) o = unfold set_client_write_complete in (refl, λ u. u)
own-Step (writes s err sockfd c) o = absurd (ground arith)
own-Step (starts_queued s sockfd saved_errno) o = (refl, λ u. absurd (ground arith))
own-Step (resets s) o = (refl, λ u. u)
own-Step (removes s c e) o = absurd (ground arith)

-- A change of the client alone.
pub own-SystemInv :
    (s t : Client) (l : Option Link)
    → t.connection ≡ s.connection
    → (is_up s.connector.state ≡ true → is_up t.connector.state ≡ true)
    → SystemInv s l
    → SystemInv t l
own-SystemInv s t none e u v = e ∙ v
own-SystemInv s t (some p) e u v = record {
  up = u v.up;
  conn_inv = v.conn_inv;
  closed_once = v.closed_once;
  stage = moved v.stage;
}
  where
    moved : Stage s p → Stage t p
    moved (held h r q) = held (e ∙ h) r q
    moved (dropped h r d) = dropped (e ∙ h) r d

-- A step of the connection.
pub stepped-LinkOk :
    (s : Client) (p : Link) {c : Conn}
    → Step p.conn c
    → LinkOk s p
    → LinkOk s (record p { conn = c })
stepped-LinkOk s p {c} st v = record {
  up = v.up;
  conn_inv = Step-Inv st v.conn_inv;
  closed_once = (Step-Ahead st v.conn_inv).1 v.closed_once;
  stage = moved v.stage;
}
  where
    moved : Stage s p → Stage s (record p { conn = c })
    moved (held h r q) = held h r q
    moved (dropped h r d) = dropped h r (Step-down st v.conn_inv d)

-- A step of the connection that the client makes too.
new_link-SystemInv :
    (s : Client) → is_up s.connector.state ≡ true → SystemInv s (link_of s.connection)
unfolding link_of
new_link-SystemInv s u = by_connection s.connection refl
  where
    by_connection : (o : Option ClientConn) → s.connection ≡ o → SystemInv s (link_of o)
    by_connection none e = e
    by_connection (some c) e =
        let fresh = new_conn c.write_complete false in
        let st : Step fresh (connect_established fresh) =
          unfold new_conn in establishes (new_conn c.write_complete false) refl in
        record {
          up = u;
          conn_inv = Step-Inv st (new_conn-Inv c.write_complete false);
          closed_once = Reach-new_conn-ClosedOnce c.write_complete false (next here st);
          stage = held e refl refl;
        }

pub disconnect_held-SystemInv :
    (x : ClientSystem) (in_loop : Bool)
    → SystemInv x.client x.link
    → SystemInv (disconnect_held in_loop x).client (disconnect_held in_loop x).link
unfolding disconnect_held disconnect shut_held
disconnect_held-SystemInv x in_loop v =
    by_link x.client.connection x.link
      (own-SystemInv x.client (disconnect x.client) x.link refl (λ u. u) v)
  where
    by_link :
        (o : Option ClientConn) (l : Option Link)
        → SystemInv (disconnect x.client) l
        → SystemInv (disconnect x.client) (shut_held in_loop o l)
    by_link none l w = w
    by_link (some c) none w = w
    by_link (some c) (some p) w = stepped-LinkOk (disconnect x.client) p (shuts p.conn in_loop) w

handed_nothing :
    (s : Client) (k : Connector.Connector) (l : Option Link)
    → (is_up k.state ≡ false → is_up s.connector.state ≡ false)
    → SystemInv s l
    → SystemInv (record s { connector = k }) l
handed_nothing s k l h v = own-SystemInv s (record s { connector = k }) l refl (λ u. ground arith) v

pub hear_writable-SystemInv :
    (x : ClientSystem) (err sockfd : ℕ) (c : Channel)
    → SystemInv x.client x.link
    → SystemInv (hear_writable err sockfd c x).client (hear_writable err sockfd c x).link
unfolding hear_writable
hear_writable-SystemInv x err sockfd c v =
    let k = (handle_write err sockfd c x.client.connector).0 in
    let y : ClientSystem = record x { client = record x.client { connector = k } } in
    let P = λ (o : Option ℕ). SystemInv (hand_over o y).client (hand_over o y).link in
    elim (handles x.client.connector err sockfd c) [
      | inl h ↦ subst P (sym h.0) (unfold hand_over in handed_nothing x.client k x.link h.1 v)
      | inr (fd, e, f, t) ↦ subst P (sym e) (
          unfold hand_over in
          new_link-SystemInv (new_connection fd y.client) (unfold new_connection in t))
    ]

-- The connection is held and down when it is removed.
pub removable :
    (s : Client) (p : Link)
    → p.removed < closes_in p.conn.calls
    → ClosedOnce p.conn
    → Stage s p
    → (s.connection ≡ some p.key)
      × (p.removed ≡ 0)
      × (TcpConnection.is_disconnected p.conn.state ≡ true)
removable s p h o (held e r q) = elim (Bool-cases (TcpConnection.is_disconnected p.conn.state)) [
  | inl d ↦ (e, r, d)
  | inr d ↦ absurd (omega (arith, o.not_before d, h))
]
removable s p h o (dropped e r d) = absurd (omega (arith, o.once, h, r))

pub queued_down :
    (s : Client) (p : Link)
    → p.destroy_queued ≡ true
    → Stage s p
    → TcpConnection.is_disconnected p.conn.state ≡ true
queued_down s p q (held e r f) = absurd (ground arith)
queued_down s p q (dropped e r d) = d
