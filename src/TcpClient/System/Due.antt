-- ===== src/TcpClient/System/Due.antt =====
-- The connection of a client over any run: what is due at each event.
use nev.Base.{◌<◌, ◌≡◌, refl, Bool, true, false, Option, some, none, arith, subst}
use nev.TcpConnection.{Conn, new_conn, connect_established, connect_destroyed, shutdown}
use nev.TcpConnection
use nev.TcpConnection.Step.{destroys}
use nev.TcpConnection.Lifecycle.{closes_in}
use nev.TcpClient.{Client, ClientConn, new_client, remove_connection}
use nev.TcpClient.System.{
  Link, ClientSystem, remove_link, run_destroyed, Move, client_acts, disconnects_held,
  writes_connector, link_acts, removes_link, runs_destroyed, Moves, still, further,
}
use nev.TcpClient.System.Held.{
  Stage, held, dropped, LinkOk, SystemInv, own-Step, own-SystemInv, stepped-LinkOk,
  disconnect_held-SystemInv, hear_writable-SystemInv, removable, queued_down,
}

Move-SystemInv :
    {x y : ClientSystem} → Move x y → SystemInv x.client x.link → SystemInv y.client y.link
Move-SystemInv (client_acts x {t} st o) v =
    let k = own-Step st o in own-SystemInv x.client t x.link k.0 k.1 v
Move-SystemInv (disconnects_held x in_loop) v = disconnect_held-SystemInv x in_loop v
Move-SystemInv (writes_connector x err sockfd c) v = hear_writable-SystemInv x err sockfd c v
Move-SystemInv (link_acts x p st e q) v =
    stepped-LinkOk x.client p st (subst (SystemInv x.client) e v)
Move-SystemInv (removes_link x p e h) v =
    let w : LinkOk x.client p = subst (SystemInv x.client) e v in
    let k = removable x.client p h w.closed_once w.stage in
    unfold remove_link remove_connection in
    record {
      up = w.up;
      conn_inv = w.conn_inv;
      closed_once = w.closed_once;
      stage = dropped refl (omega (arith, k.1)) k.2;
    }
Move-SystemInv (runs_destroyed x p e q) v =
    let w : LinkOk x.client p = subst (SystemInv x.client) e v in
    let d = queued_down x.client p q w.stage in
    let k = stepped-LinkOk x.client p (destroys p.conn) w in
    unfold run_destroyed in
    record { up = k.up; conn_inv = k.conn_inv; closed_once = k.closed_once; stage = done p k.stage }
  where
    done :
        (p : Link) {c : Conn}
        → Stage x.client (record p { conn = c })
        → Stage x.client (record p { conn = c; destroy_queued = false })
    done p (held a r f) = held a r refl
    done p (dropped a r d) = dropped a r d

Moves-SystemInv :
    {x y : ClientSystem} → Moves x y → SystemInv x.client x.link → SystemInv y.client y.link
Moves-SystemInv still v = v
Moves-SystemInv (further r m) v = Move-SystemInv m (Moves-SystemInv r v)

abbrev pub new_system : Bool → ClientSystem
new_system garbage = record { client = new_client garbage; link = none }

-- The `DCHECK`s of the client and of its connection.
pub record ClientDue (s : Client) (l : Option Link) : Type 0 where
  pub holds :
      (c : ClientConn)
      → s.connection ≡ some c
      → (p : Link) × (l ≡ some p) × (p.key ≡ c) × (p.removed ≡ 0)
  pub removed_down :
      (p : Link)
      → l ≡ some p
      → p.removed < closes_in p.conn.calls
      → (s.connection ≡ some p.key) × (TcpConnection.is_disconnected p.conn.state ≡ true)
  pub destroyed_down :
      (p : Link)
      → l ≡ some p
      → p.destroy_queued ≡ true
      → TcpConnection.is_disconnected p.conn.state ≡ true

held_link :
    (s : Client) (p : Link) (c : ClientConn)
    → s.connection ≡ some c
    → Stage s p
    → (p.key ≡ c) × (p.removed ≡ 0)
held_link s p c e (held a r q) = (ground arith, r)
held_link s p c e (dropped a r d) = absurd (ground arith)

SystemInv-ClientDue : (s : Client) (l : Option Link) → SystemInv s l → ClientDue s l
SystemInv-ClientDue s none v = record {
  holds = λ c e. absurd (ground arith);
  removed_down = λ p e h. absurd (ground arith);
  destroyed_down = λ p e q. absurd (ground arith);
}
SystemInv-ClientDue s (some p) v = record {
  holds = λ c e. let k = held_link s p c e v.stage in (p, refl, k.0, k.1);
  removed_down = λ q e h.
      let w : LinkOk s q = subst (SystemInv s) e v in
      let k = removable s q h w.closed_once w.stage in (k.0, k.2);
  destroyed_down =
      λ q e h. let w : LinkOk s q = subst (SystemInv s) e v in queued_down s q h w.stage;
}

-- Over any run of a new client with its connection, until the client is destroyed, in which no
-- attempt starts while the connector is not disconnected: a connection that the client holds is
-- the one that was made and was not removed; when the removal of a connection is due, the client
-- holds this connection and it is disconnected; and connectDestroyed is due only on a
-- disconnected connection.
pub Moves-ClientDue :
    (garbage : Bool) {x : ClientSystem} → Moves (new_system garbage) x → ClientDue x.client x.link
Moves-ClientDue garbage {x} r =
    SystemInv-ClientDue x.client x.link (Moves-SystemInv r (unfold new_client in refl))
