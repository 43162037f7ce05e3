-- ===== src/TcpServer/System/Stage.antt =====
-- The stages of a connection of a server, from `newConnection` to `connectDestroyed`.
use nev.Base.{ℕ, ◌+◌, ◌<◌, ◌≡◌, refl, true, false, List, [], ◌∷◌, arith, Bool-cases, inl, inr}
use nev.TcpConnection.{connecting, Conn, is_disconnected}
use nev.TcpConnection.Invariant.{Inv}
use nev.TcpConnection.Step.{Step, establishes, destroys}
use nev.TcpConnection.Unheard.{is_posted, Unheard, Step-Unheard}
use nev.TcpConnection.Lifecycle.{closes_in, ClosedOnce, Step-down}
use nev.TcpServer.{Task, connect_established_task, connect_destroyed_task}
use nev.TcpServer.System.{ran_peer, Peer, run_task, removed_peer}

module _ {L : Type 0} where
  -- `n` is how often the connection stands in the map of the server.
  pub data Stage (p : Peer L) (n : ℕ) : Type 0 where
    unheard :
        p.tasks ≡ connect_established_task ∷ [] → Unheard p.conn → p.removed ≡ 0 → n ≡ 1 → Stage p n
    served : p.tasks ≡ [] → p.removed ≡ 0 → n ≡ 1 → Stage p n
    removed_once :
        p.tasks ≡ connect_destroyed_task ∷ []
        → p.removed ≡ 1
        → n ≡ 0
        → is_disconnected p.conn.state ≡ true
        → Stage p n
    destroyed_once :
        p.tasks ≡ [] → p.removed ≡ 1 → n ≡ 0 → is_disconnected p.conn.state ≡ true → Stage p n

  pub acts-Stage :
      (p : Peer L) (n : ℕ) {c : Conn} (st : Step p.conn c)
      → is_posted st ≡ false
      → Inv p.conn
      → Stage p n
      → Stage (record p { conn = c }) n
  acts-Stage p n st q v (unheard t u r e) = unheard t (Step-Unheard st q v u) r e
  acts-Stage p n st q v (served t r e) = served t r e
  acts-Stage p n st q v (removed_once t r e d) = removed_once t r e (Step-down st v d)
  acts-Stage p n st q v (destroyed_once t r e d) = destroyed_once t r e (Step-down st v d)

  -- A task that the loop runs is a step of the connection, and the last that waits.
  pub runs-Stage :
      (p : Peer L) (n : ℕ) (f : Task) (rest : List Task)
      → p.tasks ≡ f ∷ rest
      → Inv p.conn
      → Stage p n
      → Step p.conn (run_task f p.conn) × Stage (ran_peer p f rest) n
  unfolding run_task
  runs-Stage p n connect_established_task rest h v (unheard t u r e) =
      (establishes p.conn u.0, served (ground arith) r e)
  runs-Stage p n connect_destroyed_task rest h v (removed_once t r e d) =
      let st = destroys p.conn in (st, destroyed_once (ground arith) r e (Step-down st v d))
  runs-Stage p n connect_destroyed_task rest h v (unheard t u r e) = absurd (ground arith)
  runs-Stage p n connect_established_task rest h v (removed_once t r e d) = absurd (ground arith)
  runs-Stage p n f rest h v (served t r e) = absurd (ground arith)
  runs-Stage p n f rest h v (destroyed_once t r e d) = absurd (ground arith)

  -- The connection stands in the map once and is down when it is removed.
  pub removes-Stage :
      (p : Peer L) (n : ℕ)
      → p.removed < closes_in p.conn.calls
      → ClosedOnce p.conn
      → Stage p n
      → (n ≡ 1) × Stage (removed_peer p) 0
  unfolding removed_peer
  removes-Stage p n h o (unheard t u r e) = absurd (ground (arith, o.not_before))
  removes-Stage p n h o (served t r e) = elim (Bool-cases (is_disconnected p.conn.state)) [
    | inl d ↦ (e, removed_once (ground arith) (omega (arith, r)) refl d)
    | inr d ↦ absurd (omega (arith, o.not_before d, h))
  ]
  removes-Stage p n h o (removed_once t r e d) = absurd (omega (arith, o.once, h, r))
  removes-Stage p n h o (destroyed_once t r e d) = absurd (omega (arith, o.once, h, r))

  -- What a stage tells of the events that are due.
  pub Stage-connecting :
      (p : Peer L) (n : ℕ) (rest : List Task)
      → p.tasks ≡ connect_established_task ∷ rest
      → Stage p n
      → p.conn.state ≡ connecting
  Stage-connecting p n rest h (unheard t u r e) = u.0
  Stage-connecting p n rest h (served t r e) = absurd (ground arith)
  Stage-connecting p n rest h (removed_once t r e d) = absurd (ground arith)
  Stage-connecting p n rest h (destroyed_once t r e d) = absurd (ground arith)

  pub Stage-down :
      (p : Peer L) (n : ℕ) (rest : List Task)
      → p.tasks ≡ connect_destroyed_task ∷ rest
      → Stage p n
      → is_disconnected p.conn.state ≡ true
  Stage-down p n rest h (unheard t u r e) = absurd (ground arith)
  Stage-down p n rest h (served t r e) = absurd (ground arith)
  Stage-down p n rest h (removed_once t r e d) = d
  Stage-down p n rest h (destroyed_once t r e d) = d

  pub Stage-erased :
      (p : Peer L) (n : ℕ)
      → p.removed < closes_in p.conn.calls
      → ClosedOnce p.conn
      → Stage p n
      → (n ≡ 1) × (is_disconnected p.conn.state ≡ true)
  Stage-erased p n h o g = elim (Bool-cases (is_disconnected p.conn.state)) [
    | inl d ↦ ((removes-Stage p n h o g).0, d)
    | inr d ↦ absurd (omega (arith, o.not_before d, h))
  ]

  pub Stage-in_map : (p : Peer L) (n : ℕ) → Stage p n → n + p.removed ≡ 1
  Stage-in_map p n (unheard t u r e) = omega (arith, r, e)
  Stage-in_map p n (served t r e) = omega (arith, r, e)
  Stage-in_map p n (removed_once t r e d) = omega (arith, r, e)
  Stage-in_map p n (destroyed_once t r e d) = omega (arith, r, e)
