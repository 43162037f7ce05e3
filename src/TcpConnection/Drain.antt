-- ===== src/TcpConnection/Drain.antt =====
-- The output buffer drains: as many writable events as it holds bytes empty it, if each write takes one.
use nev.Base.{
  ℕ, zero, suc, ◌-◌, ◌≤◌, ◌≡◌, refl, sym, ap, ◌∙◌, Bool, true, false, ◌||◌, List, [], ◌∷◌, ◌++◌,
  length, append-nil, arith, Bool-cases, inl, inr,
}
use nev.Buffer.{readable_bytes, retrieve}
use nev.Buffer.Valid.{content}
use nev.Buffer.Queue.{readable-retrieve}
use nev.Channel.{is_reading, is_writing}
use nev.Channel.Laws.{disable_writing_anew}
use nev.TcpConnection.{
  State, Conn, WriteResult, wrote, write_failed, is_disconnecting, is_disconnected,
  shutdown_in_loop,
}
use nev.TcpConnection.Events.{drained, after_write, handle_write}
use nev.TcpConnection.Invariant.{Inv, handle_write-Inv}
use nev.TcpConnection.Stream.{handle_write-stream, nil_of_readable}

-- Writable events, at each of which the kernel takes a byte and `n` more.
unfoldable pub write_events : List ℕ → Conn → Conn
unfolding handle_write
write_events [] s = s
write_events (n ∷ ns) s = write_events ns (handle_write s (wrote (suc n)))

pub handle_write-state : (s : Conn) (r : WriteResult) → (handle_write s r).state ≡ s.state
unfolding handle_write after_write drained shutdown_in_loop
handle_write-state s (write_failed e) = refl
handle_write-state s (wrote zero) = refl
handle_write-state s (wrote (suc n)) = ground arith

pub handle_write-still :
    (s : Conn) (r : WriteResult)
    → Inv s
    → ((handle_write s r).input_buffer ≡ s.input_buffer)
      × (is_reading (handle_write s r).channel ≡ is_reading s.channel)
unfolding handle_write after_write drained shutdown_in_loop
handle_write-still s (write_failed e) v = (refl, refl)
handle_write-still s (wrote zero) v = (refl, refl)
handle_write-still s (wrote (suc n)) v =
    ground (arith, disable_writing_anew s.destroyed s.channel v.synced)

after_write-output :
    (s : Conn) (n : ℕ) → (after_write s n).output_buffer ≡ retrieve s.output_buffer n
unfolding after_write drained shutdown_in_loop
after_write-output s n = ground arith

after_write-shorter :
    (s : Conn) (n : ℕ)
    → Inv s
    → readable_bytes (after_write s (suc n)).output_buffer ≤ readable_bytes s.output_buffer - 1
after_write-shorter s n v =
    rw (after_write-output s (suc n)) (omega (arith, readable-retrieve (suc n) v.output_valid))

handle_write-shorter :
    (s : Conn) (n k : ℕ)
    → Inv s
    → is_disconnected s.state ≡ false
    → readable_bytes s.output_buffer ≤ suc k
    → readable_bytes (handle_write s (wrote (suc n))).output_buffer ≤ k
unfolding handle_write
handle_write-shorter s n k v d h = elim (Bool-cases (is_writing s.channel)) [
  | inl w ↦ rw w (omega (arith, after_write-shorter s n v))
  | inr w ↦ rw w (ground (arith, v.writes_iff d))
]

handle_write-shuts :
    (s : Conn) (n : ℕ)
    → Inv s
    → is_disconnecting s.state ≡ true
    → (is_writing s.channel || s.write_shut) ≡ true
    → let t = handle_write s (wrote (suc n)) in (is_writing t.channel || t.write_shut) ≡ true
unfolding handle_write after_write drained shutdown_in_loop
handle_write-shuts s n v d h = ground (arith, disable_writing_anew s.destroyed s.channel v.synced)

-- On a connection
pub write_events-drain :
    (ns : List ℕ) (s : Conn)
    → Inv s
    → is_disconnected s.state ≡ false
    → readable_bytes s.output_buffer ≤ length ns
    → let t = write_events ns s in
      (content t.output_buffer ≡ [])
      × (t.wire ≡ s.wire ++ content s.output_buffer)
      × (is_writing t.channel ≡ false)
      × (t.state ≡ s.state)
unfolding write_events
write_events-drain [] s v d h =
    let empty = nil_of_readable v.output_valid (ground arith) in
    (empty, rw empty (sym (append-nil s.wire)), ground (arith, v.writes_iff d), refl)
write_events-drain (n ∷ ns) s v d h =
    let t = handle_write s (wrote (suc n)) in
    let same = handle_write-state s (wrote (suc n)) in
    let (empty, all, idle, kept) =
      write_events-drain ns t (handle_write-Inv s (wrote (suc n)) v) (ap is_disconnected same ∙ d)
        (handle_write-shorter s n (length ns) v d h) in
    (empty, all ∙ handle_write-stream s (wrote (suc n)) v, idle, kept ∙ same)

writing_or_shut :
    (ns : List ℕ) (s : Conn)
    → Inv s
    → is_disconnecting s.state ≡ true
    → (is_writing s.channel || s.write_shut) ≡ true
    → let t = write_events ns s in (is_writing t.channel || t.write_shut) ≡ true
unfolding write_events
writing_or_shut [] s v d h = h
writing_or_shut (n ∷ ns) s v d h =
    let same = handle_write-state s (wrote (suc n)) in
    writing_or_shut ns (handle_write s (wrote (suc n))) (handle_write-Inv s (wrote (suc n)) v)
      (ap is_disconnecting same ∙ d) (handle_write-shuts s n v d h)

still_open : (s : State) → is_disconnecting s ≡ true → is_disconnected s ≡ false
still_open s d = ground arith

shut_if_idle : (writing shut : Bool) → writing ≡ false → (writing || shut) ≡ true → shut ≡ true
shut_if_idle writing shut i h = ground arith

-- On a disconnecting connection of the invariant that still writes, as many writable events as
-- bytes wait, each of which takes a byte or more, put all waiting bytes on the wire and shut the
-- writing side.
pub write_events-shut :
    (ns : List ℕ) (s : Conn)
    → Inv s
    → is_disconnecting s.state ≡ true
    → is_writing s.channel ≡ true
    → readable_bytes s.output_buffer ≤ length ns
    → let t = write_events ns s in
      (t.write_shut ≡ true) × (t.wire ≡ s.wire ++ content s.output_buffer)
write_events-shut ns s v d w h =
    let t = write_events ns s in
    let (empty, all, idle, kept) = write_events-drain ns s v (still_open s.state d) h in
    (
      shut_if_idle (is_writing t.channel) t.write_shut idle
          (writing_or_shut ns s v d (ap (λ b. b || s.write_shut) w)),
      all,
    )
