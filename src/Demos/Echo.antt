-- ===== src/Demos/Echo.antt =====
-- The echo server over any run of a connection.
use nev.Base.{
  ℕ, subst, ◌≤◌, ◌≡◌, refl, sym, ap, ◌∙◌, true, false, if◌then◌else◌, List, [], ◌∷◌, ◌++◌, length,
  arith, append-nil, append_assoc, Bool-cases, inl, inr,
}
use nev.Buffer.{retrieve_all_as_string, readable_bytes}
use nev.Buffer.Valid.{content, HasRoom}
use nev.Buffer.Queue.{retrieve_all_as_string_lem}
use nev.Buffer.ReadFd.{ReadResult, received, failed, read_fd_win-Holds}
use nev.Channel.{is_reading}
use nev.TcpConnection.{
  is_connecting, State, connecting, connected, disconnecting, disconnected, Conn, WriteResult,
  is_connected, is_disconnecting, is_disconnected, send, send_in_loop, connect_established,
  connect_destroyed, handle_close, new_conn,
}
use nev.TcpConnection.Events.{is_fault_error, handle_read, handle_write, drained}
use nev.TcpConnection.Invariant.{
  with_input-Inv, Inv, ReadFits, send_in_loop-Inv, handle_read-Inv, handle_write-Inv,
  handle_close-Inv, connect_established-Inv, connect_destroyed-Inv, new_conn-Inv,
}
use nev.TcpConnection.Stream.{stream, kept, send_in_loop-stream, handle_write-stream}
use nev.TcpConnection.Frame.{send_in_loop-SameFrame}
use nev.TcpConnection.Drain.{
  handle_write-state, handle_write-still, write_events, write_events-drain,
}
use nev.Demos.{on_message, read_event}

-- What was read fits into the output buffer too.
abbrev pub EchoFits : Conn → ReadResult → Type 0
EchoFits s (failed e) = Unit
EchoFits s (received bytes) = HasRoom s.output_buffer (length bytes)

-- What can happen to a connection of the echo server, which sends only what it reads.
pub data Step : Conn → Conn → Type 0 where
  establishes : (s : Conn) → s.state ≡ connecting → Step s (connect_established s)
  reads :
      (s : Conn) (r : ReadResult) (result : WriteResult)
      → is_reading s.channel ≡ true
      → ReadFits s r
      → EchoFits s r
      → Step s (read_event s r result)
  writes : (s : Conn) (result : WriteResult) → Step s (handle_write s result)
  destroys : (s : Conn) → is_connecting s.state ≡ false → Step s (connect_destroyed s)

pub data Reach (s : Conn) : Conn → Type 0 where
  here : Reach s s
  next : {t u : Conn} → Reach s t → Step t u → Reach s u

abbrev pub bytes_of : ReadResult → List ℕ
bytes_of (failed e) = []
bytes_of (received bytes) = bytes

abbrev pub read_bytes : {s t : Conn} → Step s t → List ℕ
read_bytes (reads s r _ _ _ _) = bytes_of r
read_bytes _ = []

abbrev pub all_read : {s t : Conn} → Reach s t → List ℕ
all_read here = []
all_read (next r st) = all_read r ++ read_bytes st

-- Between two events the input buffer is empty and nobody has asked for a shutdown.
record EchoInv (s : Conn) : Type 0 where
  inv : Inv s
  empty : content s.input_buffer ≡ []
  undisturbed : is_disconnecting s.state ≡ false
  hushed : is_connecting s.state ≡ true → is_reading s.channel ≡ false

-- What a step makes of the stream.
record Echoes (s t : Conn) (bytes : List ℕ) : Type 0 where
  after : EchoInv t
  added : stream t ≡ stream s ++ bytes

only_connected : (s : Conn) → EchoInv s → is_reading s.channel ≡ true → s.state ≡ connected
only_connected s v h = go s.state refl
  where
    go : (st : State) → s.state ≡ st → s.state ≡ connected
    go connecting e = absurd (ground (arith, v.hushed))
    go connected e = e
    go disconnecting e = absurd (ground (arith, v.undisturbed))
    go disconnected e = absurd (ground (arith, v.inv.deaf))

on_message-Echoes :
    (s : Conn) (w : WriteResult)
    → Inv s
    → s.state ≡ connected
    → HasRoom s.output_buffer (length (content s.input_buffer))
    → Echoes s (on_message s w) (content s.input_buffer)
unfolding on_message send
on_message-Echoes s w v up room =
    let (got, rest) = retrieve_all_as_string_lem v.input_valid in
    let bytes = content s.input_buffer in
    let emptied = record s { input_buffer = (retrieve_all_as_string s.input_buffer).1 } in
    let u = with_input-Inv s (retrieve_all_as_string s.input_buffer).1 v rest.valid in
    let frame = send_in_loop-SameFrame emptied w bytes in
    let still : (send_in_loop emptied w bytes).state ≡ connected = frame.same_state ∙ up in
    rw (ap is_connected up, got)
      (record {
        after = record {
          inv = send_in_loop-Inv emptied w bytes u room;
          empty = ap content frame.same_input ∙ rest.holds;
          undisturbed = ap is_disconnecting still;
          hushed = λ c. absurd (ground arith);
        };
        added =
            send_in_loop-stream emptied w bytes u room
            ∙ ap (λ (x : State). stream s ++ (if is_disconnected x then [] else bytes)) up;
      })

-- A step that leaves the input buffer and the stream, and does not ask for a shutdown.
quiet :
    (s t : Conn)
    → EchoInv s
    → Inv t
    → t.input_buffer ≡ s.input_buffer
    → is_disconnecting t.state ≡ false
    → is_connecting t.state ≡ false
    → stream t ≡ stream s
    → Echoes s t []
quiet s t v w i d c e = record {
  after = record {
    inv = w;
    empty = ap content i ∙ v.empty;
    undisturbed = d;
    hushed = λ h. absurd (ground arith);
  };
  added = e ∙ sym (append-nil (stream s));
}

unchanged : (s : Conn) → EchoInv s → Echoes s s []
unchanged s v = record { after = v; added = sym (append-nil (stream s)) }

handle_close-Echoes : (s : Conn) → EchoInv s → Echoes s (handle_close s) []
handle_close-Echoes s v =
    unfold handle_close in quiet s (handle_close s) v (handle_close-Inv s v.inv) refl refl refl refl

data_event :
    (s : Conn) (c : ℕ) (cs : List ℕ)
    → EchoInv s
    → HasRoom s.input_buffer (length (c ∷ cs))
    → content (handle_read s (received (c ∷ cs))).input_buffer ≡ c ∷ cs
unfolding handle_read
data_event s c cs v h =
    (read_fd_win-Holds (c ∷ cs) v.inv.input_valid h).holds ∙ ap (λ xs. xs ++ c ∷ cs) v.empty

read_event-Echoes :
    (s : Conn) (r : ReadResult) (w : WriteResult)
    → EchoInv s
    → is_reading s.channel ≡ true
    → ReadFits s r
    → EchoFits s r
    → Echoes s (read_event s r w) (bytes_of r)
unfolding read_event
read_event-Echoes s (failed e) w v up h k =
    unfold handle_read in
    elim (Bool-cases (is_fault_error e)) [
      | inl t ↦ rw t (handle_close-Echoes s v)
      | inr t ↦ rw t (unchanged s v)
    ]
read_event-Echoes s (received []) w v up h k = unfold handle_read in handle_close-Echoes s v
read_event-Echoes s (received (c ∷ cs)) w v up h k =
    let read = handle_read s (received (c ∷ cs)) in
    let got = data_event s c cs v h in
    let e =
      on_message-Echoes read w (handle_read-Inv s (received (c ∷ cs)) v.inv h)
        (only_connected s v up) (subst (λ xs. HasRoom s.output_buffer (length xs)) (sym got) k) in
    record { after = e.after; added = e.added ∙ ap (λ xs. stream s ++ xs) got }

handle_write-Echoes : (s : Conn) (r : WriteResult) → EchoInv s → Echoes s (handle_write s r) []
handle_write-Echoes s r v =
    let (input, reading) = handle_write-still s r v.inv in
    let same = handle_write-state s r in
    record {
      after = record {
        inv = handle_write-Inv s r v.inv;
        empty = ap content input ∙ v.empty;
        undisturbed = ap is_disconnecting same ∙ v.undisturbed;
        hushed = λ c. reading ∙ v.hushed (sym (ap is_connecting same) ∙ c);
      };
      added = handle_write-stream s r v.inv ∙ sym (append-nil (stream s));
    }

Step-Echoes : {s t : Conn} (st : Step s t) → EchoInv s → Echoes s t (read_bytes st)
Step-Echoes (establishes s e) v =
    unfold connect_established in
    quiet s (connect_established s) v (connect_established-Inv s v.inv e) refl refl refl refl
Step-Echoes (reads s r w l h k) v = read_event-Echoes s r w v l h k
Step-Echoes (writes s r) v = handle_write-Echoes s r v
Step-Echoes (destroys s d) v =
    quiet s (connect_destroyed s) v (connect_destroyed-Inv s v.inv)
      (unfold connect_destroyed in ground arith)
      (unfold connect_destroyed in ground (arith, v.undisturbed))
      (unfold connect_destroyed in ground arith)
      (unfold connect_destroyed in kept s (connect_destroyed s) (ground arith) (ground arith))

Reach-Echoes : {s t : Conn} (r : Reach s t) → EchoInv s → Echoes s t (all_read r)
Reach-Echoes {s} here v = unchanged s v
Reach-Echoes {s} (next r st) v =
    let before = Reach-Echoes r v in
    let step = Step-Echoes st before.after in
    record {
      after = step.after;
      added =
          step.added
          ∙ ap (λ xs. xs ++ read_bytes st) before.added
          ∙ append_assoc (stream s) (all_read r) (read_bytes st);
    }

new_conn-EchoInv : EchoInv (new_conn false false)
unfolding is_reading
new_conn-EchoInv = record {
  inv = new_conn-Inv false false;
  empty = unfold new_conn in refl;
  undisturbed = unfold new_conn in refl;
  hushed = λ c. unfold new_conn in refl;
}

-- Over any run of a connection of the echo server, the bytes on the wire and then those in the
-- output buffer are all bytes that were read, in order, and the input buffer is empty between two
-- events.
pub Reach-echoes :
    {t : Conn} (r : Reach (new_conn false false) t)
    → (t.wire ++ content t.output_buffer ≡ all_read r) × (content t.input_buffer ≡ [])
Reach-echoes r =
    let e = Reach-Echoes r new_conn-EchoInv in (unfold new_conn in e.added, e.after.empty)

-- If the connection
pub Reach-answered :
    {t : Conn} (r : Reach (new_conn false false) t) (ns : List ℕ)
    → is_disconnected t.state ≡ false
    → readable_bytes t.output_buffer ≤ length ns
    → ((write_events ns t).wire ≡ all_read r) × (content (write_events ns t).output_buffer ≡ [])
Reach-answered {t} r ns d h =
    let (drained, all, idle, same) =
      write_events-drain ns t (Reach-Echoes r new_conn-EchoInv).after.inv d h in
    (all ∙ (Reach-echoes r).0, drained)
