-- ===== src/TcpConnection/Stream.antt =====
-- The outgoing byte stream: what the kernel took, and then what still waits in the output buffer.
use nev.Base.{
  ℕ, zero, suc, ◌≡◌, refl, sym, ap, ap₂, ◌∙◌, true, not, ◌&&◌, if◌then◌else◌, ltb, ◌==◌, List, [],
  ◌∷◌, ◌++◌, length, take, drop, arith, Bool-cases, inl, inr, append-nil, append_assoc, ==_iff,
  take-append-drop, length-drop,
}
use nev.Buffer.{Buffer, readable_bytes, append, retrieve, to_string_piece}
use nev.Buffer.Valid.{IsValid, content, HasRoom}
use nev.Buffer.Queue.{append-Holds, retrieve-Holds, readable-content, to_string_piece_lem}
use nev.Buffer.ReadFd.{ReadResult, received, failed}
use nev.Channel.{is_writing}
use nev.TcpConnection.{
  Conn, WriteResult, wrote, write_failed, write_complete_functor, is_disconnected, buffer_remaining,
  write_directly, send_in_loop, shutdown_in_loop, handle_close, queue_in_loop,
}
use nev.TcpConnection.Events.{handle_read, drained, after_write, handle_write}
use nev.TcpConnection.Invariant.{Inv}

abbrev pub stream : Conn → List ℕ
stream s = s.wire ++ content s.output_buffer

pub kept : (s t : Conn) → t.wire ≡ s.wire → t.output_buffer ≡ s.output_buffer → stream t ≡ stream s
kept s t w o = ap₂ (λ x (b : Buffer). x ++ content b) w o

buffered :
    (s : Conn) (c : ℕ) (cs : List ℕ)
    → ((buffer_remaining s (c ∷ cs)).output_buffer ≡ append s.output_buffer (c ∷ cs))
      × ((buffer_remaining s (c ∷ cs)).wire ≡ s.wire)
unfolding buffer_remaining
buffered s c cs = ground arith

buffer_remaining-stream :
    (s : Conn) (bytes : List ℕ)
    → IsValid s.output_buffer
    → HasRoom s.output_buffer (length bytes)
    → stream (buffer_remaining s bytes) ≡ stream s ++ bytes
buffer_remaining-stream s [] v h = unfold buffer_remaining in sym (append-nil (stream s))
buffer_remaining-stream s (c ∷ cs) v h =
    let (o, w) = buffered s c cs in
    ap₂ (λ x (b : Buffer). x ++ content b) w o
    ∙ ap (◌++◌ s.wire) (append-Holds (c ∷ cs) v h).holds
    ∙ sym (append_assoc s.wire (content s.output_buffer) (c ∷ cs))

rejoin :
    (w c bytes : List ℕ) (n : ℕ)
    → c ≡ []
    → ((w ++ take n bytes) ++ c) ++ drop n bytes ≡ (w ++ c) ++ bytes
rejoin w c bytes n e =
    rw e (simp (append-nil, append_assoc) (ap (◌++◌ w) (take-append-drop n bytes)))

-- A direct write takes a prefix, and the rest is buffered.
write_directly-stream :
    (s : Conn) (r : WriteResult) (bytes : List ℕ)
    → IsValid s.output_buffer
    → HasRoom s.output_buffer (length bytes)
    → content s.output_buffer ≡ []
    → stream (write_directly s r bytes) ≡ stream s ++ bytes
unfolding write_directly
write_directly-stream s (write_failed e) bytes v h empty = buffer_remaining-stream s bytes v h
write_directly-stream s (wrote n) bytes v h empty =
    elim (Bool-cases (not (ltb n (length bytes)) && s.has_write_complete_cb)) [
      | inl t ↦
          rw t
            (buffer_remaining-stream (queue_in_loop sent write_complete_functor) rest v room ∙ same)
      | inr t ↦ rw t (buffer_remaining-stream sent rest v room ∙ same)
    ]
  where
    sent : Conn
    sent = record s { wire = s.wire ++ take n bytes }

    rest : List ℕ
    rest = drop n bytes

    room : HasRoom s.output_buffer (length rest)
    room = omega (arith, length-drop n bytes, h)

    same : stream sent ++ rest ≡ stream s ++ bytes
    same = rejoin s.wire (content s.output_buffer) bytes n empty

nil_of_length : (xs : List ℕ) → length xs ≡ 0 → xs ≡ []
nil_of_length [] h = refl
nil_of_length (x ∷ xs) h = absurd (omega arith)

pub nil_of_readable : {b : Buffer} → IsValid b → (readable_bytes b == 0) ≡ true → content b ≡ []
nil_of_readable {b} v t =
    nil_of_length (content b) (omega (arith, readable-content v, (==_iff (readable_bytes b) 0).0 t))

-- `sendInLoop` adds the bytes to the stream once, whatever the kernel takes, if the connection is up.
pub send_in_loop-stream :
    (s : Conn) (r : WriteResult) (bytes : List ℕ)
    → Inv s
    → HasRoom s.output_buffer (length bytes)
    → stream (send_in_loop s r bytes) ≡ stream s ++ (if is_disconnected s.state then [] else bytes)
unfolding send_in_loop
send_in_loop-stream s r bytes v h = elim (Bool-cases (is_disconnected s.state)) [
  | inl gone ↦ rw gone (sym (append-nil (stream s)))
  | inr d ↦ rw d (elim (Bool-cases (not (is_writing s.channel))) [
    | inl idle ↦ rw idle (elim (Bool-cases (readable_bytes s.output_buffer == 0)) [
      | inl t ↦
          rw t (write_directly-stream s r bytes v.output_valid h (nil_of_readable v.output_valid t))
      | inr t ↦ rw t (buffer_remaining-stream s bytes v.output_valid h)
    ])
    | inr busy ↦ rw busy (buffer_remaining-stream s bytes v.output_valid h)
  ])
]

drained-stream : (s : Conn) → stream (drained s) ≡ stream s
drained-stream s =
    kept s (drained s) (unfold drained shutdown_in_loop in ground arith)
      (unfold drained shutdown_in_loop in ground arith)

after_write-stream : (s : Conn) (n : ℕ) → Inv s → stream (after_write s n) ≡ stream s
unfolding after_write
after_write-stream s n v = elim (Bool-cases (readable_bytes (retrieve s.output_buffer n) == 0)) [
  | inl t ↦ rw t (drained-stream sent ∙ same)
  | inr t ↦ rw t same
]
  where
    sent : Conn
    sent = record s {
      wire = s.wire ++ take n (to_string_piece s.output_buffer);
      output_buffer = retrieve s.output_buffer n;
    }

    same : stream sent ≡ stream s
    same =
        ap₂ (λ x y. (s.wire ++ take n x) ++ y) (to_string_piece_lem v.output_valid)
          (retrieve-Holds n v.output_valid).holds
        ∙ append_assoc s.wire (take n (content s.output_buffer)) (drop n (content s.output_buffer))
        ∙ ap (◌++◌ s.wire) (take-append-drop n (content s.output_buffer))

-- `handleWrite` moves a prefix of the output buffer to the wire, and changes nothing else of the stream.
pub handle_write-stream :
    (s : Conn) (r : WriteResult) → Inv s → stream (handle_write s r) ≡ stream s
unfolding handle_write
handle_write-stream s (write_failed e) v = refl
handle_write-stream s (wrote zero) v = refl
handle_write-stream s (wrote (suc n)) v = elim (Bool-cases (is_writing s.channel)) [
  | inl w ↦ rw w (after_write-stream s (suc n) v)
  | inr w ↦ rw w
]

pub handle_read-stream : (s : Conn) (r : ReadResult) → stream (handle_read s r) ≡ stream s
unfolding handle_read handle_close
handle_read-stream s (failed e) = kept s (handle_read s (failed e)) (ground arith) (ground arith)
handle_read-stream s (received []) = refl
handle_read-stream s (received (c ∷ cs)) = refl
