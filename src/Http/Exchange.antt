-- ===== src/Http/Exchange.antt =====
-- src/nev/http/http_server.cc: the class `HttpServer` at work on a connection of its `TcpServer`, with the context
-- that the connection carries.
pub mod Replies
pub mod Owned
pub mod Session
mod Tests
use nev.Base.{
  ℕ, ◌≡◌, ◌+◌, not, length, Bool, true, false, ◌||◌, if◌then◌else◌, List, [], ◌∷◌, Option, none,
  some,
}
use nev.Buffer.ReadFd.{ReadResult, received, failed}
use nev.Buffer.Valid.{HasRoom}
use nev.Channel.{is_reading}
use nev.Http.Request.{Request}
use nev.Http.Response.{Response}
use nev.Http.Server.{Parser, Context, new_context, parse_request, got_all, on_message}
use nev.Http.Server.Answers.{rejection, response_of}
use nev.Http.Layout.{response_text}
use nev.TcpConnection.{
  is_connecting, connecting, Conn, WriteResult, is_connected, is_disconnected, connect_established,
  connect_destroyed, new_conn,
}
use nev.TcpConnection.Context.{Held, hold, set_context, get_context}
use nev.TcpConnection.Events.{handle_read, handle_write}
use nev.TcpConnection.Invariant.{ReadFits}

-- A held connection, the contexts that were allocated for it, and whether a null pointer was used as a context.
pub record Served (P : Type 0) : Type 0 where
  pub held : Held (Context P)
  pub allocated : ℕ
  pub faulted : Bool

-- What the server says to a message, by whether the connection is up, whether the message could be
-- parsed and whether the request is finished: nothing behind a `shutdown`, and nothing before the end of the
-- request.
abbrev pub reply : Bool → Bool → Bool → List ℕ → List ℕ
reply true false got text = rejection
reply true true true text = text
reply _ _ _ text = []

module _ {P : Type 0} (o : Parser P) where
  unfoldable pub new_served : Served P
  unfolding hold new_conn
  new_served = record { held = hold (new_conn false false); allocated = 0; faulted = false }

  -- `onConnection`, called for a new connection and for one that was closed.
  unfoldable pub on_connection : Served P → Served P
  unfolding set_context new_context
  on_connection h =
      if is_connected h.held.conn.state
      then record h { held = set_context (new_context o) true h.held; allocated = h.allocated + 1 }
      else h

  -- The connection behind an event that does not touch its context.
  abbrev pub with_conn : Served P → Conn → Served P
  with_conn h s = record h { held = record h.held { conn = s } }

  unfoldable pub establish : Served P → Served P
  unfolding connect_established on_connection
  establish h = on_connection (with_conn h (connect_established h.held.conn))

  unfoldable pub destroy : Served P → Served P
  unfolding connect_destroyed on_connection
  destroy h = on_connection (with_conn h (connect_destroyed h.held.conn))

  module _ (print : ℕ → List ℕ) (http_cb : Request → Response → Response) where
    -- `onMessage` with the pointer that `getContext` returns and the connection's input buffer.
    unfoldable pub message_with :
        Option (Context P) → Served P → WriteResult → WriteResult → Served P
    unfolding on_message
    message_with none h bad good = record h { faulted = true }
    message_with (some c) h bad good =
        let (context, rest, conn) =
          on_message print http_cb o c h.held.conn.input_buffer h.held.conn bad good in
        record h {
          held = record h.held {
            context = some context;
            conn = record conn { input_buffer = rest };
          };
        }

    -- `handleRead`, whose callbacks are the server's; `handleClose` tells `onConnection`.
    unfoldable pub read_event : Served P → ReadResult → WriteResult → WriteResult → Served P
    unfolding handle_read message_with get_context on_connection
    read_event h (received (c ∷ cs)) bad good =
        let read = with_conn h (handle_read h.held.conn (received (c ∷ cs))) in
        message_with (get_context read.held) read bad good
    read_event h r bad good =
        let read = with_conn h (handle_read h.held.conn r) in
        if is_disconnected read.held.conn.state then on_connection read else read

    -- The answer to a message.
    abbrev pub answer : Context P → Conn → List ℕ
    answer c s =
        let (context, rest, ok) = parse_request o c s.input_buffer in
        reply (is_connected s.state) ok (got_all o context)
          (response_text print (response_of print http_cb context.request))

    abbrev pub answer_with : Option (Context P) → Conn → List ℕ
    answer_with none s = []
    answer_with (some c) s = answer c s

    -- The answer to what is read.
    abbrev pub read_answer : Served P → ReadResult → List ℕ
    read_answer h (received (c ∷ cs)) =
        answer_with h.held.context (handle_read h.held.conn (received (c ∷ cs)))
    read_answer h r = []

    -- What can happen to a connection of the server, with memory for what is read and for the answer.
    pub data Step : Served P → Served P → Type 0 where
      establishes : (h : Served P) → h.held.conn.state ≡ connecting → Step h (establish h)
      reads :
          (h : Served P) (r : ReadResult) (bad good : WriteResult)
          → is_reading h.held.conn.channel ≡ true
          → ReadFits h.held.conn r
          → HasRoom h.held.conn.output_buffer (length (read_answer h r))
          → Step h (read_event h r bad good)
      writes :
          (h : Served P) (result : WriteResult)
          → Step h (with_conn h (handle_write h.held.conn result))
      destroys : (h : Served P) → is_connecting h.held.conn.state ≡ false → Step h (destroy h)

    pub data Reach (h : Served P) : Served P → Type 0 where
      here : Reach h h
      next : {i j : Served P} → Reach h i → Step i j → Reach h j
