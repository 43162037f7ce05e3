-- ===== src/Http/Exchange/Session.antt =====
-- The HTTP server over any run of a connection: its answers in order, and its contexts.
use nev.Base.{
  ℕ, ◌≡◌, refl, sym, ap, ◌∙◌, Bool, true, false, if◌then◌else◌, List, [], ◌∷◌, ◌++◌, length, Option,
  none, some, arith, append-nil, append_assoc, subst,
}
use nev.Buffer.{Buffer}
use nev.Buffer.Valid.{IsValid, content, HasRoom, retrieve-IsValid}
use nev.Buffer.ReadFd.{ReadResult, received, failed}
use nev.Channel.{is_reading}
use nev.Http.Request.{Request}
use nev.Http.Response.{Response}
use nev.Http.Server.{Parser, Context, parse_request, on_message}
use nev.Http.Exchange.{
  Served, new_served, with_conn, message_with, read_event, answer_with, read_answer, Step,
  establishes, reads, writes, destroys, Reach, here, next,
}
use nev.Http.Exchange.Replies.{Prints, on_message-replies, on_message_parts}
use nev.TcpConnection.{is_connecting, WriteResult, handle_close, new_conn}
use nev.TcpConnection.Context.{hold, get_context, clean_up, destroy_conn}
use nev.TcpConnection.Events.{handle_read}
use nev.TcpConnection.Invariant.{with_input-Inv, ReadFits, handle_read-Inv, new_conn-Inv}
use nev.TcpConnection.Stream.{stream, handle_read-stream}
use nev.Http.Exchange.Owned.{
  has_context, Owned, ServedInv, Serves, establish-Serves, destroy-Serves, closes-Serves,
  writes-Serves, hears_begun, still,
}

module _ {P : Type 0} (o : Parser P) (print : ℕ → List ℕ)
    (http_cb : Request → Response → Response) where
  rest-IsValid : (c : Context P) {b : Buffer} → IsValid b → IsValid (parse_request o c b).1
  unfolding parse_request
  rest-IsValid c {b} v = retrieve-IsValid _ v

  message_with-Serves :
      (context : Option (Context P)) (h : Served P) (bad good : WriteResult)
      → has_context context ≡ true
      → Prints print http_cb
      → ServedInv o print http_cb h
      → is_connecting h.held.conn.state ≡ false
      → HasRoom h.held.conn.output_buffer (length (answer_with o print http_cb context h.held.conn))
      → Serves o print http_cb h
          (message_with o print http_cb context h bad good)
          (answer_with o print http_cb context h.held.conn)
  unfolding message_with
  message_with-Serves none h bad good e prints v b room = absurd (ground arith)
  message_with-Serves (some c) h bad good e prints v b room =
      let s = h.held.conn in
      let said = on_message-replies print http_cb o c s bad good prints v.inv b room in
      let rest = (on_message_parts print http_cb o c s.input_buffer s bad good).0 in
      let (has, cleans, one) = subst (λ x. Owned o print http_cb x h) b v.owned in
      record {
        after = record {
          inv =
              with_input-Inv (on_message print http_cb o c s.input_buffer s bad good).2
                (on_message print http_cb o c s.input_buffer s bad good).1 said.inv
                (subst IsValid (sym rest) (rest-IsValid c v.inv.input_valid));
          sound = v.sound;
          owned = rw said.begun (refl, cleans, one);
        };
        added = said.added;
      }

  data-Serves :
      (h : Served P) (c : ℕ) (cs : List ℕ) (bad good : WriteResult)
      → Prints print http_cb
      → ServedInv o print http_cb h
      → is_reading h.held.conn.channel ≡ true
      → ReadFits h.held.conn (received (c ∷ cs))
      → HasRoom h.held.conn.output_buffer
          (length (read_answer o print http_cb h (received (c ∷ cs))))
      → Serves o print http_cb h
          (read_event o print http_cb h (received (c ∷ cs)) bad good)
          (read_answer o print http_cb h (received (c ∷ cs)))
  unfolding read_event get_context
  data-Serves h c cs bad good prints v l fits room =
      let s = h.held.conn in
      let b = hears_begun o print http_cb h v l in
      let read = handle_read s (received (c ∷ cs)) in
      let came =
        still o print http_cb h read v b (handle_read-Inv s (received (c ∷ cs)) v.inv fits)
          (unfold handle_read in b) (handle_read-stream s (received (c ∷ cs))) in
      let (has, cleans, one) = subst (λ x. Owned o print http_cb x h) b v.owned in
      let r =
        message_with-Serves h.held.context (with_conn o h read) bad good has prints came.after
          (unfold handle_read in b) (unfold handle_read in room) in
      record {
        after = r.after;
        added =
            r.added
            ∙ ap (λ xs. xs ++ answer_with o print http_cb h.held.context read)
                (handle_read-stream s (received (c ∷ cs)));
      }

  reads-Serves :
      (h : Served P) (r : ReadResult) (bad good : WriteResult)
      → Prints print http_cb
      → ServedInv o print http_cb h
      → is_reading h.held.conn.channel ≡ true
      → ReadFits h.held.conn r
      → HasRoom h.held.conn.output_buffer (length (read_answer o print http_cb h r))
      → Serves o print http_cb h
          (read_event o print http_cb h r bad good)
          (read_answer o print http_cb h r)
  unfolding read_event
  reads-Serves h (failed e) bad good prints v l fits room =
      let s = h.held.conn in
      let b = hears_begun o print http_cb h v l in
      closes-Serves o print http_cb h (handle_read s (failed e)) v b
        (handle_read-Inv s (failed e) v.inv fits) (unfold handle_read handle_close in ground arith)
        (handle_read-stream s (failed e))
  reads-Serves h (received []) bad good prints v l fits room =
      let s = h.held.conn in
      let b = hears_begun o print http_cb h v l in
      closes-Serves o print http_cb h (handle_read s (received [])) v b
        (handle_read-Inv s (received []) v.inv fits) (unfold handle_read handle_close in refl)
        (handle_read-stream s (received []))
  reads-Serves h (received (c ∷ cs)) bad good prints v l fits room =
      data-Serves h c cs bad good prints v l fits room

  -- What the server says in a step.
  abbrev pub step_answer : {h i : Served P} → Step o print http_cb h i → List ℕ
  step_answer (reads h r _ _ _ _ _) = read_answer o print http_cb h r
  step_answer _ = []

  abbrev pub all_answers : {h i : Served P} → Reach o print http_cb h i → List ℕ
  all_answers here = []
  all_answers (next r st) = all_answers r ++ step_answer st

  Step-Serves :
      {h i : Served P} (st : Step o print http_cb h i)
      → Prints print http_cb
      → ServedInv o print http_cb h
      → Serves o print http_cb h i (step_answer st)
  Step-Serves (establishes h e) prints v = establish-Serves o print http_cb h v e
  Step-Serves (reads h r bad good l fits room) prints v =
      reads-Serves h r bad good prints v l fits room
  Step-Serves (writes h r) prints v = writes-Serves o print http_cb h r v
  Step-Serves (destroys h d) prints v = destroy-Serves o print http_cb h v d

  Reach-Serves :
      {h i : Served P} (r : Reach o print http_cb h i)
      → Prints print http_cb
      → ServedInv o print http_cb h
      → Serves o print http_cb h i (all_answers r)
  Reach-Serves {h} here prints v = record {
    after = v;
    added = sym (append-nil (stream h.held.conn));
  }
  Reach-Serves {h} (next r st) prints v =
      let before = Reach-Serves r prints v in
      let step = Step-Serves st prints before.after in
      record {
        after = step.after;
        added =
            step.added
            ∙ ap (λ xs. xs ++ step_answer st) before.added
            ∙ append_assoc (stream h.held.conn) (all_answers r) (step_answer st);
      }

  new_served-Inv : ServedInv o print http_cb (new_served o)
  unfolding new_served hold new_conn is_reading
  new_served-Inv = record {
    inv = new_conn-Inv false false;
    sound = refl;
    owned = (refl, refl, refl);
  }

  -- Every context that was allocated is passed to the cleanup.
  cleaned_all :
      (connecting : Bool) (t : Served P)
      → Owned o print http_cb connecting t
      → (length (destroy_conn t.held) ≡ t.allocated) × (t.allocated ≡ (if connecting then 0 else 1))
  unfolding destroy_conn clean_up
  cleaned_all true t v = ground arith
  cleaned_all false t v = ground arith

  cleaned :
      (t : Served P)
      → ServedInv o print http_cb t
      → (t.faulted ≡ false)
        × (length (destroy_conn t.held) ≡ t.allocated)
        × (t.allocated ≡ (if is_connecting t.held.conn.state then 0 else 1))
  cleaned t v =
      let (all, one) = cleaned_all (is_connecting t.held.conn.state) t v.owned in
      (v.sound, all, one)

  -- If every response can be laid out, then over any run of a connection of the HTTP server the
  -- bytes on the wire and then those in the output buffer are all answers of the server, in
  -- order: the refusal of a bad request, the response to a finished one, and nothing else.
  pub Reach-answers :
      {t : Served P} (r : Reach o print http_cb (new_served o) t)
      → Prints print http_cb
      → t.held.conn.wire ++ content t.held.conn.output_buffer ≡ all_answers r
  unfolding new_served hold new_conn
  Reach-answers r prints = (Reach-Serves r prints new_served-Inv).added

  -- If every response can be laid out, then over any run of a connection of the HTTP server no
  -- message meets a null context, a context was allocated exactly if the connection was
  -- established, and the destructor cleans up as many as were allocated.
  pub Reach-contexts :
      {t : Served P}
      → Reach o print http_cb (new_served o) t
      → Prints print http_cb
      → (t.faulted ≡ false)
        × (length (destroy_conn t.held) ≡ t.allocated)
        × (t.allocated ≡ (if is_connecting t.held.conn.state then 0 else 1))
  Reach-contexts {t} r prints = cleaned t (Reach-Serves r prints new_served-Inv).after
