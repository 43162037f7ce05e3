-- ===== src/Http/Exchange/Owned.antt =====
-- The context of a connection of the HTTP server over the events that carry no message.
use nev.Base.{
  ℕ, ◌≡◌, refl, sym, ap, ◌∙◌, Bool, true, false, if◌then◌else◌, List, [], ◌++◌, Option, none, some,
  arith, append-nil, subst, Bool-cases, inl, inr,
}
use nev.Channel.{is_reading}
use nev.Http.Request.{Request}
use nev.Http.Response.{Response}
use nev.Http.Server.{Parser}
use nev.Http.Exchange.{Served, on_connection, with_conn, establish, destroy}
use nev.TcpConnection.{
  is_connecting, State, connecting, Conn, WriteResult, is_connected, is_disconnected,
  connect_destroyed,
}
use nev.TcpConnection.Context.{set_context}
use nev.TcpConnection.Events.{handle_write}
use nev.TcpConnection.Invariant.{
  Inv, handle_write-Inv, connect_established-Inv, connect_destroyed-Inv,
}
use nev.TcpConnection.Stream.{stream, kept, handle_write-stream}
use nev.TcpConnection.Drain.{handle_write-state, handle_write-still}

abbrev pub has_context : {C : Type 0} → Option C → Bool
has_context none = false
has_context (some c) = true

down_of : (s : State) → is_disconnected s ≡ true → is_connected s ≡ false
down_of s h = ground arith

destroyed :
    (s : Conn)
    → is_connecting s.state ≡ false
    → (is_connecting s.state ≡ false)
      × (is_connected (connect_destroyed s).state ≡ false)
      × (is_connecting (connect_destroyed s).state ≡ false)
      × (stream (connect_destroyed s) ≡ stream s)
unfolding connect_destroyed
destroyed s d = (
  ground arith,
  ground arith,
  ground arith,
  kept s (connect_destroyed s) (ground arith) (ground arith),
)

module _ {P : Type 0} (o : Parser P) (print : ℕ → List ℕ)
    (http_cb : Request → Response → Response) where
  -- Before the connection is established it has no context and hears nothing; afterwards it has one, to be cleaned up.
  abbrev pub Owned : Bool → Served P → Type 0
  Owned true h =
      (has_context h.held.context ≡ false)
      × (h.allocated ≡ 0)
      × (is_reading h.held.conn.channel ≡ false)
  Owned false h =
      (has_context h.held.context ≡ true) × (h.held.has_cleanup_cb ≡ true) × (h.allocated ≡ 1)

  pub record ServedInv (h : Served P) : Type 0 where
    pub inv : Inv h.held.conn
    pub sound : h.faulted ≡ false
    pub owned : Owned (is_connecting h.held.conn.state) h

  pub record Serves (h i : Served P) (text : List ℕ) : Type 0 where
    pub after : ServedInv i
    pub added : stream i.held.conn ≡ stream h.held.conn ++ text

  -- An established connection with the same context.
  same_context :
      (h : Served P) (t : Conn) (text : List ℕ)
      → ServedInv h
      → is_connecting h.held.conn.state ≡ false
      → Inv t
      → is_connecting t.state ≡ false
      → stream t ≡ stream h.held.conn ++ text
      → Serves h (with_conn o h t) text
  same_context h t text v b w c e = record {
    after = record { inv = w; sound = v.sound; owned = rw c (subst (λ x. Owned x h) b v.owned) };
    added = e;
  }

  pub hears_begun :
      (h : Served P)
      → ServedInv h
      → is_reading h.held.conn.channel ≡ true
      → is_connecting h.held.conn.state ≡ false
  hears_begun h v r = elim (Bool-cases (is_connecting h.held.conn.state)) [
    | inl c ↦ let w = subst (λ x. Owned x h) c v.owned in absurd (ground (arith, w.2))
    | inr c ↦ c
  ]

  on_connection_idle :
      (h : Served P) → is_connected h.held.conn.state ≡ false → on_connection o h ≡ h
  unfolding on_connection
  on_connection_idle h down = rw down refl

  pub establish-Serves :
      (h : Served P) → ServedInv h → h.held.conn.state ≡ connecting → Serves h (establish o h) []
  unfolding establish on_connection set_context
  establish-Serves h v e = record {
    after = record {
      inv = connect_established-Inv h.held.conn v.inv e;
      sound = v.sound;
      owned = (
        refl,
        refl,
        let w = subst (λ x. Owned x h) (ap is_connecting e) v.owned in omega (arith, w.1),
      );
    };
    added = sym (append-nil (stream h.held.conn));
  }

  pub still :
      (h : Served P) (t : Conn)
      → ServedInv h
      → is_connecting h.held.conn.state ≡ false
      → Inv t
      → is_connecting t.state ≡ false
      → stream t ≡ stream h.held.conn
      → Serves h (with_conn o h t) []
  still h t v b w c e = same_context h t [] v b w c (e ∙ sym (append-nil (stream h.held.conn)))

  pub destroy-Serves :
      (h : Served P)
      → ServedInv h
      → is_connecting h.held.conn.state ≡ false
      → Serves h (destroy o h) []
  unfolding destroy
  destroy-Serves h v d =
      let s = h.held.conn in
      let (begun, down, over, same) = destroyed s d in
      subst (λ i. Serves h i [])
        (sym (on_connection_idle (with_conn o h (connect_destroyed s)) down))
        (still h (connect_destroyed s) v begun (connect_destroyed-Inv s v.inv) over same)

  pub closes-Serves :
      (h : Served P) (t : Conn)
      → ServedInv h
      → is_connecting h.held.conn.state ≡ false
      → Inv t
      → is_connecting t.state ≡ false
      → stream t ≡ stream h.held.conn
      → Serves h
          (if is_disconnected t.state then on_connection o (with_conn o h t) else with_conn o h t)
          []
  closes-Serves h t v b w c e = elim (Bool-cases (is_disconnected t.state)) [
    | inl x ↦ rw x (
        subst (λ i. Serves h i []) (sym (on_connection_idle (with_conn o h t) (down_of t.state x)))
          (still h t v b w c e))
    | inr x ↦ rw x (still h t v b w c e)
  ]

  pub writes-Serves :
      (h : Served P) (r : WriteResult)
      → ServedInv h
      → Serves h (with_conn o h (handle_write h.held.conn r)) []
  writes-Serves h r v =
      let s = h.held.conn in
      let same = ap is_connecting (handle_write-state s r) in
      let w = handle_write-Inv s r v.inv in
      let e = handle_write-stream s r v.inv in
      elim (Bool-cases (is_connecting s.state)) [
        | inl c ↦
            let (none_yet, nothing, deaf) = subst (λ x. Owned x h) c v.owned in
            record {
              after = record {
                inv = w;
                sound = v.sound;
                owned = rw (same ∙ c) (none_yet, nothing, (handle_write-still s r v.inv).1 ∙ deaf);
              };
              added = e ∙ sym (append-nil (stream s));
            }
        | inr c ↦ still h (handle_write s r) v c w (same ∙ c) e
      ]
