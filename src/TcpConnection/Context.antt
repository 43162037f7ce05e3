-- ===== src/TcpConnection/Context.antt =====
-- include/nev/tcp_connection.h: the context of a connection, `setContext`, `getContext` and what the destructor
-- does with it. A context of type `C` stands for the pointer to it, `none` for a null pointer.
use nev.Base.{Bool, true, false, List, [], ◌∷◌, Option, none, some}
use nev.TcpConnection.{Conn}

pub record Held (C : Type 0) : Type 0 where
  pub conn : Conn
  pub context : Option C
  pub has_cleanup_cb : Bool

unfoldable pub hold : {C : Type 0} → Conn → Held C
hold s = record { conn = s; context = none; has_cleanup_cb = false }

unfoldable pub set_context : {C : Type 0} → C → Bool → Held C → Held C
set_context c has_cb h = record h { context = some c; has_cleanup_cb = has_cb }

unfoldable pub get_context : {C : Type 0} → Held C → Option C
get_context h = h.context

-- The contexts that the destructor passes to the cleanup callback.
unfoldable pub clean_up : {C : Type 0} → Option C → Bool → List C
clean_up (some c) true = c ∷ []
clean_up _ _ = []

unfoldable pub destroy_conn : {C : Type 0} → Held C → List C
unfolding clean_up
destroy_conn h = clean_up h.context h.has_cleanup_cb
