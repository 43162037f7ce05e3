-- ===== src/Connector/Laws.antt =====
-- What becomes of the descriptors of a connector, and its states.
use nev.Base.{
  ℕ, suc, ◌+◌, ◌≡◌, refl, Bool, true, false, not, ◌||◌, ◌&&◌, if◌then◌else◌, ◌==◌, List, [], ◌∷◌,
  ◌++◌, Option, some, none, arith,
}
use nev.Channel.{set_write_callback, Channel, is_writing, enable_writing, new_channel}
use nev.Connector.{
  Connector, Functor, start_in_loop_functor, reset_channel_functor, new_connector,
  set_new_connection_callback, start_connecting, connect, start, stop, is_connecting,
  is_disconnected, handle_write, run_functor,
}

-- How often a descriptor occurs.
unfoldable pub count : ℕ → List ℕ → ℕ
count fd [] = 0
count fd (x ∷ xs) = if x == fd then suc (count fd xs) else count fd xs

-- Whether a descriptor waits for its connection.
unfoldable pub waits : ℕ → Option (ℕ × Channel) → ℕ
unfolding is_writing
waits fd none = 0
waits fd (some (x, c)) = if is_writing c && x == fd then 1 else 0

-- The loop starts an attempt only in the state that `DCHECK` asks for, and a channel that wants to write
-- calls `handleWrite`.
pub data Step : Connector → Connector → Type 0 where
  starts :
      (s : Connector) (in_loop : Bool) (sockfd saved_errno : ℕ)
      → (not in_loop || is_disconnected s.state) ≡ true
      → Step s (start in_loop sockfd saved_errno s)
  stops : (s : Connector) → Step s (stop s)
  sets_callback : (s : Connector) (has_cb : Bool) → Step s (set_new_connection_callback has_cb s)
  writes :
      (s : Connector) (err sockfd : ℕ) (c : Channel)
      → s.channel ≡ some (sockfd, c)
      → is_writing c ≡ true
      → Step s (handle_write err sockfd c s).0
  starts_queued :
      (s : Connector) (sockfd saved_errno : ℕ) (rest : List Functor)
      → s.pending ≡ start_in_loop_functor ∷ rest
      → is_disconnected s.state ≡ true
      → Step s (run_functor sockfd saved_errno start_in_loop_functor (record s { pending = rest }))
  resets :
      (s : Connector) (rest : List Functor)
      → s.pending ≡ reset_channel_functor ∷ rest
      → Step s (run_functor 0 0 reset_channel_functor (record s { pending = rest }))

pub data Reach (s : Connector) : Connector → Type 0 where
  here : Reach s s
  next : {t u : Connector} → Reach s t → Step t u → Reach s u

-- Whether the channel waits for its connection, whether there is one, and whether its reset is queued.
unfoldable pub wants : Option (ℕ × Channel) → Bool
unfolding is_writing
wants none = false
wants (some (x, c)) = is_writing c

abbrev pub has_channel : Option (ℕ × Channel) → Bool
has_channel none = false
has_channel (some x) = true

unfoldable pub has_reset : List Functor → Bool
has_reset [] = false
has_reset (start_in_loop_functor ∷ fs) = has_reset fs
has_reset (reset_channel_functor ∷ fs) = true

-- `owned`: every descriptor that was created was closed once, was handed over once, or is waiting.
-- `clean`: no channel is there when an attempt starts.
pub record Inv (s : Connector) : Type 0 where
  pub owned :
      (fd : ℕ) → count fd s.opened ≡ count fd s.closed + count fd s.handed + waits fd s.channel
  pub waiting : wants s.channel ≡ true → is_connecting s.state ≡ true
  pub clean : is_disconnected s.state ≡ true → has_channel s.channel ≡ false
  pub resetting :
      has_reset s.pending ≡ true → (wants s.channel ≡ false) × (is_disconnected s.state ≡ false)

pub new_connector-Inv : (garbage : Bool) → Inv (new_connector garbage)
unfolding new_connector count waits wants has_reset
new_connector-Inv garbage = record {
  owned = λ fd. omega arith;
  waiting = λ h. ground arith;
  clean = λ h. refl;
  resetting = λ h. ground arith;
}

pub has_reset-append :
    (fs gs : List Functor) → has_reset (fs ++ gs) ≡ (has_reset fs || has_reset gs)
unfolding has_reset
has_reset-append [] gs = refl
has_reset-append (start_in_loop_functor ∷ fs) gs = has_reset-append fs gs
has_reset-append (reset_channel_functor ∷ fs) gs = refl

waits_new :
    (fd x : ℕ)
    → waits fd (some (x, enable_writing (set_write_callback new_channel)))
      ≡ (if x == fd then 1 else 0)
unfolding waits is_writing enable_writing new_channel
waits_new fd x = refl

pub waits_nothing : (fd : ℕ) (ch : Option (ℕ × Channel)) → has_channel ch ≡ false → waits fd ch ≡ 0
unfolding waits
waits_nothing fd none h = refl
waits_nothing fd (some x) h = ground arith

pub not_wanted : (fd : ℕ) (ch : Option (ℕ × Channel)) → wants ch ≡ false → waits fd ch ≡ 0
unfolding waits wants
not_wanted fd none h = refl
not_wanted fd (some (x, c)) h = rw h refl

pub connect-Inv :
    (s : Connector) (sockfd saved_errno : ℕ)
    → Inv s
    → is_disconnected s.state ≡ true
    → Inv (connect sockfd saved_errno s)
unfolding connect start_connecting count
connect-Inv s sockfd saved_errno v d = record {
  owned = λ fd. ground (arith, v.owned fd, waits_new fd sockfd, waits_nothing fd s.channel);
  waiting = ground (arith, v.waiting);
  clean = ground (arith, v.clean);
  resetting = ground (arith, v.resetting);
}
