-- ===== src/Connector/Sockets.antt =====
-- No descriptor of a connector is lost or closed twice, and a connector connects at most once.
use nev.Base.{
  ℕ, ◌≡◌, refl, ap, ◌∙◌, Bool, true, false, not, ◌||◌, if◌then◌else◌, ◌==◌, List, [], ◌∷◌, ◌++◌,
  some, arith,
}
use nev.Channel.{Channel, is_writing, disable_all, remove_channel}
use nev.Connector.{
  Connector, Functor, start_in_loop_functor, reset_channel_functor, new_connector,
  set_new_connection_callback, start_connecting, connect, start_in_loop, start, stop,
  remove_and_reset_channel, reset_channel, attempt_done, is_connecting, is_disconnected,
  handle_write, run_functor,
}
use nev.Connector.Laws.{
  count, waits, wants, has_reset, Step, starts, stops, sets_callback, writes, starts_queued, resets,
  Reach, here, next, Inv, new_connector-Inv, has_reset-append, not_wanted, connect-Inv,
}

start_in_loop-Inv :
    (s : Connector) (sockfd saved_errno : ℕ)
    → Inv s
    → is_disconnected s.state ≡ true
    → Inv (start_in_loop sockfd saved_errno s)
unfolding start_in_loop
start_in_loop-Inv s sockfd saved_errno v d = ground (arith, connect-Inv s sockfd saved_errno v d)

-- Changes of the flag and of the queue.
kept :
    (s : Connector) (flag : Bool) (fs : List Functor)
    → Inv s
    → (has_reset fs ≡ true → has_reset s.pending ≡ true)
    → Inv (record s { connect_flag = flag; pending = fs })
kept s flag fs v h = record {
  owned = v.owned;
  waiting = v.waiting;
  clean = v.clean;
  resetting = λ r. v.resetting (h r);
}

no_reset :
    (fs : List Functor) → has_reset (fs ++ start_in_loop_functor ∷ []) ≡ true → has_reset fs ≡ true
unfolding has_reset
no_reset fs h = ground (arith, has_reset-append fs (start_in_loop_functor ∷ []))

start-Inv :
    (s : Connector) (in_loop : Bool) (sockfd saved_errno : ℕ)
    → Inv s
    → (not in_loop || is_disconnected s.state) ≡ true
    → Inv (start in_loop sockfd saved_errno s)
unfolding start
start-Inv s true sockfd saved_errno v d =
    start_in_loop-Inv (record s { connect_flag = true }) sockfd saved_errno
      (kept s true s.pending v (λ h. h)) d
start-Inv s false sockfd saved_errno v d =
    kept s true (s.pending ++ start_in_loop_functor ∷ []) v (λ h. no_reset s.pending h)

-- The channel behind `removeAndResetChannel` is silent.
silent : (c : Channel) → is_writing (remove_channel (disable_all c)) ≡ false
unfolding is_writing remove_channel disable_all
silent c = refl

waited :
    (fd sockfd : ℕ) (c : Channel)
    → is_writing c ≡ true
    → waits fd (some (sockfd, c)) ≡ (if sockfd == fd then 1 else 0)
unfolding waits
waited fd sockfd c h = rw h refl

attempt_done-Inv :
    (s : Connector) (err sockfd : ℕ) (c : Channel)
    → Inv s
    → s.channel ≡ some (sockfd, c)
    → is_writing c ≡ true
    → is_connecting s.state ≡ true
    → Inv (attempt_done sockfd err (remove_and_reset_channel sockfd c s)).0
unfolding attempt_done remove_and_reset_channel
attempt_done-Inv s err sockfd c v e w k = record {
  owned = λ fd.
      unfold count waits is_writing remove_channel disable_all in
      ground (arith, v.owned fd, ap (waits fd) e ∙ waited fd sockfd c w);
  waiting = unfold wants is_writing remove_channel disable_all in ground arith;
  clean = ground arith;
  resetting = unfold wants is_writing remove_channel disable_all in ground arith;
}

handle_write-Inv :
    (s : Connector) (err sockfd : ℕ) (c : Channel)
    → Inv s
    → s.channel ≡ some (sockfd, c)
    → is_writing c ≡ true
    → Inv (handle_write err sockfd c s).0
unfolding handle_write
handle_write-Inv s err sockfd c v e w =
    let k = v.waiting (ap wants e ∙ (unfold wants in w)) in
    rw k (attempt_done-Inv s err sockfd c v e w k)

reset_channel-Inv :
    (s : Connector) (rest : List Functor)
    → Inv s
    → s.pending ≡ reset_channel_functor ∷ rest
    → Inv (reset_channel (record s { pending = rest }))
unfolding reset_channel
reset_channel-Inv s rest v e =
    let r = v.resetting (ap has_reset e ∙ (unfold has_reset in refl)) in
    record {
      owned = λ fd. unfold waits in omega (arith, v.owned fd, not_wanted fd s.channel r.0);
      waiting = unfold wants in ground arith;
      clean = λ d. refl;
      resetting = λ h. (unfold wants in refl, r.1);
    }

Step-Inv : {s t : Connector} → Step s t → Inv s → Inv t
Step-Inv (starts s in_loop sockfd saved_errno d) v = start-Inv s in_loop sockfd saved_errno v d
Step-Inv (stops s) v = unfold stop in kept s false s.pending v (λ h. h)
Step-Inv (sets_callback s has_cb) v = unfold set_new_connection_callback in ground arith
Step-Inv (writes s err sockfd c e w) v = handle_write-Inv s err sockfd c v e w
Step-Inv (starts_queued s sockfd saved_errno rest e d) v =
    unfold run_functor in
    start_in_loop-Inv (record s { pending = rest }) sockfd saved_errno
      (kept s s.connect_flag rest v (λ h. ap has_reset e ∙ (unfold has_reset in h))) d
Step-Inv (resets s rest e) v = unfold run_functor in reset_channel-Inv s rest v e

Reach-Inv : {s t : Connector} → Reach s t → Inv s → Inv t
Reach-Inv here v = v
Reach-Inv (next r st) v = Step-Inv st (Reach-Inv r v)

-- Over any run of a new connector in which an attempt starts only while it is disconnected, each
-- descriptor that was created was closed once, or was handed over once, or waits for its
-- connection, and there is no channel whenever an attempt may start.
pub Reach-new_connector-Inv :
    (garbage : Bool) {t : Connector} → Reach (new_connector garbage) t → Inv t
Reach-new_connector-Inv garbage r = Reach-Inv r (new_connector-Inv garbage)

left_for_good :
    {s t : Connector} → Step s t → is_disconnected s.state ≡ false → is_disconnected t.state ≡ false
unfolding stop run_functor reset_channel
left_for_good (starts s in_loop sockfd saved_errno d) h =
    unfold start start_in_loop connect start_connecting in ground arith
left_for_good (stops s) h = h
left_for_good (sets_callback s has_cb) h = unfold set_new_connection_callback in h
left_for_good (writes s err sockfd c e w) h =
    unfold handle_write attempt_done remove_and_reset_channel in ground arith
left_for_good (starts_queued s sockfd saved_errno rest e d) h = ground arith
left_for_good (resets s rest e) h = h

-- A connector that is not disconnected is not disconnected in any state that it reaches: the
-- state that startInLoop requires for another attempt does not return.
pub Reach-never_disconnected :
    {s t : Connector}
    → Reach s t
    → is_disconnected s.state ≡ false
    → is_disconnected t.state ≡ false
Reach-never_disconnected here h = h
Reach-never_disconnected (next r st) h = left_for_good st (Reach-never_disconnected r h)
