-- ===== src/Channel/Run.antt =====
-- A sequence of event operations on a new channel, against the two interests alone.
use nev.Base.{◌≡◌, ◌∙◌, ap₂, Bool, true, false, arith, List, [], ◌∷◌, ◌||◌}
use nev.Channel.{
  Channel, new_channel, is_reading, is_writing, tie, enable_reading, disable_reading,
  enable_writing, disable_writing, disable_all,
}
use nev.Channel.Laws.{
  Wants, new_channel-Wants, enable_reading-Wants, disable_reading-Wants, enable_writing-Wants,
  disable_writing-Wants, disable_all-Wants, tie-Wants, active_eq,
}

pub data Op : Type 0 where
  tie_owner reading_on reading_off writing_on writing_off all_off : Op

unfoldable pub apply : Channel → Op → Channel
apply c tie_owner = tie c
apply c reading_on = enable_reading c
apply c reading_off = disable_reading c
apply c writing_on = enable_writing c
apply c writing_off = disable_writing c
apply c all_off = disable_all c

-- The interests in reading and in writing.
abbrev pub spec : Bool × Bool → Op → Bool × Bool
spec p tie_owner = p
spec p reading_on = (true, p.1)
spec p reading_off = (false, p.1)
spec p writing_on = (p.0, true)
spec p writing_off = (p.0, false)
spec p all_off = (false, false)

unfoldable pub run : Channel → List Op → Channel
unfolding apply
run c [] = c
run c (op ∷ ops) = run (apply c op) ops

abbrev pub run_spec : Bool × Bool → List Op → Bool × Bool
run_spec p [] = p
run_spec p (op ∷ ops) = run_spec (spec p op) ops

apply-Wants :
    (c : Channel) (p : Bool × Bool) (op : Op)
    → Wants c p.0 p.1
    → Wants (apply c op) (spec p op).0 (spec p op).1
unfolding apply
apply-Wants c p tie_owner h = ground (arith, tie-Wants c h.synced)
apply-Wants c p reading_on h = ground (arith, enable_reading-Wants c h.synced)
apply-Wants c p reading_off h = ground (arith, disable_reading-Wants c h.synced)
apply-Wants c p writing_on h = ground (arith, enable_writing-Wants c h.synced)
apply-Wants c p writing_off h = ground (arith, disable_writing-Wants c h.synced)
apply-Wants c p all_off h = disable_all-Wants c h.synced

run-Wants :
    (c : Channel) (p : Bool × Bool) (ops : List Op)
    → Wants c p.0 p.1
    → Wants (run c ops) (run_spec p ops).0 (run_spec p ops).1
unfolding run
run-Wants c p [] h = h
run-Wants c p (op ∷ ops) h = run-Wants (apply c op) (spec p op) ops (apply-Wants c p op h)

-- After any sequence of event operations a new channel has exactly the interests that these ask
-- for, and its watcher is started, with the same events, exactly while one of them is set.
pub run-follows :
    (ops : List Op)
    → let c = run new_channel ops in
      let wanted = run_spec (false, false) ops in
      (is_reading c ≡ wanted.0)
      × (is_writing c ≡ wanted.1)
      × (c.watched ≡ c.events)
      × (c.active ≡ (wanted.0 || wanted.1))
run-follows ops =
    let h = run-Wants new_channel (false, false) ops new_channel-Wants in
    (
      h.reads,
      h.writes,
      h.synced.same,
      active_eq (run new_channel ops) h.synced ∙ ap₂ ◌||◌ h.reads h.writes,
    )
