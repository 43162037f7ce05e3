-- ===== src/Channel/Laws.antt =====
-- What the event operations of a channel do to its interest and to its watcher.
use nev.Base.{ℕ, ◌≡◌, ◌==◌, ◌<◌, Bool, true, false, not, arith, ◌⊎◌, ◌||◌}
use nev.Channel.{
  set_read_callback, set_write_callback, Channel, new_channel, is_none_event, is_reading,
  is_writing, remove_channel, tie, enable_reading, disable_reading, enable_writing, disable_writing,
  disable_all,
}

-- Only the two events are set, and the watcher is started for exactly these.
pub record IsSynced (c : Channel) : Type 0 where
  pub two_events : c.events < 4
  pub same : c.watched ≡ c.events
  pub started : c.active ≡ not (is_none_event c)

-- `gone` tells whether the channel was removed since: then its watcher may be stopped although it wants events.
pub record IsWatched (gone : Bool) (c : Channel) : Type 0 where
  pub two_events : c.events < 4
  pub same : c.watched ≡ c.events
  pub started : gone ≡ false → c.active ≡ not (is_none_event c)
  pub wanted : c.active ≡ true → is_none_event c ≡ false

-- The channel with the watcher that its next update starts.
abbrev pub resumed : Channel → Channel
resumed c = record c { active = not (is_none_event c) }

pub resumed-IsSynced : (gone : Bool) (c : Channel) → IsWatched gone c → IsSynced (resumed c)
unfolding is_none_event
resumed-IsSynced gone c v = ground arith

-- What a channel wants to hear of afterwards.
pub record Wants (c : Channel) (reading writing : Bool) : Type 0 where
  pub synced : IsSynced c
  pub reads : is_reading c ≡ reading
  pub writes : is_writing c ≡ writing

pub new_channel-Wants : Wants new_channel false false
unfolding new_channel is_none_event is_reading is_writing
new_channel-Wants = ground arith

-- A new channel with both callbacks set.
pub both_callbacks-Wants : Wants (set_write_callback (set_read_callback new_channel)) false false
unfolding new_channel is_none_event is_reading is_writing
both_callbacks-Wants = ground arith

two_events_cases : (n : ℕ) → n < 4 → (n ≡ 0) ⊎ ((n ≡ 1) ⊎ ((n ≡ 2) ⊎ (n ≡ 3)))
two_events_cases n h = ground arith

zero_cases : (n : ℕ) → (n ≡ 0) ⊎ ((n == 0) ≡ false)
zero_cases n = ground arith

pub is_none_event_of_reading : (c : Channel) → is_reading c ≡ true → is_none_event c ≡ false
unfolding is_reading is_none_event
is_none_event_of_reading c h = ground (arith, zero_cases c.events)

-- Each operation changes the interest in its own event alone, and the watcher follows.
module _ (c : Channel) (s : IsSynced c) where
  pub enable_reading-Wants : Wants (enable_reading c) true (is_writing c)
  unfolding enable_reading is_reading is_writing is_none_event
  enable_reading-Wants = ground (arith, two_events_cases c.events s.two_events)

  pub disable_reading-Wants : Wants (disable_reading c) false (is_writing c)
  unfolding disable_reading is_reading is_writing is_none_event
  disable_reading-Wants = ground (arith, two_events_cases c.events s.two_events)

  pub enable_writing-Wants : Wants (enable_writing c) (is_reading c) true
  unfolding enable_writing is_reading is_writing is_none_event
  enable_writing-Wants = ground (arith, two_events_cases c.events s.two_events)

  pub disable_writing-Wants : Wants (disable_writing c) (is_reading c) false
  unfolding disable_writing is_reading is_writing is_none_event
  disable_writing-Wants = ground (arith, two_events_cases c.events s.two_events)

  pub disable_all-Wants : Wants (disable_all c) false false
  unfolding disable_all is_reading is_writing is_none_event
  disable_all-Wants = ground arith

  pub set_read_callback-Wants : Wants (set_read_callback c) (is_reading c) (is_writing c)
  unfolding is_reading is_writing is_none_event
  set_read_callback-Wants = ground arith

  pub set_write_callback-Wants : Wants (set_write_callback c) (is_reading c) (is_writing c)
  unfolding is_reading is_writing is_none_event
  set_write_callback-Wants = ground arith

  pub tie-Wants : Wants (tie c) (is_reading c) (is_writing c)
  unfolding tie is_reading is_writing is_none_event
  tie-Wants = ground arith

  -- The `DCHECK(isNoneEvent())` of `Channel::remove` holds for a channel that wants nothing.
  pub remove_channel-Wants :
      is_reading c ≡ false
      → is_writing c ≡ false
      → (is_none_event c ≡ true) × Wants (remove_channel c) false false
  unfolding remove_channel is_reading is_writing is_none_event
  remove_channel-Wants = ground (arith, two_events_cases c.events s.two_events)

  -- The watcher is started exactly while some event is wanted.
  pub active_eq : c.active ≡ (is_reading c || is_writing c)
  unfolding is_reading is_writing is_none_event
  active_eq = ground (arith, two_events_cases c.events s.two_events)

-- An update starts the watcher of a channel that was removed, too.
module _ (gone : Bool) (c : Channel) (v : IsWatched gone c) where
  pub enable_reading_anew : Wants (enable_reading c) true (is_writing c)
  unfolding enable_reading is_writing
  enable_reading_anew = enable_reading-Wants (resumed c) (resumed-IsSynced gone c v)

  pub enable_writing_anew : Wants (enable_writing c) (is_reading c) true
  unfolding enable_writing is_reading
  enable_writing_anew = enable_writing-Wants (resumed c) (resumed-IsSynced gone c v)

  pub disable_writing_anew : Wants (disable_writing c) (is_reading c) false
  unfolding disable_writing is_reading
  disable_writing_anew = disable_writing-Wants (resumed c) (resumed-IsSynced gone c v)

  pub disable_all_anew : Wants (disable_all c) false false
  unfolding disable_all
  disable_all_anew = disable_all-Wants (resumed c) (resumed-IsSynced gone c v)

  pub tied : IsWatched gone (tie c) × (is_writing (tie c) ≡ is_writing c)
  unfolding tie is_writing is_none_event
  tied = ground arith

  -- The interest stays, and the watcher is stopped.
  pub removed :
      IsWatched true (remove_channel c)
      × (is_reading (remove_channel c) ≡ is_reading c)
      × (is_writing (remove_channel c) ≡ is_writing c)
  unfolding remove_channel is_reading is_writing is_none_event
  removed = ground arith

pub Wants-IsWatched :
    (gone : Bool) (c : Channel) (reading writing : Bool)
    → Wants c reading writing
    → IsWatched gone c
Wants-IsWatched gone c reading writing w = ground arith
