-- ===== src/Startup/Events.antt =====
-- The events of the server's changes from the channel to the followers: the one call of `start`
-- that `main` spawns (server/src/main.rs, server/src/ha.rs).
use segmented_memory_storage.Common.{
  ℕ, ◌≡◌, Bool, true, false, none, some, Option, List, [], ◌∷◌, ◌++◌,
}
use segmented_memory_storage.Common.Texts.{Text}
use segmented_memory_storage.Aof.Entry.{AofEntry}
use segmented_memory_storage.Ha.State.{HaManager, Network}
use segmented_memory_storage.Ha

-- `event_buffer_size.unwrap_or(100)`
abbrev pub buffer_size : Option ℕ → ℕ
buffer_size none = 100
buffer_size (some size) = size

-- The events that wait in the channel, and how the task of `start` stands: it waits for an event or
-- has come to its end.
pub record Events : Type 0 where
  pub channel : List AofEntry
  pub manager : HaManager
  pub waiting : Bool

-- What is done about the events, and what else is done with the manager: a change adds an event, and
-- the task that waits takes the first; a follower registers, and gets a copy of the file; there is a
-- tick of the heartbeats. That the task keeps the lock of the manager while it waits is left out, which
-- only lets more happen here.
pub data Step (net : Network) (size : ℕ) (x : Events) : Events → Type 0 where
  sends : (e : AofEntry) → Step net size x (record x { channel = x.channel ++ e ∷ [] })
  takes :
      (e : AofEntry) (es : List AofEntry)
      → x.waiting ≡ true
      → x.channel ≡ e ∷ es
      → Step net size x (record {
        channel = es;
        manager = (Ha.Ops.start net size e x.manager).1;
        waiting = false;
      })
  registers :
      (addr : Text)
      → Step net size x (record x { manager = (Ha.Ops.register_follower net addr x.manager).1 })
  ticks :
      Step net size x
        (record x { manager = (Ha.Ops.heartbeat_each net x.manager.followers x.manager).1 })

pub data Reach (net : Network) (size : ℕ) (x : Events) : Events → Type 0 where
  here : Reach net size x x
  next : {y z : Events} → Reach net size x y → Step net size y z → Reach net size x z
