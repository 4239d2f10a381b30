-- ===== src/Ha/State.antt =====
-- `HaManager` and what it asks of the network (server/src/ha.rs).
use segmented_memory_storage.Common.{ℕ, List}
use segmented_memory_storage.Common.HashMap.{HashMap}
use segmented_memory_storage.Common.Outcome.{Outcome}
use segmented_memory_storage.Common.Texts.{Text}
use segmented_memory_storage.Aof.Entry.{AofEntry}

-- `followers` is that of `HaConf`; a count of missed heartbeats is an `u8`.
pub record HaManager : Type 0 where
  pub followers : List Text
  pub follower_timeout : HashMap ℕ
  pub uncommitted_events : List AofEntry

-- How `heartbeat_follower` and `sync_follower` end for an address, and what `get_aof_copy` reads;
-- an error is its text.
pub record Network : Type 0 where
  pub heartbeat_follower : Text → Outcome Text (Unit {0})
  pub sync_follower : Text → List AofEntry → Outcome Text (Unit {0})
  pub get_aof_copy : Outcome Text (List AofEntry)
