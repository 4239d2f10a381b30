-- ===== src/Pool/State.antt =====
-- `ClientPool` (client/src/client/pool.rs). A client is a number that tells it from the others.
use segmented_memory_storage.Common.{ℕ, List}
use segmented_memory_storage.Common.Texts.{Text}

-- `slots` are the clients in the channel, the next to be received in front, and `size` is its
-- capacity; `spawned` counts the tasks of `spawn_replacement` that have not come to their end.
pub record ClientPool : Type 0 where
  pub slots : List ℕ
  pub size : ℕ
  pub active : ℕ
  pub max_size : ℕ
  pub spawned : ℕ

-- How a call of `acquire` comes out: a client, an error, or a wait for the channel with so many
-- attempts left behind the one that waits.
pub data Acquired : Type 0 where
  client : ℕ → Acquired
  failed : Text → Acquired
  waits : ℕ → Acquired
