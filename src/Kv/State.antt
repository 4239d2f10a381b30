-- ===== src/Kv/State.antt =====
-- `KvStore`, its databases and their entries (server/src/db/kv.rs).
use segmented_memory_storage.Common.{ℕ, List}
use segmented_memory_storage.Common.HashMap.{HashMap}
use segmented_memory_storage.Common.Texts.{Text}

-- `ttl` and `last_used` are the 64 bits of an `i64`.
pub record DbEntry : Type 0 where
  pub val : List ℕ
  pub ttl : ℕ
  pub used_count : ℕ
  pub last_used : ℕ

pub record Db : Type 0 where
  pub id : Text
  pub entries : HashMap DbEntry

pub record KvStore : Type 0 where
  pub dbs : HashMap Db

-- The two messages: a key that is not there, and a database that is.
pub data KvError : Type 0 where
  not_found : Text → KvError
  already_exists : Text → KvError
