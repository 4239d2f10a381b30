-- ===== src/Conf.antt =====
-- The configuration of the server (server/src/conf.rs).
use segmented_memory_storage.Common.{ℕ, Bool, false, Option, none, some, List}
use segmented_memory_storage.Common.Outcome.{Outcome, ok, err, crash}
use segmented_memory_storage.Common.Texts.{Text, codes}

pub record AofConf : Type 0 where
  pub max_size : ℕ
  pub dir : Text

pub data ReplicaRole : Type 0 where
  leader follower : ReplicaRole

pub record ReplicaConf : Type 0 where
  pub is_replica : Bool
  pub role : Option ReplicaRole
  pub followers : Option (List Text)
  pub master : Option Text
  pub event_buffer_size : Option ℕ

pub record Conf : Type 0 where
  pub port : ℕ
  pub aof : AofConf
  pub lru_size : ℕ
  pub replica_conf : Option ReplicaConf

abbrev pub default_port : ℕ
default_port = 9090

abbrev pub default_lru : ℕ
default_lru = 1000000

abbrev pub default_replica : Option ReplicaConf
default_replica = some (record {
  is_replica = false;
  role = none;
  followers = none;
  master = none;
  event_buffer_size = none;
})

abbrev pub default_aof : AofConf
default_aof = record { max_size = 1000; dir = codes "aof/log.aof" }

abbrev pub default_conf : Conf
default_conf = record {
  port = default_port;
  aof = default_aof;
  lru_size = default_lru;
  replica_conf = default_replica;
}

abbrev pub unwrap_or_default : Option Conf → Conf
unwrap_or_default none = default_conf
unwrap_or_default (some conf) = conf

-- The text of `conf.json`, or why it cannot be read, and `serde_json::from_str`.
unfoldable pub load : Outcome Text Text → (Text → Option Conf) → Outcome Text Conf
load (ok conf_str) from_str = ok (unwrap_or_default (from_str conf_str))
load (err e) from_str = err e
load crash from_str = crash
