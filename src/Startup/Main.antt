-- ===== src/Startup/Main.antt =====
-- `main` of the server (server/src/main.rs), up to the call that serves connections.
use segmented_memory_storage.Common.{ℕ, Bool, true, false, Option, none, some, if◌then◌else◌}
use segmented_memory_storage.Common.Outcome.{Outcome, ok, err, crash}
use segmented_memory_storage.Common.Texts.{Text}
use segmented_memory_storage.Conf.{Conf, ReplicaConf, ReplicaRole, leader, follower}

-- Whether the task of `start` was spawned and that of `heartbeat_followers`, and the address that
-- is served.
pub record Running : Type 0 where
  pub replicates : Bool
  pub heartbeats : Bool
  pub addr : Text

-- The address of the server: that of the environment, or `localhost` with the port.
abbrev pub addr_of : (ℕ → Text) → Option Text → Conf → Text
addr_of localhost none conf = localhost conf.port
addr_of localhost (some addr) conf = addr

-- `register_master` is what that call comes to for the address of the master and that of the server.
module _ (register_master : Text → Text → Outcome Text (Unit {0})) (addr : Text) where
  -- `expect`
  abbrev registered : Outcome Text (Unit {0}) → Option Running
  registered (ok u) = some (record { replicates = true; heartbeats = false; addr = addr })
  registered (err e) = none
  registered crash = none

  unfoldable pub by_role : Option ReplicaRole → Text → Option Running
  by_role (some leader) master = some (record { replicates = true; heartbeats = true; addr = addr })
  by_role (some follower) master = registered (register_master master addr)
  by_role none master = some (record { replicates = true; heartbeats = false; addr = addr })

  unfoldable pub replica : ReplicaConf → Option Running
  replica c =
      if c.is_replica
      then (elim c.master [ none ↦ none | some master ↦ by_role c.role master ])
      else some (record { replicates = false; heartbeats = false; addr = addr })

  unfoldable pub with_conf : Conf → Option Running
  with_conf conf = elim conf.replica_conf [ none ↦ none | some c ↦ replica c ]

-- What is running when connections are served, or nothing after a panic.
unfoldable pub main :
    (Text → Text → Outcome Text (Unit {0}))
    → (ℕ → Text)
    → Option Text
    → Outcome Text Conf
    → Option Running
main register_master localhost server_addr (ok conf) =
    with_conf register_master (addr_of localhost server_addr conf) conf
main register_master localhost server_addr (err e) = none
main register_master localhost server_addr crash = none
