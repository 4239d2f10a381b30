-- ===== src/Startup/Examples.antt =====
-- A server whose first change waits for a second (server/src/main.rs, server/src/ha.rs).
use segmented_memory_storage.Common.{◌≡◌, refl, true, false, none, some, [], ◌∷◌}
use segmented_memory_storage.Common.Outcome.{ok}
use segmented_memory_storage.Common.Texts.{codes}
use segmented_memory_storage.Conf.{Conf, leader, default_conf, default_aof, load}
use segmented_memory_storage.Aof.Entry.{AofEntry, kv_flush}
use segmented_memory_storage.Ha.State.{Network}
use segmented_memory_storage.Ha
use segmented_memory_storage.Startup.Main.{main, with_conf, replica, by_role}
use segmented_memory_storage.Startup.Events.{Events, sends, takes, Reach, here, next}

abbrev net : Network
net = record {
  heartbeat_follower = λ addr. ok tt;
  sync_follower = λ addr events. ok tt;
  get_aof_copy = ok [];
}

abbrev flush : AofEntry
flush = kv_flush (107 ∷ [])

abbrev start : Events
start = record { channel = []; manager = Ha.Ops.new; waiting = true }

abbrev later : Events
later = record {
  channel = flush ∷ [];
  manager = record { followers = []; follower_timeout = []; uncommitted_events = flush ∷ [] };
  waiting = false;
}

two_changes : Reach net 100 start later
unfolding Ha.Ops.start
two_changes = next (next (next here (sends flush)) (takes flush [] refl refl)) (sends flush)

-- A leader must name a master, or it does not start.
leader_conf : Conf
leader_conf = record {
  port = 9090;
  aof = default_aof;
  lru_size = 10;
  replica_conf = some (record {
    is_replica = true;
    role = some leader;
    followers = none;
    master = none;
    event_buffer_size = none;
  });
}

leader_alone : main (λ master addr. ok tt) (λ port. codes "localhost") none (ok leader_conf) ≡ none
unfolding main with_conf replica by_role leader_conf
leader_alone = refl

-- A configuration that is not understood is replaced by the default one.
load_garbled : load (ok (codes "{")) (λ s. none) ≡ ok default_conf
unfolding load
load_garbled = refl
