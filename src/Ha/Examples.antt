-- ===== src/Ha/Examples.antt =====
-- A network in which one address answers and the others do not (server/src/ha.rs).
use segmented_memory_storage.Common.{◌≡◌, refl, List, [], ◌∷◌, if◌then◌else◌}
use segmented_memory_storage.Common.HashMap
use segmented_memory_storage.Common.Outcome.{ok, err}
use segmented_memory_storage.Common.Texts.{Text, text_eq}
use segmented_memory_storage.Aof.Entry.{kv_flush}
use segmented_memory_storage.Ha.State.{HaManager, Network}
use segmented_memory_storage.Ha.Heartbeats.{heartbeat_followers-missed}
use segmented_memory_storage.Ha.Ops.{
  new, start, sync_each, missed, heartbeat_each, heartbeat_followers, register_follower,
}

program : Unit {0}
unfolding start sync_each missed heartbeat_each heartbeat_followers register_follower text_eq
    HashMap.lookup HashMap.insert HashMap.remove
program = tt

abbrev alive : Text
alive = 97 ∷ []

abbrev silent : Text
silent = 115 ∷ []

abbrev refused : Text
refused = 114 ∷ []

abbrev net : Network
net = record {
  heartbeat_follower = λ addr. if text_eq addr alive then ok tt else err refused;
  sync_follower = λ addr events. if text_eq addr alive then ok tt else err refused;
  get_aof_copy = ok [];
}

abbrev with_followers : List Text → HaManager
with_followers followers = record new { followers = followers }

registered : (register_follower net alive new).1.followers ≡ alive ∷ []
unfolding program
registered = refl

-- A batch that the first follower does not take is gone for the second.
batch_lost :
    start net 1 (kv_flush alive) (with_followers (silent ∷ alive ∷ []))
    ≡ (err refused, with_followers (silent ∷ alive ∷ []))
unfolding program
batch_lost = refl

heartbeat_followers-missed_example :
    ((heartbeat_followers net 3 (with_followers (silent ∷ []))).1.followers ≡ silent ∷ [])
    × ((heartbeat_followers net 4 (with_followers (silent ∷ []))).1.followers ≡ [])
unfolding program
heartbeat_followers-missed_example =
    heartbeat_followers-missed net silent refused (with_followers (silent ∷ [])) refl refl refl
