-- ===== src/Ha/Ops.antt =====
-- The methods of `HaManager` (server/src/ha.rs). A call of the network that fails is an error; its
-- panic on an empty answer (`resp[0]`) is a `crash`.
use segmented_memory_storage.Common.{
  ℕ, zero, suc, ◌+◌, ◌%◌, ◌^◌, ◌==◌, Bool, true, false, not, none, some, List, [], ◌∷◌, ◌++◌, leb,
  length, select, if◌then◌else◌,
}
use segmented_memory_storage.Common.HashMap
use segmented_memory_storage.Common.Outcome.{Outcome, ok, err, crash, Action}
use segmented_memory_storage.Common.Texts.{Text, text_eq, codes}
use segmented_memory_storage.Aof.Entry.{AofEntry}
use segmented_memory_storage.Ha.State.{HaManager, Network}

abbrev pub new : HaManager
new = record { followers = []; follower_timeout = []; uncommitted_events = [] }

module _ (net : Network) where
  -- The loop of `start` over the followers: it stops at the first that fails.
  unfoldable pub sync_each : List AofEntry → List Text → Outcome Text (Unit {0})
  sync_each events [] = ok tt
  sync_each events (follower ∷ followers) =
      let rest = sync_each events followers in
      elim (net.sync_follower follower events) [ ok a ↦ rest | err e ↦ err e | crash ↦ crash ]

  -- `start` on an entry of the channel; `size` is that of the configured buffer, 100 by default.
  unfoldable pub start : ℕ → AofEntry → Action HaManager Text (Unit {0})
  start size entry m =
      let events = m.uncommitted_events ++ entry ∷ [] in
      if leb size (length events)
      then (sync_each events m.followers, record m { uncommitted_events = [] })
      else (ok tt, record m { uncommitted_events = events })

  -- An unanswered heartbeat: the fourth takes the follower off.
  unfoldable pub missed : Text → HaManager → HaManager
  missed addr m =
      let count : ℕ = elim (HashMap.lookup addr m.follower_timeout) [ none ↦ 0 | some n ↦ n ] in
      if leb 3 count
      then record m {
        followers = select (λ f. not (text_eq f addr)) m.followers;
        follower_timeout = HashMap.remove addr m.follower_timeout;
      }
      else record m {
        follower_timeout = HashMap.insert addr ((count + 1) % 2 ^ 8) m.follower_timeout;
      }

  -- One tick of `heartbeat_followers`, over the followers at its start, and whether the task goes on:
  -- the first that answers ends it. A panic ends it too.
  unfoldable pub heartbeat_each : List Text → HaManager → Bool × HaManager
  heartbeat_each [] m = (true, m)
  heartbeat_each (addr ∷ followers) m =
      let rest = heartbeat_each followers (missed addr m) in
      elim (net.heartbeat_follower addr) [ ok a ↦ (false, m) | err e ↦ rest | crash ↦ (false, m) ]

  -- The ticks of the task, of which there are `n`.
  unfoldable pub heartbeat_followers : ℕ → HaManager → Bool × HaManager
  heartbeat_followers zero m = (true, m)
  heartbeat_followers (suc n) m =
      let (on, m') = heartbeat_each m.followers m in
      let rest = heartbeat_followers n m' in if on then rest else (false, m')

  -- A new follower that answers a heartbeat, and the entries of the file to it.
  unfoldable pub register_follower : Text → Action HaManager Text (Unit {0})
  register_follower addr m = elim (net.heartbeat_follower addr) [
    | ok a ↦
        let m' = record m { followers = m.followers ++ addr ∷ [] } in
        elim net.get_aof_copy [
          | ok aof_copy ↦ (
            if length aof_copy == 0 then ok tt else (elim (net.sync_follower addr aof_copy) [
              | ok b ↦ ok tt
              | err e ↦ ok tt
              | crash ↦ crash
            ]),
            m',
          )
          | err e ↦ (err e, m')
          | crash ↦ (crash, m')
        ]
    | err e ↦ (err (codes "failed to register follower: " ++ e), m)
    | crash ↦ (crash, m)
  ]

unfoldable pub ack_heartbeat : Action HaManager Text (Unit {0})
ack_heartbeat m = (ok tt, m)
