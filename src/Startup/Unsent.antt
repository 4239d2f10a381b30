-- ===== src/Startup/Unsent.antt =====
-- The events that the one call of `start` leaves behind (server/src/main.rs, server/src/ha.rs).
use mathlib.Core.List.{append-nil, append_assoc}
use segmented_memory_storage.Common.{
  ℕ, ◌≤◌, ◌≡◌, refl, ap, sym, ◌∙◌, true, false, List, [], ◌∷◌, ◌++◌, arith, length, leb, lt→leb,
}
use segmented_memory_storage.Common.Texts.{Text}
use segmented_memory_storage.Aof.Entry.{AofEntry}
use segmented_memory_storage.Ha.State.{HaManager, Network}
use segmented_memory_storage.Ha
use segmented_memory_storage.Startup.Events.{
  Events, Step, sends, takes, registers, ticks, Reach, here, next,
}

module _ {net : Network} {size : ℕ} {x : Events} where
  -- The events of the changes on the way, in order.
  unfoldable pub changes : {y : Events} → Reach net size x y → List AofEntry
  changes here = []
  changes (next r (sends e)) = changes r ++ e ∷ []
  changes (next r (takes e es w c)) = changes r
  changes (next r (registers addr)) = changes r
  changes (next r ticks) = changes r

-- What is held back, and what waits in the channel.
abbrev pub held : Events → List AofEntry
held y = y.manager.uncommitted_events ++ y.channel

record Kept (x : Events) (news : List AofEntry) (y : Events) : Type 0 where
  all_held : held y ≡ x.channel ++ news
  at_first : y.waiting ≡ true → y.manager.uncommitted_events ≡ []

start-held :
    (net : Network) (size : ℕ) (e : AofEntry) (m : HaManager)
    → 2 ≤ size
    → m.uncommitted_events ≡ []
    → (Ha.Ops.start net size e m).1.uncommitted_events ≡ e ∷ []
unfolding Ha.Ops.start
start-held net size e m h none' =
    let short : leb size (length (m.uncommitted_events ++ e ∷ [])) ≡ false =
      rw none' (lt→leb size 1 h) in
    rw (Ha.Ops.start, short) (rw none' refl)

-- Neither a registration nor a tick of the heartbeats touches the events.
register_follower-held :
    (net : Network) (addr : Text) (m : HaManager)
    → (Ha.Ops.register_follower net addr m).1.uncommitted_events ≡ m.uncommitted_events
unfolding Ha.Ops.register_follower
register_follower-held net addr m = ground arith

missed-held :
    (net : Network) (addr : Text) (m : HaManager)
    → (Ha.Ops.missed net addr m).uncommitted_events ≡ m.uncommitted_events
unfolding Ha.Ops.missed
missed-held net addr m = ground arith

heartbeat_each-held :
    (net : Network) (followers : List Text) (m : HaManager)
    → (Ha.Ops.heartbeat_each net followers m).1.uncommitted_events ≡ m.uncommitted_events
unfolding Ha.Ops.heartbeat_each
heartbeat_each-held net [] m = refl
heartbeat_each-held net (addr ∷ followers) m =
    ground
      (arith, missed-held net addr m, heartbeat_each-held net followers (Ha.Ops.missed net addr m))

-- A new manager with the same events.
with_manager-Kept :
    (x y : Events) (news : List AofEntry) (m : HaManager)
    → m.uncommitted_events ≡ y.manager.uncommitted_events
    → Kept x news y
    → Kept x news (record y { manager = m })
with_manager-Kept x y news m same k = record {
  all_held = ap (λ l. l ++ y.channel) same ∙ k.all_held;
  at_first = λ w. same ∙ k.at_first w;
}

Step-Kept :
    {net : Network} {size : ℕ} {x y z : Events} (r : Reach net size x y) (st : Step net size y z)
    → 2 ≤ size
    → Kept x (changes r) y
    → Kept x (changes (next r st)) z
unfolding changes
Step-Kept {x = x} {y = y} r (sends e) h k = record {
  all_held =
      sym (append_assoc y.manager.uncommitted_events y.channel (e ∷ []))
      ∙ ap (λ l. l ++ e ∷ []) k.all_held
      ∙ append_assoc x.channel (changes r) (e ∷ []);
  at_first = k.at_first;
}
Step-Kept {net} {size} {x = x} {y = y} r (takes e es w c) h k =
    let none' = k.at_first w in
    record {
      all_held =
          ap (λ l. l ++ es) (start-held net size e y.manager h none')
          ∙ sym c
          ∙ ap (λ l. l ++ y.channel) (sym none')
          ∙ k.all_held;
      at_first = λ f. cc;
    }
Step-Kept {net} {x = x} {y = y} r (registers addr) h k =
    with_manager-Kept x y (changes r) (Ha.Ops.register_follower net addr y.manager).1
      (register_follower-held net addr y.manager) k
Step-Kept {net} {x = x} {y = y} r ticks h k =
    with_manager-Kept x y (changes r) (Ha.Ops.heartbeat_each net y.manager.followers y.manager).1
      (heartbeat_each-held net y.manager.followers y.manager) k

Reach-Kept :
    {net : Network} {size : ℕ} {x y : Events} (r : Reach net size x y)
    → 2 ≤ size
    → x.manager.uncommitted_events ≡ []
    → Kept x (changes r) y
unfolding changes
Reach-Kept {x = x} here h none' = record {
  all_held = ap (λ l. l ++ x.channel) none' ∙ sym (append-nil x.channel);
  at_first = λ w. none';
}
Reach-Kept (next r st) h none' = Step-Kept r st h (Reach-Kept r h none')

pub Reach-held :
    (net : Network) (size : ℕ) (x y : Events) (r : Reach net size x y)
    → 2 ≤ size
    → x.manager.uncommitted_events ≡ []
    → held y ≡ x.channel ++ changes r
Reach-held net size x y r h none' = (Reach-Kept r h none').all_held
