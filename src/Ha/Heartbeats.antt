-- ===== src/Ha/Heartbeats.antt =====
-- Which followers the heartbeats take off (server/src/ha.rs).
use segmented_memory_storage.Common.{
  ℕ, suc, ◌+◌, ◌%◌, ◌^◌, ◌<◌, ◌≡◌, refl, ap, ◌∙◌, false, none, some, List, [], ◌∷◌, arith,
}
use segmented_memory_storage.Common.HashMap
use segmented_memory_storage.Common.HashMap.{lookup-insert}
use segmented_memory_storage.Common.Outcome.{ok, err}
use segmented_memory_storage.Common.Texts.{Text, text_eq_refl}
use segmented_memory_storage.Ha.State.{HaManager, Network}
use segmented_memory_storage.Ha.Ops.{missed, heartbeat_each, heartbeat_followers}

-- Once the first follower answers, the task is at its end: however many ticks follow, no follower
-- is taken off and no miss is counted, whatever the other followers do.
pub heartbeat_followers-answered :
    (net : Network) (n : ℕ) (addr : Text) (m : HaManager) (followers : List Text)
    → m.followers ≡ addr ∷ followers
    → net.heartbeat_follower addr ≡ ok tt
    → heartbeat_followers net (suc n) m ≡ (false, m)
unfolding heartbeat_followers heartbeat_each
heartbeat_followers-answered net n addr m followers h answers = rw (h, heartbeat_each, answers) refl

-- How often a follower has missed so far.
abbrev misses : Text → HaManager → ℕ
misses addr m = elim (HashMap.lookup addr m.follower_timeout) [ none ↦ 0 | some n ↦ n ]

-- A tick over one follower that does not answer.
tick :
    (net : Network) (n : ℕ) (addr error : Text) (m : HaManager)
    → m.followers ≡ addr ∷ []
    → net.heartbeat_follower addr ≡ err error
    → heartbeat_followers net (suc n) m ≡ heartbeat_followers net n (missed net addr m)
unfolding heartbeat_followers heartbeat_each
tick net n addr error m h silent = rw (h, heartbeat_each, silent) refl

missed_below :
    (net : Network) (addr : Text) (m : HaManager)
    → misses addr m < 3
    → ((missed net addr m).followers ≡ m.followers)
      × (misses addr (missed net addr m) ≡ misses addr m + 1)
unfolding missed
missed_below net addr m few =
    let found = lookup-insert addr addr ((misses addr m + 1) % 2 ^ 8) m.follower_timeout in
    (ground (arith, few), ground (arith, few, found, text_eq_refl addr))

missed_last :
    (net : Network) (addr : Text) (m : HaManager)
    → misses addr m ≡ 3
    → m.followers ≡ addr ∷ []
    → (missed net addr m).followers ≡ []
unfolding missed
missed_last net addr m many h = ground (arith, many, h, text_eq_refl addr)

-- A single follower that never answers, and of which no heartbeat has been missed yet, is still there
-- after three ticks and taken off at the fourth.
pub heartbeat_followers-missed :
    (net : Network) (addr error : Text) (m : HaManager)
    → m.followers ≡ addr ∷ []
    → net.heartbeat_follower addr ≡ err error
    → HashMap.lookup addr m.follower_timeout ≡ none
    → ((heartbeat_followers net 3 m).1.followers ≡ addr ∷ [])
      × ((heartbeat_followers net 4 m).1.followers ≡ [])
unfolding heartbeat_followers
heartbeat_followers-missed net addr error m h silent fresh =
    let m1 = missed net addr m in
    let m2 = missed net addr m1 in
    let m3 = missed net addr m2 in
    let c0 : misses addr m ≡ 0 = rw (misses, fresh) refl in
    let c1 = missed_below net addr m (omega arith) in
    let c2 = missed_below net addr m1 (omega arith) in
    let c3 = missed_below net addr m2 (omega arith) in
    let h1 = c1.0 ∙ h in
    let h2 = c2.0 ∙ h1 in
    let h3 = c3.0 ∙ h2 in
    let t = λ (n : ℕ).
      tick net (suc (suc n)) addr error m h silent
      ∙ (tick net (suc n) addr error m1 h1 silent ∙ tick net n addr error m2 h2 silent) in
    (
      ap (λ x. x.1.followers) (t 0) ∙ h3,
      ap (λ x. x.1.followers) (t 1 ∙ tick net 0 addr error m3 h3 silent)
          ∙ missed_last net addr m3 (omega arith) h3,
    )
