-- ===== src/Pipeline/Free.antt =====
-- What the locks count (server/src/db/pipeline.rs).
use segmented_memory_storage.Common.{
  ℕ, ◌+◌, ◌-◌, ◌%◌, ◌^◌, ◌≤◌, ◌<◌, ◌≡◌, refl, true, false, List, [], ◌∷◌, arith, map, if◌then◌else◌,
}
use segmented_memory_storage.Pipeline.Command.{
  Resource, kv, list, log, PipelineCommand, resource, resource_eq,
}
use segmented_memory_storage.Pipeline.Lock.{
  LockState, holders, contains, not_mixed, not_held, can_acquire, acquire, release, unseen,
  unique_resources,
}

-- How often a resource is in a list.
unfoldable pub uses : Resource → List Resource → ℕ
uses r [] = 0
uses r (x ∷ rs) = if resource_eq x r then 1 + uses r rs else uses r rs

not_held-holders :
    (s : LockState) (r : Resource) (rs : List Resource)
    → not_held s rs ≡ true
    → 0 < uses r rs
    → holders r s ≡ 0
unfolding not_held uses
not_held-holders s r [] h k = absurd (omega arith)
not_held-holders s kv (kv ∷ rs) h k = ground arith
not_held-holders s kv (list ∷ rs) h k = ground (arith, not_held-holders s kv rs)
not_held-holders s kv (log ∷ rs) h k = ground (arith, not_held-holders s kv rs)
not_held-holders s list (kv ∷ rs) h k = ground (arith, not_held-holders s list rs)
not_held-holders s list (list ∷ rs) h k = ground arith
not_held-holders s list (log ∷ rs) h k = ground (arith, not_held-holders s list rs)
not_held-holders s log (kv ∷ rs) h k = ground (arith, not_held-holders s log rs)
not_held-holders s log (list ∷ rs) h k = ground (arith, not_held-holders s log rs)
not_held-holders s log (log ∷ rs) h k = ground arith

-- Locks that can be had are held by nobody.
pub can_acquire-holders :
    (s : LockState) (r : Resource) (rs : List Resource)
    → can_acquire s rs ≡ true
    → 0 < uses r rs
    → holders r s ≡ 0
unfolding can_acquire
can_acquire-holders s r rs h k = not_held-holders s r rs (ground arith) k

pub holders-acquire :
    (r : Resource) (rs : List Resource) (s : LockState)
    → holders r s + uses r rs < 2 ^ 32
    → holders r (acquire rs s) ≡ holders r s + uses r rs
unfolding acquire uses
holders-acquire r [] s h = omega arith
holders-acquire kv (kv ∷ rs) s h =
    ground (arith, holders-acquire kv rs (record s { kv_holders = (s.kv_holders + 1) % 2 ^ 32 }))
holders-acquire kv (list ∷ rs) s h =
    holders-acquire kv rs (record s { list_holders = (s.list_holders + 1) % 2 ^ 32 }) h
holders-acquire kv (log ∷ rs) s h =
    holders-acquire kv rs (record s { log_holders = (s.log_holders + 1) % 2 ^ 32 }) h
holders-acquire list (kv ∷ rs) s h =
    holders-acquire list rs (record s { kv_holders = (s.kv_holders + 1) % 2 ^ 32 }) h
holders-acquire list (list ∷ rs) s h =
    ground
      (arith, holders-acquire list rs (record s { list_holders = (s.list_holders + 1) % 2 ^ 32 }))
holders-acquire list (log ∷ rs) s h =
    holders-acquire list rs (record s { log_holders = (s.log_holders + 1) % 2 ^ 32 }) h
holders-acquire log (kv ∷ rs) s h =
    holders-acquire log rs (record s { kv_holders = (s.kv_holders + 1) % 2 ^ 32 }) h
holders-acquire log (list ∷ rs) s h =
    holders-acquire log rs (record s { list_holders = (s.list_holders + 1) % 2 ^ 32 }) h
holders-acquire log (log ∷ rs) s h =
    ground (arith, holders-acquire log rs (record s { log_holders = (s.log_holders + 1) % 2 ^ 32 }))

pub holders-release :
    (r : Resource) (rs : List Resource) (s : LockState)
    → holders r (release rs s) ≡ holders r s - uses r rs
unfolding release uses
holders-release r [] s = omega arith
holders-release kv (kv ∷ rs) s =
    ground (arith, holders-release kv rs (record s { kv_holders = s.kv_holders - 1 }))
holders-release kv (list ∷ rs) s =
    holders-release kv rs (record s { list_holders = s.list_holders - 1 })
holders-release kv (log ∷ rs) s =
    holders-release kv rs (record s { log_holders = s.log_holders - 1 })
holders-release list (kv ∷ rs) s =
    holders-release list rs (record s { kv_holders = s.kv_holders - 1 })
holders-release list (list ∷ rs) s =
    ground (arith, holders-release list rs (record s { list_holders = s.list_holders - 1 }))
holders-release list (log ∷ rs) s =
    holders-release list rs (record s { log_holders = s.log_holders - 1 })
holders-release log (kv ∷ rs) s =
    holders-release log rs (record s { kv_holders = s.kv_holders - 1 })
holders-release log (list ∷ rs) s =
    holders-release log rs (record s { list_holders = s.list_holders - 1 })
holders-release log (log ∷ rs) s =
    ground (arith, holders-release log rs (record s { log_holders = s.log_holders - 1 }))

resource_eq_eq : (x r : Resource) → resource_eq x r ≡ true → x ≡ r
resource_eq_eq kv kv h = refl
resource_eq_eq list list h = refl
resource_eq_eq log log h = refl
resource_eq_eq kv list h = cc
resource_eq_eq kv log h = cc
resource_eq_eq list kv h = cc
resource_eq_eq list log h = cc
resource_eq_eq log kv h = cc
resource_eq_eq log list h = cc

uses-unseen :
    (r : Resource) (seen rs : List Resource)
    → uses r (unseen seen rs) ≤ (if contains seen r then 0 else 1)
unfolding uses unseen contains
uses-unseen r seen [] = ground arith
uses-unseen r seen (x ∷ rs) =
    let same : resource_eq x r ≡ true → x ≡ r = resource_eq_eq x r in
    ground (arith, same, uses-unseen r seen rs, uses-unseen r (x ∷ seen) rs)

-- A job names each resource at most once.
pub uses-unique_resources :
    (r : Resource) (commands : List PipelineCommand) → uses r (unique_resources commands) ≤ 1
unfolding unique_resources
uses-unique_resources r commands =
    let h = uses-unseen r [] (map resource commands) in
    let k : uses r (unseen [] (map resource commands)) ≤ 1 = unfold contains in h in k

not_mixed-not_held :
    (s : LockState) (resources rs : List Resource)
    → not_mixed s resources rs ≡ false
    → not_held s rs ≡ false
unfolding not_mixed not_held
not_mixed-not_held s resources [] h = cc
not_mixed-not_held s resources (kv ∷ rs) h = ground (arith, not_mixed-not_held s resources rs)
not_mixed-not_held s resources (list ∷ rs) h = ground (arith, not_mixed-not_held s resources rs)
not_mixed-not_held s resources (log ∷ rs) h = ground (arith, not_mixed-not_held s resources rs)

-- The first loop of `can_acquire` refuses nothing that the second does not: a job can have its locks
-- just if none of its resources is held.
pub can_acquire-not_held : (s : LockState) (rs : List Resource) → can_acquire s rs ≡ not_held s rs
unfolding can_acquire
can_acquire-not_held s rs = ground (arith, not_mixed-not_held s rs rs)
