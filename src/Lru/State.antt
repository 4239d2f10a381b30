-- ===== src/Lru/State.antt =====
-- `LRU` and its entries (server/src/db/lru.rs), at keys of 64 bits, the only ones in use.
use segmented_memory_storage.Common.{ℕ, ◌^◌, ◌-◌, Option, List}
use segmented_memory_storage.Common.BTreeMap.{BTreeMap}

-- `usize::MAX`, in place of a link.
abbrev pub null : ℕ
null = 2 ^ 64 - 1

pub record Entry (V : Type 0) : Type 0 where
  pub value : V
  pub expires_at : ℕ
  pub prev : ℕ
  pub next : ℕ

-- The head of `free` is the end of the vector. The order of `map` is not looked at.
pub record Lru (V : Type 0) : Type 0 where
  pub map : BTreeMap ℕ
  pub reverse : List (Option ℕ)
  pub entries : List (Option (Entry V))
  pub free : List ℕ
  pub head : ℕ
  pub tail : ℕ
  pub ttl : ℕ
  pub cap : ℕ
