-- ===== src/Groups/Examples.antt =====
-- A group with an entry (server/src/db/groups.rs), where the hash of a name and an id is the id.
use segmented_memory_storage.Common.{ℕ, ◌≡◌, refl, true, List, [], ◌∷◌, arith}
use segmented_memory_storage.Common.BTreeMap
use segmented_memory_storage.Common.Bytes.{to_le_bytes, from_le_bytes}
use segmented_memory_storage.Common.HashMap
use segmented_memory_storage.Common.Outcome.{ok, err, ◌>>◌}
use segmented_memory_storage.Common.Texts.{Text, text_eq}
use segmented_memory_storage.Segment.{copy_to, copy_from}
use segmented_memory_storage.SegLog
use segmented_memory_storage.SegLog.Entry.{write_entry, read_entry}
use segmented_memory_storage.SegLog.State.{entry_not_found}
use segmented_memory_storage.Lru
use segmented_memory_storage.Groups.State.{group_not_found, log_error}
use segmented_memory_storage.Groups.Runs.{
  Call, add_at, read_at, range_at, remove_at, added, was_read, were_read, was_removed, replies,
  replies-listed_replies,
}
use segmented_memory_storage.Groups.Ops.{
  on_log, ask_log, on_cache, with_group, create_group, cache_put, cache_get, cache_invalidate,
  append_one, add, new, read, invalidate_each, remove,
}

program : Unit {0}
unfolding on_log ask_log on_cache with_group create_group cache_put cache_get cache_invalidate
    append_one add read invalidate_each remove Lru.Ops.new Lru.Ops.alloc_slot Lru.Ops.detach
    Lru.Ops.attach_front Lru.Ops.insert_again Lru.Ops.evict_tail Lru.Ops.insert Lru.Ops.remove_at
    Lru.Ops.remove Lru.Ops.touch Lru.Ops.get SegLog.Ops.new SegLog.Ops.allocate_seg
    SegLog.Ops.roll_over SegLog.Ops.store SegLog.Ops.append SegLog.Ops.read_at SegLog.Ops.read
    SegLog.Ops.trim SegLog.Ops.remove_ids SegLog.Ops.zero_segments SegLog.Ops.zero_dead write_entry
    read_entry copy_to copy_from to_le_bytes from_le_bytes BTreeMap.insert BTreeMap.remove
    HashMap.lookup HashMap.insert text_eq
program = tt

abbrev group : Text
group = 103 ∷ []

abbrev by_id : Text → ℕ → ℕ
by_id name id = id

add_to_missing : (add by_id 0 true group 5 [] new).0 ≡ err (group_not_found group)
unfolding program
add_to_missing = refl

read_added :
    ((create_group true group >> (add by_id 0 true group 5 (7 ∷ []) >> read by_id 0 group 1)) new).0
    ≡ ok (1, 5, 7 ∷ [])
unfolding program
read_added = refl

read_removed :
    ((create_group true group
        >> (add by_id 0 true group 5 (7 ∷ []) >> (remove by_id 0 group 2 >> read by_id 0 group 1)))
      new).0
    ≡ err (log_error entry_not_found)
unfolding program
read_removed = refl

-- Reads from the cache, a range that is not all there, a read once the deadline has passed, and one behind a removal.
abbrev calls : List Call
calls =
    add_at 0 5 (7 ∷ [])
    ∷ read_at 1 1
    ∷ range_at 2 1 1
    ∷ range_at 3 1 2
    ∷ read_at 30000000001 1
    ∷ remove_at 30000000002 2
    ∷ read_at 30000000003 1
    ∷ []

replies-listed_replies_example :
    replies by_id group calls (create_group true group new).1
    ≡ added (ok 1)
      ∷ was_read (ok (1, 5, 7 ∷ []))
      ∷ were_read (ok ((1, 5, 7 ∷ []) ∷ []))
      ∷ were_read (ok ((1, 5, 7 ∷ []) ∷ []))
      ∷ was_read (ok (1, 5, 7 ∷ []))
      ∷ was_removed (ok tt)
      ∷ was_read (err (log_error entry_not_found))
      ∷ []
unfolding HashMap.lookup
replies-listed_replies_example =
    replies-listed_replies by_id group 10 calls new refl (λ i j h h' e. e) (omega arith)
      (omega arith) (omega arith) (omega arith)
