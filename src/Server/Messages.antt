-- ===== src/Server/Messages.antt =====
-- The texts of errors: the `Display` of the stores' (server/src/db/seg_log.rs, seg_list.rs,
-- groups.rs, kv.rs) and of the database's (server/src/db/db.rs), and the parser's messages
-- (server/src/server/proto.rs).
use segmented_memory_storage.Common.{◌++◌, [], ◌∷◌}
use segmented_memory_storage.Common.Texts.{Text, codes}
use segmented_memory_storage.SegLog
use segmented_memory_storage.SegLog.State.{LogError}
use segmented_memory_storage.SegList
use segmented_memory_storage.SegList.State.{ListError}
use segmented_memory_storage.Groups.State.{
  GroupError, group_not_found, group_already_exists, log_error,
}
use segmented_memory_storage.Kv.State.{KvError, not_found, already_exists}
use segmented_memory_storage.Proto.Command.{
  ParseError, eof_u8, eof_u16, eof_u32, eof_u64, eof_string, eof_bytes, invalid_utf8, empty_frame,
  unknown_tag,
}
use segmented_memory_storage.Db.State.{
  DbError, log_create_group_error, log_drop_group_error, log_append_error, log_append_range_error,
  log_read_error, log_read_range_error, log_remove_error, log_group_stats_error, kv_del_error,
  kv_set_error, kv_get_error, kv_keys_error, kv_flush_error, list_push_error, list_push_range_error,
  list_pop_error, list_pop_range_error, list_pop_count_error, list_len_error, list_flush_error,
}

unfoldable pub log_message : LogError → Text
log_message SegLog.State.entry_too_large = codes "entry exceeds segment capacity"
log_message SegLog.State.segment_limit_reached = codes "max segment count reached"
log_message SegLog.State.entry_not_found = codes "entry not found"
log_message SegLog.State.allocation_failed = codes "failed to allocate memory for segment"
log_message SegLog.State.max_segments_reached = codes "maximum segments reached"
log_message SegLog.State.write_lock_unavailable =
    codes "write lock is currently held by another operation"

-- The message of a wrong range ends in a sharp s, two bytes in UTF-8.
unfoldable pub list_message : ListError → Text
list_message SegList.State.entry_too_large = codes "entry exceeds segment capacity"
list_message SegList.State.alloc_failed = codes "failed to grow the list"
list_message SegList.State.key_not_found = codes "key not found"
list_message SegList.State.out_of_range = codes "given range is invalid" ++ 0xc3 ∷ 0x9f ∷ []

unfoldable pub group_message : GroupError → Text
group_message (group_not_found name) = codes "group '" ++ (name ++ codes "' not found")
group_message (group_already_exists name) = codes "group '" ++ (name ++ codes "' already exists")
group_message (log_error e) = codes "log error: " ++ log_message e

unfoldable pub kv_message : KvError → Text
kv_message (not_found key) = key ++ codes " not found"
kv_message (already_exists id) = codes "database " ++ (id ++ codes " already exists")

unfoldable pub db_message : DbError → Text
db_message (log_create_group_error e) = codes "failed to create group: " ++ group_message e
db_message (log_drop_group_error e) = codes "failed to drop group: " ++ group_message e
db_message (log_append_error e) = codes "failed to append to log: " ++ group_message e
db_message (log_append_range_error e) = codes "failed to append range to log: " ++ group_message e
db_message (log_read_error e) = codes "failed to read from log: " ++ group_message e
db_message (log_read_range_error e) = codes "failed to read range from log: " ++ group_message e
db_message (log_remove_error e) = codes "failed to remove from log: " ++ group_message e
db_message (log_group_stats_error e) = codes "failed to read group stats: " ++ group_message e
db_message (kv_set_error e) = codes "failed to set key: " ++ kv_message e
db_message (kv_get_error e) = codes "failed to get key: " ++ kv_message e
db_message (kv_del_error e) = codes "failed to del key: " ++ kv_message e
db_message (kv_keys_error e) = codes "failed to return keys: " ++ kv_message e
db_message (kv_flush_error e) = codes "failed to flush: " ++ kv_message e
db_message (list_push_error e) = codes "failed to push: " ++ list_message e
db_message (list_push_range_error e) = codes "failed to push range: " ++ list_message e
db_message (list_pop_error e) = codes "failed to pop: " ++ list_message e
db_message (list_pop_range_error e) = codes "failed to pop range: " ++ list_message e
db_message (list_pop_count_error e) = codes "failed to pop count: " ++ list_message e
db_message (list_len_error e) = codes "failed to get len: " ++ list_message e
db_message (list_flush_error e) = codes "failed to flush list: " ++ list_message e

unfoldable pub parse_message : ParseError → Text
parse_message eof_u8 = codes "unexpected EOF reading u8"
parse_message eof_u16 = codes "unexpected EOF reading u16"
parse_message eof_u32 = codes "unexpected EOF reading u32"
parse_message eof_u64 = codes "unexpected EOF reading u64"
parse_message eof_string = codes "unexpected EOF reading string"
parse_message eof_bytes = codes "unexpected EOF reading bytes"
parse_message invalid_utf8 = codes "invalid UTF-8"
parse_message empty_frame = codes "empty frame"
parse_message unknown_tag = codes "unknown command tag"
