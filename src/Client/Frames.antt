-- ===== src/Client/Frames.antt =====
-- The frame each method of `Client` sends (client/src/client/client.rs), and those one server sends
-- another (server/src/ha.rs), before the length that `send_recv` puts in front.
use segmented_memory_storage.Common.{ℕ, List, [], ◌∷◌, ◌++◌, length}
use segmented_memory_storage.Common.Bytes.{to_le_bytes}
use segmented_memory_storage.Common.Texts.{Text}
use segmented_memory_storage.Proto.Command.{ha_register, ha_heartbeat, ha_sync}

-- `&(s.len() as u16).to_le_bytes()` and `s.as_bytes()`
abbrev pub str_field : Text → List ℕ
str_field s = to_le_bytes 2 (length s) ++ s

-- `&(b.len() as u32).to_le_bytes()` and `b`
abbrev pub bytes_field : List ℕ → List ℕ
bytes_field b = to_le_bytes 4 (length b) ++ b

-- The loops over entries and over values.
abbrev pub entry_fields : List (ℕ × List ℕ) → List ℕ
entry_fields [] = []
entry_fields ((ts, payload) ∷ entries) =
    to_le_bytes 8 ts ++ (bytes_field payload ++ entry_fields entries)

abbrev pub val_fields : List (List ℕ) → List ℕ
val_fields [] = []
val_fields (val ∷ vals) = bytes_field val ++ val_fields vals

abbrev pub build_cmd_with_group : ℕ → Text → List ℕ
build_cmd_with_group tag group = tag ∷ str_field group

abbrev pub create_group : Text → List ℕ
create_group name = build_cmd_with_group 0x01 name

abbrev pub drop_group : Text → List ℕ
drop_group name = build_cmd_with_group 0x02 name

abbrev pub add : Text → ℕ → List ℕ → List ℕ
add group timestamp payload =
    0x03 ∷ str_field group ++ (to_le_bytes 8 timestamp ++ bytes_field payload)

abbrev pub add_range : Text → List (ℕ × List ℕ) → List ℕ
add_range group entries =
    0x04 ∷ str_field group ++ (to_le_bytes 4 (length entries) ++ entry_fields entries)

abbrev pub read : Text → ℕ → List ℕ
read group id = build_cmd_with_group 0x05 group ++ to_le_bytes 8 id

abbrev pub read_range : Text → ℕ → ℕ → List ℕ
read_range group start end =
    build_cmd_with_group 0x06 group ++ (to_le_bytes 8 start ++ to_le_bytes 8 end)

abbrev pub remove : Text → ℕ → List ℕ
remove group up_to_id = build_cmd_with_group 0x07 group ++ to_le_bytes 8 up_to_id

abbrev pub list_groups : List ℕ
list_groups = 0x08 ∷ []

abbrev pub group_stats : Text → List ℕ
group_stats group = build_cmd_with_group 0x09 group

abbrev pub build_cmd_with_db_key : ℕ → Text → Text → List ℕ
build_cmd_with_db_key tag db key = tag ∷ str_field db ++ str_field key

abbrev pub kv_set : Text → Text → List ℕ → ℕ → List ℕ
kv_set db key val ttl_secs =
    0x10 ∷ str_field db ++ (str_field key ++ (to_le_bytes 8 ttl_secs ++ bytes_field val))

abbrev pub kv_get : Text → Text → List ℕ
kv_get db key = build_cmd_with_db_key 0x11 db key

abbrev pub kv_del : Text → Text → List ℕ
kv_del db key = build_cmd_with_db_key 0x12 db key

abbrev pub kv_keys : Text → List ℕ
kv_keys db = 0x13 ∷ str_field db

abbrev pub kv_flush : Text → List ℕ
kv_flush db = 0x14 ∷ str_field db

abbrev pub build_cmd_with_key : ℕ → Text → List ℕ
build_cmd_with_key tag key = tag ∷ str_field key

abbrev pub l_push : Text → List ℕ → List ℕ
l_push key val = 0x20 ∷ str_field key ++ bytes_field val

abbrev pub l_push_range : Text → List (List ℕ) → List ℕ
l_push_range key vals = 0x21 ∷ str_field key ++ (to_le_bytes 4 (length vals) ++ val_fields vals)

abbrev pub l_pop : Text → List ℕ
l_pop key = build_cmd_with_key 0x22 key

abbrev pub l_pop_range : Text → ℕ → ℕ → List ℕ
l_pop_range key start end =
    build_cmd_with_key 0x23 key ++ (to_le_bytes 4 start ++ to_le_bytes 4 end)

abbrev pub l_pop_count : Text → ℕ → List ℕ
l_pop_count key count = build_cmd_with_key 0x24 key ++ to_le_bytes 4 count

abbrev pub l_len : Text → List ℕ
l_len key = build_cmd_with_key 0x25 key

abbrev pub l_flush : Text → List ℕ
l_flush key = build_cmd_with_key 0x26 key

-- Between servers; the entries of `sync_follower` come encoded.
abbrev pub register_master : Text → List ℕ
register_master addr = ha_register ∷ str_field addr

abbrev pub heartbeat_follower : List ℕ
heartbeat_follower = ha_heartbeat ∷ []

abbrev pub sync_follower : List (List ℕ) → List ℕ
sync_follower encoded = ha_sync ∷ to_le_bytes 4 (length encoded) ++ val_fields encoded
