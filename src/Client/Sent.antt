-- ===== src/Client/Sent.antt =====
-- The server reads a frame of the client (client/src/client/client.rs) or of another server
-- (server/src/ha.rs) as the command that was meant.
use segmented_memory_storage.Common.{ℕ, ◌^◌, ◌<◌, ◌≡◌, List, [], ◌++◌, arith, length, All}
use segmented_memory_storage.Common.Outcome.{ok}
use segmented_memory_storage.Common.Texts.{Text}
use segmented_memory_storage.Proto.Command.{Command}
use segmented_memory_storage.Proto.Parse
use segmented_memory_storage.Proto.Parse.{parse_command}
use segmented_memory_storage.Proto.Reads.{
  Reads-pure, Reads-bind, Reads-map, IsStr, IsPayload, IsEntry, read_str-Reads, read_bytes-Reads,
  read_u32_le-Reads, read_u64_le-Reads, read_entries-Reads, read_vals-Reads, parse_command_frame,
}
use segmented_memory_storage.Client.Frames

abbrev pub IsU64 : ℕ → Type 0
IsU64 v = v < 256 ^ 8

abbrev pub IsCount : ℕ → Type 0
IsCount v = v < 256 ^ 4

-- A command and the frame that is sent for it. Texts are UTF-8 of less than 2^16 bytes, and
-- payloads and counts fit 32 bits: a longer one is sent with a length that is cut.
pub data Sent : Command → List ℕ → Type 0 where
  create_group :
      (name : Text) → IsStr name → Sent (Command.create_group name) (Frames.create_group name)
  drop_group : (name : Text) → IsStr name → Sent (Command.drop_group name) (Frames.drop_group name)
  add :
      (group : Text) (timestamp : ℕ) (payload : List ℕ)
      → IsStr group
      → IsU64 timestamp
      → IsPayload payload
      → Sent (Command.add group timestamp payload) (Frames.add group timestamp payload)
  add_range :
      (group : Text) (entries : List (ℕ × List ℕ))
      → IsStr group
      → IsCount (length entries)
      → All IsEntry entries
      → Sent (Command.add_range group entries) (Frames.add_range group entries)
  read :
      (group : Text) (id : ℕ)
      → IsStr group
      → IsU64 id
      → Sent (Command.read group id) (Frames.read group id)
  read_range :
      (group : Text) (start end : ℕ)
      → IsStr group
      → IsU64 start
      → IsU64 end
      → Sent (Command.read_range group start end) (Frames.read_range group start end)
  remove :
      (group : Text) (up_to_id : ℕ)
      → IsStr group
      → IsU64 up_to_id
      → Sent (Command.remove group up_to_id) (Frames.remove group up_to_id)
  list_groups : Sent Command.list_groups Frames.list_groups
  group_stats :
      (group : Text) → IsStr group → Sent (Command.group_stats group) (Frames.group_stats group)
  kv_set :
      (db key : Text) (val : List ℕ) (ttl_secs : ℕ)
      → IsStr db
      → IsStr key
      → IsPayload val
      → IsU64 ttl_secs
      → Sent (Command.set_key db key val ttl_secs) (Frames.kv_set db key val ttl_secs)
  kv_get :
      (db key : Text) → IsStr db → IsStr key → Sent (Command.get_key db key) (Frames.kv_get db key)
  kv_del :
      (db key : Text) → IsStr db → IsStr key → Sent (Command.del_key db key) (Frames.kv_del db key)
  kv_keys : (db : Text) → IsStr db → Sent (Command.keys db) (Frames.kv_keys db)
  kv_flush : (db : Text) → IsStr db → Sent (Command.flush db) (Frames.kv_flush db)
  register_master :
      (addr : Text)
      → IsStr addr
      → Sent (Command.ha_register_follower addr) (Frames.register_master addr)
  heartbeat_follower : Sent Command.ha_heart_beat Frames.heartbeat_follower
  sync_follower :
      (encoded : List (List ℕ))
      → IsCount (length encoded)
      → All IsPayload encoded
      → Sent (Command.ha_sync_entries encoded) (Frames.sync_follower encoded)

-- Each command above, sent by its method, is parsed as that command with all its fields, whatever
-- bytes follow the frame.
pub parse_command-Sent :
    (c : Command) (f rest : List ℕ) → Sent c f → parse_command (f ++ rest) ≡ ok c
unfolding Parse.parse_tagged Parse.parse_group Parse.parse_kv Parse.parse_ha Parse.parse_list
parse_command-Sent _ _ rest (create_group name h) =
    parse_command_frame 0x01 _ rest _ (omega arith)
      (Reads-map Command.create_group (read_str-Reads name h))
parse_command-Sent _ _ rest (drop_group name h) =
    parse_command_frame 0x02 _ rest _ (omega arith)
      (Reads-map Command.drop_group (read_str-Reads name h))
parse_command-Sent _ _ rest (add group timestamp payload hg ht hp) =
    parse_command_frame 0x03 _ rest _ (omega arith) (
      Reads-bind _ (read_str-Reads group hg) (
        Reads-bind _ (read_u64_le-Reads timestamp ht)
          (Reads-map (Command.add group timestamp) (read_bytes-Reads payload hp))))
parse_command-Sent _ _ rest (add_range group entries hg hc he) =
    parse_command_frame 0x04 _ rest _ (omega arith) (
      Reads-bind _ (read_str-Reads group hg) (
        Reads-bind _ (read_u32_le-Reads (length entries) hc)
          (Reads-map (Command.add_range group) (read_entries-Reads entries he))))
parse_command-Sent _ _ rest (read group id hg hi) =
    parse_command_frame 0x05 _ rest _ (omega arith) (
      Reads-bind _ (read_str-Reads group hg)
        (Reads-map (Command.read group) (read_u64_le-Reads id hi)))
parse_command-Sent _ _ rest (read_range group start end hg hs he) =
    parse_command_frame 0x06 _ rest _ (omega arith) (
      Reads-bind _ (read_str-Reads group hg) (
        Reads-bind _ (read_u64_le-Reads start hs)
          (Reads-map (Command.read_range group start) (read_u64_le-Reads end he))))
parse_command-Sent _ _ rest (remove group up_to_id hg hi) =
    parse_command_frame 0x07 _ rest _ (omega arith) (
      Reads-bind _ (read_str-Reads group hg)
        (Reads-map (Command.remove group) (read_u64_le-Reads up_to_id hi)))
parse_command-Sent _ _ rest list_groups =
    parse_command_frame 0x08 [] rest _ (omega arith) (Reads-pure Command.list_groups)
parse_command-Sent _ _ rest (group_stats group h) =
    parse_command_frame 0x09 _ rest _ (omega arith)
      (Reads-map Command.group_stats (read_str-Reads group h))
parse_command-Sent _ _ rest (kv_set db key val ttl_secs hd hk hv ht) =
    parse_command_frame 0x10 _ rest _ (omega arith) (
      Reads-bind _ (read_str-Reads db hd) (
        Reads-bind _ (read_str-Reads key hk) (
          Reads-bind _ (read_u64_le-Reads ttl_secs ht)
            (Reads-map (λ v. Command.set_key db key v ttl_secs) (read_bytes-Reads val hv)))))
parse_command-Sent _ _ rest (kv_get db key hd hk) =
    parse_command_frame 0x11 _ rest _ (omega arith)
      (Reads-bind _ (read_str-Reads db hd) (Reads-map (Command.get_key db) (read_str-Reads key hk)))
parse_command-Sent _ _ rest (kv_del db key hd hk) =
    parse_command_frame 0x12 _ rest _ (omega arith)
      (Reads-bind _ (read_str-Reads db hd) (Reads-map (Command.del_key db) (read_str-Reads key hk)))
parse_command-Sent _ _ rest (kv_keys db h) =
    parse_command_frame 0x13 _ rest _ (omega arith) (Reads-map Command.keys (read_str-Reads db h))
parse_command-Sent _ _ rest (kv_flush db h) =
    parse_command_frame 0x14 _ rest _ (omega arith) (Reads-map Command.flush (read_str-Reads db h))
parse_command-Sent _ _ rest (register_master addr h) =
    parse_command_frame 0x22 _ rest _ (omega arith)
      (Reads-map Command.ha_register_follower (read_str-Reads addr h))
parse_command-Sent _ _ rest heartbeat_follower =
    parse_command_frame 0x23 [] rest _ (omega arith) (Reads-pure Command.ha_heart_beat)
parse_command-Sent _ _ rest (sync_follower encoded hc hv) =
    parse_command_frame 0x24 _ rest _ (omega arith) (
      Reads-bind _ (read_u32_le-Reads (length encoded) hc)
        (Reads-map Command.ha_sync_entries (read_vals-Reads encoded hv)))
