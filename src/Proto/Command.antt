-- ===== src/Proto/Command.antt =====
-- The commands and their tags (server/src/server/proto.rs).
use segmented_memory_storage.Common.{ℕ, List}
use segmented_memory_storage.Common.Texts.{Text}

abbrev pub cmd_create_group : ℕ
cmd_create_group = 0x01

abbrev pub cmd_drop_group : ℕ
cmd_drop_group = 0x02

abbrev pub cmd_add : ℕ
cmd_add = 0x03

abbrev pub cmd_add_range : ℕ
cmd_add_range = 0x04

abbrev pub cmd_read : ℕ
cmd_read = 0x05

abbrev pub cmd_read_range : ℕ
cmd_read_range = 0x06

abbrev pub cmd_remove : ℕ
cmd_remove = 0x07

abbrev pub cmd_list_groups : ℕ
cmd_list_groups = 0x08

abbrev pub cmd_group_stats : ℕ
cmd_group_stats = 0x09

abbrev pub cmd_set : ℕ
cmd_set = 0x10

abbrev pub cmd_get : ℕ
cmd_get = 0x11

abbrev pub cmd_del : ℕ
cmd_del = 0x12

abbrev pub cmd_keys : ℕ
cmd_keys = 0x13

abbrev pub cmd_flush : ℕ
cmd_flush = 0x14

abbrev pub lpush : ℕ
lpush = 0x15

abbrev pub lpush_range : ℕ
lpush_range = 0x16

abbrev pub lpop : ℕ
lpop = 0x17

abbrev pub lpop_range : ℕ
lpop_range = 0x18

abbrev pub lpop_count : ℕ
lpop_count = 0x19

abbrev pub llen : ℕ
llen = 0x20

abbrev pub lflush : ℕ
lflush = 0x21

abbrev pub ha_register : ℕ
ha_register = 0x22

abbrev pub ha_heartbeat : ℕ
ha_heartbeat = 0x23

abbrev pub ha_sync : ℕ
ha_sync = 0x24

-- Fields in the order of the source.
pub data Command : Type 0 where
  create_group : Text → Command
  drop_group : Text → Command
  add : Text → ℕ → List ℕ → Command
  add_range : Text → List (ℕ × List ℕ) → Command
  read : Text → ℕ → Command
  read_range : Text → ℕ → ℕ → Command
  remove : Text → ℕ → Command
  list_groups : Command
  group_stats : Text → Command
  set_key : Text → Text → List ℕ → ℕ → Command
  get_key : Text → Text → Command
  del_key : Text → Text → Command
  keys : Text → Command
  flush : Text → Command
  l_push : Text → List ℕ → Command
  l_push_range : Text → List (List ℕ) → Command
  l_pop : Text → Command
  l_pop_range : Text → ℕ → ℕ → Command
  l_pop_count : Text → ℕ → Command
  l_len : Text → Command
  l_flush : Text → Command
  start_pipeline : Command
  end_pipeline : ℕ → Command
  ha_register_follower : Text → Command
  ha_heart_beat : Command
  ha_sync_entries : List (List ℕ) → Command

-- The messages of `ParseError`.
pub data ParseError : Type 0 where
  eof_u8 eof_u16 eof_u32 eof_u64 eof_string eof_bytes : ParseError
  invalid_utf8 empty_frame unknown_tag : ParseError
