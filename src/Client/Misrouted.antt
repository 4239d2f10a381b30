-- ===== src/Client/Misrouted.antt =====
-- The frames of the list methods of the client (client/src/client/client.rs) under the parser of the
-- server (server/src/server/proto.rs), whose tags for lists are others.
use segmented_memory_storage.Common.{ℕ, ◌≡◌, List, [], ◌++◌, arith}
use segmented_memory_storage.Common.Outcome.{ok, err}
use segmented_memory_storage.Common.Texts.{Text}
use segmented_memory_storage.Proto.Command.{unknown_tag, ha_register_follower, ha_heart_beat}
use segmented_memory_storage.Proto.Parse.{
  parse_tagged, parse_group, parse_kv, parse_list, parse_ha, parse_command,
}
use segmented_memory_storage.Proto.Reads.{
  Reads-map, Reads-pure, IsStr, read_str-Reads, parse_command_tag, parse_command_frame,
}
use segmented_memory_storage.Client.Frames.{str_field, l_pop, l_pop_range, l_len, l_flush}
use segmented_memory_storage.Common.Bytes.{to_le_bytes}

-- For every key that is UTF-8 of less than 2^16 bytes, and whatever bytes follow the frame, `l_pop`
-- is taken for the registration of a follower whose address is the key, `l_pop_range` for a
-- heartbeat, and `l_len` and `l_flush` are refused for an unknown tag.
pub list_frames_misrouted :
    (key : Text) (start end : ℕ) (rest : List ℕ)
    → IsStr key
    → (parse_command (l_pop key ++ rest) ≡ ok (ha_register_follower key))
      × ((parse_command (l_pop_range key start end ++ rest) ≡ ok ha_heart_beat)
          × ((parse_command (l_len key ++ rest) ≡ err unknown_tag)
              × (parse_command (l_flush key ++ rest) ≡ err unknown_tag)))
unfolding parse_tagged parse_group parse_kv parse_list parse_ha
list_frames_misrouted key start end rest h = (
  parse_command_frame 0x22 (str_field key) rest _ (omega arith)
      (Reads-map ha_register_follower (read_str-Reads key h)),
  (
    parse_command_frame 0x23 []
        (str_field key ++ (to_le_bytes 4 start ++ to_le_bytes 4 end) ++ rest) _ (omega arith)
        (Reads-pure ha_heart_beat),
    (
      parse_command_tag 0x25 (str_field key ++ rest) (omega arith),
      parse_command_tag 0x26 (str_field key ++ rest) (omega arith),
    ),
  ),
)
