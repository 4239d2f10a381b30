-- ===== src/Proto/Parse.antt =====
-- `parse_command` (server/src/server/proto.rs).
use segmented_memory_storage.Common.{ℕ, zero, suc, List, [], ◌∷◌, ◌==◌, length, if◌then◌else◌}
use segmented_memory_storage.Common.Outcome.{Outcome, err, pure, throw}
use segmented_memory_storage.Proto.Command
use segmented_memory_storage.Proto.Command.{Command, ParseError}
use segmented_memory_storage.Proto.Cursor.{
  Reader, ◌>>=◌, ◌>>◌, read_u8, read_u32_le, read_u64_le, read_str, read_bytes,
}

-- The loops over `count`.
unfoldable pub read_entries : ℕ → Reader (List (ℕ × List ℕ))
read_entries zero = pure []
read_entries (suc count) = do
  ts ← read_u64_le
  payload ← read_bytes
  entries ← read_entries count
  pure ((ts, payload) ∷ entries)

unfoldable pub read_vals : ℕ → Reader (List (List ℕ))
read_vals zero = pure []
read_vals (suc count) = do val ← read_bytes; vals ← read_vals count; pure (val ∷ vals)

-- The arms of the `match` on the tag, for groups,
unfoldable pub parse_group : ℕ → Reader Command → Reader Command
parse_group tag otherwise =
    if tag == Command.cmd_create_group
    then (do name ← read_str; pure (Command.create_group name))
    else (if tag == Command.cmd_drop_group
        then (do name ← read_str; pure (Command.drop_group name))
        else (if tag == Command.cmd_add
            then (do
              group ← read_str
              timestamp ← read_u64_le
              payload ← read_bytes
              pure (Command.add group timestamp payload))
            else (if tag == Command.cmd_add_range
                then (do
                  group ← read_str
                  count ← read_u32_le
                  entries ← read_entries count
                  pure (Command.add_range group entries))
                else (if tag == Command.cmd_read
                    then (do group ← read_str; id ← read_u64_le; pure (Command.read group id))
                    else (if tag == Command.cmd_read_range
                        then (do
                          group ← read_str
                          start ← read_u64_le
                          end ← read_u64_le
                          pure (Command.read_range group start end))
                        else (if tag == Command.cmd_remove
                            then (do
                              group ← read_str
                              up_to_id ← read_u64_le
                              pure (Command.remove group up_to_id))
                            else (if tag == Command.cmd_list_groups
                                then pure Command.list_groups
                                else (if tag == Command.cmd_group_stats
                                    then (do group ← read_str; pure (Command.group_stats group))
                                    else otherwise))))))))

-- for keys,
unfoldable pub parse_kv : ℕ → Reader Command → Reader Command
parse_kv tag otherwise =
    if tag == Command.cmd_set
    then (do
      db ← read_str
      key ← read_str
      ttl_secs ← read_u64_le
      val ← read_bytes
      pure (Command.set_key db key val ttl_secs))
    else (if tag == Command.cmd_get
        then (do db ← read_str; key ← read_str; pure (Command.get_key db key))
        else (if tag == Command.cmd_del
            then (do db ← read_str; key ← read_str; pure (Command.del_key db key))
            else (if tag == Command.cmd_keys
                then (do db ← read_str; pure (Command.keys db))
                else (if tag == Command.cmd_flush
                    then (do db ← read_str; pure (Command.flush db))
                    else otherwise))))

-- for lists, each of which reads a `db` that the command does not carry,
unfoldable pub parse_list : ℕ → Reader Command → Reader Command
parse_list tag otherwise =
    if tag == Command.lpush
    then (do read_str; key ← read_str; val ← read_bytes; pure (Command.l_push key val))
    else (if tag == Command.lpush_range
        then (do
          read_str
          key ← read_str
          count ← read_u32_le
          vals ← read_vals count
          pure (Command.l_push_range key vals))
        else (if tag == Command.lpop
            then (do read_str; key ← read_str; pure (Command.l_pop key))
            else (if tag == Command.lpop_range
                then (do
                  read_str
                  key ← read_str
                  start ← read_u32_le
                  end ← read_u32_le
                  pure (Command.l_pop_range key start end))
                else (if tag == Command.lpop_count
                    then (do
                      read_str
                      key ← read_str
                      count ← read_u32_le
                      pure (Command.l_pop_count key count))
                    else (if tag == Command.llen
                        then (do read_str; key ← read_str; pure (Command.l_len key))
                        else (if tag == Command.lflush
                            then (do read_str; key ← read_str; pure (Command.l_flush key))
                            else otherwise))))))

-- and for replication.
unfoldable pub parse_ha : ℕ → Reader Command → Reader Command
parse_ha tag otherwise =
    if tag == Command.ha_register
    then (do addr ← read_str; pure (Command.ha_register_follower addr))
    else (if tag == Command.ha_heartbeat
        then pure Command.ha_heart_beat
        else (if tag == Command.ha_sync
            then (do
              count ← read_u32_le
              vals ← read_vals count
              pure (Command.ha_sync_entries vals))
            else otherwise))

unfoldable pub parse_tagged : ℕ → Reader Command
unfolding parse_group parse_kv parse_list parse_ha
parse_tagged tag =
    parse_group tag (parse_kv tag (parse_list tag (parse_ha tag (throw Command.unknown_tag))))

unfoldable pub parse_command : List ℕ → Outcome ParseError Command
parse_command frame =
    if length frame == 0
    then err Command.empty_frame
    else ((read_u8 >>= parse_tagged) (record { buf = frame; pos = 0 })).0
