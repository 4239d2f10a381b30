-- ===== src/Proto/Safe.antt =====
-- The parser of server/src/server/proto.rs on any bytes: no slice leaves the frame.
use segmented_memory_storage.Common.{ℕ, ◌≢◌, List, ◌==◌, arith, length, Bool-cases, inl, inr}
use segmented_memory_storage.Common.Outcome.{crash}
use segmented_memory_storage.Proto.Command.{Command, unknown_tag}
use segmented_memory_storage.Proto.Cursor.{Reader}
use segmented_memory_storage.Proto.Parse.{
  parse_group, parse_kv, parse_list, parse_ha, parse_tagged, parse_command,
}
use segmented_memory_storage.Proto.SafeReads.{
  read_u8-IsSafe, read_u32_le-IsSafe, read_u64_le-IsSafe, IsSafe, pure-IsSafe, throw-IsSafe,
  if-IsSafe, read_bytes-IsSafe, read_entries-IsSafe, read_vals-IsSafe, read_str-then, bind-IsSafe,
}

parse_group-IsSafe : (tag : ℕ) {k : Reader Command} → IsSafe 0 k → IsSafe 0 (parse_group tag k)
unfolding parse_group
parse_group-IsSafe tag h = if-IsSafe (tag == 0x01) (read_str-then (λ s. pure-IsSafe _)) (
    if-IsSafe (tag == 0x02) (read_str-then (λ s. pure-IsSafe _)) (
      if-IsSafe (tag == 0x03)
        (read_str-then (λ s.
          bind-IsSafe _ (λ ts. bind-IsSafe _ (λ p. pure-IsSafe _) read_bytes-IsSafe)
            read_u64_le-IsSafe))
        (if-IsSafe (tag == 0x04)
          (read_str-then (λ s.
            bind-IsSafe _ (λ n. bind-IsSafe _ (λ es. pure-IsSafe _) (read_entries-IsSafe n))
              read_u32_le-IsSafe))
          (if-IsSafe (tag == 0x05)
            (read_str-then (λ s. bind-IsSafe _ (λ id. pure-IsSafe _) read_u64_le-IsSafe))
            (if-IsSafe (tag == 0x06)
              (read_str-then (λ s.
                bind-IsSafe _ (λ a. bind-IsSafe _ (λ b. pure-IsSafe _) read_u64_le-IsSafe)
                  read_u64_le-IsSafe))
              (if-IsSafe (tag == 0x07)
                (read_str-then (λ s. bind-IsSafe _ (λ id. pure-IsSafe _) read_u64_le-IsSafe))
                (if-IsSafe (tag == 0x08) (pure-IsSafe _)
                  (if-IsSafe (tag == 0x09) (read_str-then (λ s. pure-IsSafe _)) h))))))))

parse_kv-IsSafe : (tag : ℕ) {k : Reader Command} → IsSafe 0 k → IsSafe 0 (parse_kv tag k)
unfolding parse_kv
parse_kv-IsSafe tag h =
    if-IsSafe (tag == 0x10)
      (read_str-then (λ d. read_str-then (λ s.
        bind-IsSafe _ (λ t. bind-IsSafe _ (λ v. pure-IsSafe _) read_bytes-IsSafe)
          read_u64_le-IsSafe)))
      (if-IsSafe (tag == 0x11) (read_str-then (λ d. read_str-then (λ s. pure-IsSafe _))) (
        if-IsSafe (tag == 0x12) (read_str-then (λ d. read_str-then (λ s. pure-IsSafe _))) (
          if-IsSafe (tag == 0x13) (read_str-then (λ d. pure-IsSafe _))
            (if-IsSafe (tag == 0x14) (read_str-then (λ d. pure-IsSafe _)) h))))

parse_list-IsSafe : (tag : ℕ) {k : Reader Command} → IsSafe 0 k → IsSafe 0 (parse_list tag k)
unfolding parse_list
parse_list-IsSafe tag h =
    if-IsSafe (tag == 0x15)
      (read_str-then
        (λ d. read_str-then (λ s. bind-IsSafe _ (λ v. pure-IsSafe _) read_bytes-IsSafe)))
      (if-IsSafe (tag == 0x16)
        (read_str-then (λ d. read_str-then (λ s.
          bind-IsSafe _ (λ n. bind-IsSafe _ (λ vs. pure-IsSafe _) (read_vals-IsSafe n))
            read_u32_le-IsSafe)))
        (if-IsSafe (tag == 0x17) (read_str-then (λ d. read_str-then (λ s. pure-IsSafe _))) (
          if-IsSafe (tag == 0x18)
            (read_str-then (λ d. read_str-then (λ s.
              bind-IsSafe _ (λ a. bind-IsSafe _ (λ b. pure-IsSafe _) read_u32_le-IsSafe)
                read_u32_le-IsSafe)))
            (if-IsSafe (tag == 0x19)
              (read_str-then
                (λ d. read_str-then (λ s. bind-IsSafe _ (λ n. pure-IsSafe _) read_u32_le-IsSafe)))
              (if-IsSafe (tag == 0x20) (read_str-then (λ d. read_str-then (λ s. pure-IsSafe _))) (
                if-IsSafe (tag == 0x21) (read_str-then (λ d. read_str-then (λ s. pure-IsSafe _)))
                  h))))))

parse_ha-IsSafe : (tag : ℕ) {k : Reader Command} → IsSafe 0 k → IsSafe 0 (parse_ha tag k)
unfolding parse_ha
parse_ha-IsSafe tag h = if-IsSafe (tag == 0x22) (read_str-then (λ s. pure-IsSafe _)) (
    if-IsSafe (tag == 0x23) (pure-IsSafe _) (
      if-IsSafe (tag == 0x24)
        (bind-IsSafe _ (λ n. bind-IsSafe _ (λ vs. pure-IsSafe _) (read_vals-IsSafe n))
          read_u32_le-IsSafe)
        h))

-- No frame, however malformed, makes the parser panic: it returns a command or an error.
pub parse_command_safe : (frame : List ℕ) → parse_command frame ≢ crash
unfolding parse_command parse_tagged
parse_command_safe frame = elim (Bool-cases (length frame == 0)) [
  | inl e ↦ rw e (λ q. ground arith)
  | inr e ↦ rw e (
      (bind-IsSafe parse_tagged
          (λ tag. parse_group-IsSafe tag (
            parse_kv-IsSafe tag
              (parse_list-IsSafe tag (parse_ha-IsSafe tag (throw-IsSafe unknown_tag)))))
          read_u8-IsSafe).safe
        (record { buf = frame; pos = 0 }) (omega arith))
]
