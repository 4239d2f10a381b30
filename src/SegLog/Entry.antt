-- ===== src/SegLog/Entry.antt =====
-- One entry in raw memory: 8 bytes of id, 8 of timestamp and 4 of length, then the payload
-- (the copies inside `append` and `read`, server/src/db/seg_log.rs).
use segmented_memory_storage.Common.{
  ℕ, ◌+◌, ◌%◌, ◌^◌, Option, some, List, [], ltb, length, if◌then◌else◌,
}
use segmented_memory_storage.Common.Bytes.{to_le_bytes, from_le_bytes}
use segmented_memory_storage.Common.Optional.{◌>>=◌}
use segmented_memory_storage.Segment.{Segment, header_size, copy_to, copy_from}

-- The four copies of `append` to `dst`.
unfoldable pub write_entry : Segment → ℕ → ℕ → ℕ → List ℕ → Option Segment
write_entry seg dst entry_id timestamp payload = do
  seg1 ← copy_to seg dst (to_le_bytes 8 entry_id)
  seg2 ← copy_to seg1 (dst + 8) (to_le_bytes 8 timestamp)
  seg3 ← copy_to seg2 (dst + 16) (to_le_bytes 4 (length payload % 2 ^ 32))
  if ltb 0 (length payload) then copy_to seg3 (dst + header_size) payload else some seg3

-- The unsafe block of `read` from `src`.
unfoldable pub read_entry : Segment → ℕ → Option (ℕ × ℕ × List ℕ)
read_entry seg src = do
  id ← copy_from seg src 8
  ts ← copy_from seg (src + 8) 8
  len_bytes ← copy_from seg (src + 16) 4
  let len = from_le_bytes len_bytes
  payload ← (if ltb 0 len then copy_from seg (src + header_size) len else some [])
  some (from_le_bytes id, from_le_bytes ts, payload)
