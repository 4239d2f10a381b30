-- ===== src/Aof/Examples.antt =====
-- A file of three lines and a blank one (server/src/db/aof.rs).
use segmented_memory_storage.Common.{
  ◌≡◌, refl, Option, none, some, List, [], ◌∷◌, ◌==◌, if◌then◌else◌,
}
use segmented_memory_storage.Common.Texts.{Text}
use segmented_memory_storage.Aof.Entry.{AofEntry, kv_flush, list_pop}
use segmented_memory_storage.Aof.Load.{load_aof_separated, push_entry, load_each, read_line}

abbrev trim : Text → Text
trim line = line

-- An entry that pops from a list for a line that starts with `l`, one of the keys for any other.
abbrev parse : Text → Option AofEntry
parse [] = none
parse (c ∷ line) = if c == 108 then some (list_pop line) else some (kv_flush line)

abbrev lines : List Text
lines = (107 ∷ []) ∷ [] ∷ (108 ∷ 49 ∷ []) ∷ (107 ∷ 50 ∷ []) ∷ []

read_two : (load_aof_separated trim parse lines).list_entries ≡ list_pop (49 ∷ []) ∷ []
unfolding load_aof_separated load_each push_entry read_line
read_two = refl
