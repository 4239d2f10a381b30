-- ===== src/Aof/Load.antt =====
-- Writing and reading the append-only file (server/src/db/aof.rs), as the list of its lines.
-- `serde_json` and `str::trim` are parameters: `print` and `parse` of an entry, and `trim`.
use segmented_memory_storage.Common.{
  Option, none, some, List, [], ◌∷◌, ◌++◌, ℕ, ◌+◌, length, if◌then◌else◌, ◌==◌,
}
use segmented_memory_storage.Common.Texts.{Text}
use segmented_memory_storage.Aof.Entry.{AofEntry, kv, log, list, category}

-- `aof_worker` on one entry.
unfoldable pub write_line : (AofEntry → Text) → AofEntry → List Text → List Text
write_line print e lines = lines ++ print e ∷ []

-- `aof_worker`: the entries in the order in which they were sent.
unfoldable pub aof_worker : (AofEntry → Text) → List AofEntry → List Text → List Text
unfolding write_line
aof_worker print [] lines = lines
aof_worker print (e ∷ entries) lines = aof_worker print entries (write_line print e lines)

pub record AofEntries : Type 0 where
  pub kv_entries : List AofEntry
  pub list_entries : List AofEntry
  pub log_entries : List AofEntry

abbrev pub no_entries : AofEntries
no_entries = record { kv_entries = []; list_entries = []; log_entries = [] }

unfoldable pub entries_len : AofEntries → ℕ
entries_len es = length es.kv_entries + length es.list_entries + length es.log_entries

-- The vector that takes an entry, by its category.
unfoldable pub push_entry : AofEntry → AofEntries → AofEntries
push_entry e es = elim (category e) [
  | kv ↦ record es { kv_entries = es.kv_entries ++ e ∷ [] }
  | log ↦ record es { log_entries = es.log_entries ++ e ∷ [] }
  | list ↦ record es { list_entries = es.list_entries ++ e ∷ [] }
]

module _ (trim : Text → Text) (parse : Text → Option AofEntry) where
  -- The body of both loops: a line that is blank or that does not parse gives nothing.
  unfoldable pub read_line : Text → Option AofEntry
  read_line line = if length (trim line) == 0 then none else parse (trim line)

  unfoldable pub load_aof : List Text → List AofEntry
  load_aof [] = []
  load_aof (line ∷ lines) =
      let rest = load_aof lines in elim (read_line line) [ none ↦ rest | some e ↦ e ∷ rest ]

  -- The loop of `load_aof_separated`, from the entries so far.
  unfoldable pub load_each : List Text → AofEntries → AofEntries
  load_each [] es = es
  load_each (line ∷ lines) es =
      load_each lines (elim (read_line line) [ none ↦ es | some e ↦ push_entry e es ])

  unfoldable pub load_aof_separated : List Text → AofEntries
  unfolding load_each
  load_aof_separated lines = load_each lines no_entries
