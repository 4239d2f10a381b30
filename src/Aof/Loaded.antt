-- ===== src/Aof/Loaded.antt =====
-- What is read of the append-only file (server/src/db/aof.rs).
use mathlib.Core.List.{append_assoc, append-nil}
use segmented_memory_storage.Common.{
  ◌≡◌, ap, sym, ◌∙◌, true, false, Option, none, some, List, [], ◌∷◌, ◌++◌, arith, select, All,
  if◌then◌else◌,
}
use segmented_memory_storage.Common.Texts.{Text}
use segmented_memory_storage.Aof.Entry.{AofEntry, kv, log, list, category, is_kv, is_list, is_log}
use segmented_memory_storage.Aof.Load.{
  AofEntries, no_entries, write_line, aof_worker, push_entry, read_line, load_aof, load_each,
  load_aof_separated,
}

-- The entries of each category, in order.
abbrev pub separated : List AofEntry → AofEntries
separated es = record {
  kv_entries = select is_kv es;
  list_entries = select is_list es;
  log_entries = select is_log es;
}

-- `a`, and `b` behind it.
abbrev both : AofEntries → AofEntries → AofEntries
both a b = record {
  kv_entries = a.kv_entries ++ b.kv_entries;
  list_entries = a.list_entries ++ b.list_entries;
  log_entries = a.log_entries ++ b.log_entries;
}

both-push_entry :
    (e : AofEntry) (a : AofEntries) (es : List AofEntry)
    → both (push_entry e a) (separated es) ≡ both a (separated (e ∷ es))
unfolding push_entry
both-push_entry e a es =
    elim (category e)
      as (λ c.
        both
          (elim c [
            | kv ↦ record a { kv_entries = a.kv_entries ++ e ∷ [] }
            | log ↦ record a { log_entries = a.log_entries ++ e ∷ [] }
            | list ↦ record a { list_entries = a.list_entries ++ e ∷ [] }
          ])
          (separated es)
        ≡ both a (record {
          kv_entries =
              if elim c [ kv ↦ true | _ ↦ false ] then e ∷ select is_kv es else select is_kv es;
          list_entries =
              if elim c [ list ↦ true | _ ↦ false ]
              then e ∷ select is_list es
              else select is_list es;
          log_entries =
              if elim c [ log ↦ true | _ ↦ false ] then e ∷ select is_log es else select is_log es;
        })) [ kv ↦ simp append_assoc | log ↦ simp append_assoc | list ↦ simp append_assoc ]

module _ (trim : Text → Text) (parse : Text → Option AofEntry) where
  load_each-both :
      (lines : List Text) (a : AofEntries)
      → load_each trim parse lines a ≡ both a (separated (load_aof trim parse lines))
  unfolding load_each load_aof
  load_each-both [] a = simp append-nil
  load_each-both (line ∷ lines) a =
      elim (read_line trim parse line)
        as (λ r.
          load_each trim parse lines (elim r [ none ↦ a | some e ↦ push_entry e a ])
          ≡ both a (
              separated (elim r [
                | none ↦ load_aof trim parse lines
                | some e ↦ e ∷ load_aof trim parse lines
              ]))) [
                | none ↦ load_each-both lines a
                | some x ↦
                    load_each-both lines (push_entry x a)
                    ∙ both-push_entry x a (load_aof trim parse lines)
              ]

  -- The three vectors are the entries of the file by category, each in the order of the file.
  pub load_aof_separated-select :
      (lines : List Text)
      → load_aof_separated trim parse lines ≡ separated (load_aof trim parse lines)
  unfolding load_aof_separated
  load_aof_separated-select lines = load_each-both lines no_entries

  module _ (print : AofEntry → Text) where
    -- `serde_json` reads back the line that it wrote for an entry.
    abbrev pub ReadsBack : AofEntry → Type 0
    ReadsBack e = read_line trim parse (print e) ≡ some e

    load_aof-write_line :
        (e : AofEntry) (lines : List Text)
        → ReadsBack e
        → load_aof trim parse (write_line print e lines) ≡ load_aof trim parse lines ++ e ∷ []
    unfolding load_aof write_line
    load_aof-write_line e [] h = rw (load_aof, h)
    load_aof-write_line e (line ∷ lines) h = ground (arith, load_aof-write_line e lines h)

    -- The entries sent to the writer are read after those of the file, in the order of sending.
    pub load_aof-aof_worker :
        (es : List AofEntry) (lines : List Text)
        → All ReadsBack es
        → load_aof trim parse (aof_worker print es lines) ≡ load_aof trim parse lines ++ es
    unfolding aof_worker
    load_aof-aof_worker [] lines h = sym (append-nil (load_aof trim parse lines))
    load_aof-aof_worker (e ∷ es) lines h =
        load_aof-aof_worker es (write_line print e lines) h.1
        ∙ ap (λ v. v ++ es) (load_aof-write_line e lines h.0)
        ∙ append_assoc (load_aof trim parse lines) (e ∷ []) es
