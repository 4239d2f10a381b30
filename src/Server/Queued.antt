-- ===== src/Server/Queued.antt =====
-- Lists through the server (server/src/server/server.rs): the oldest item comes back.
use mathlib.Core.Path.{subst}
use segmented_memory_storage.Common.{
  ℕ, ◌+◌, ◌≤◌, ◌<◌, ◌≡◌, refl, ap, sym, ◌⊎◌, true, Option, some, List, [], ◌∷◌, ◌++◌, length,
}
use segmented_memory_storage.Common.Outcome.{Outcome, ok, err, crash, Action, ◌>>◌}
use segmented_memory_storage.Common.Texts.{Text, text_eq_refl}
use segmented_memory_storage.Segment.{segment_size, header_size}
use segmented_memory_storage.SegList.View.{Queues, assign, queue, Represents}
use segmented_memory_storage.SegList.Pops.{pop-Represents}
use segmented_memory_storage.SegList.Pushes.{push-Represents}
use segmented_memory_storage.Aof.Entry.{AofEntry}
use segmented_memory_storage.Aof.Entry
use segmented_memory_storage.Proto.Command
use segmented_memory_storage.Proto.Responses.{ResponseBuilder, ok_empty, ok_bytes}
use segmented_memory_storage.Db.State.{Env, Db, DbError, list_push_error, list_pop_error}
use segmented_memory_storage.Db.Calls.{map_err, on_list, write, send}
use segmented_memory_storage.Db.Ops
use segmented_memory_storage.Ha.State.{Network}
use segmented_memory_storage.Server.Handle.{Server, response, ask, handle_command}
use segmented_memory_storage.Server.Messages.{db_message}
use segmented_memory_storage.SegList
use segmented_memory_storage.SegList.State.{SegList}

on_list_ok :
    {E A : Type 0} (f : E → DbError) (m : Action SegList E A) (d : Db) (a : A) (l : SegList)
    → m d.list ≡ (ok a, l)
    → on_list f m d ≡ (ok a, record d { list = l })
unfolding on_list
on_list_ok f m d a l h = ap (λ y. (map_err f y.0, record d { list = y.1 })) h

-- What a connection gets of a call of the lists that goes well.
abbrev reported : {A : Type 0} → AofEntry → Outcome DbError A × Db → Outcome DbError A × Db
reported e y = elim y.0 [
  | ok a ↦ (ok a, ((write e >> send e) y.1).1)
  | err z ↦ (err z, y.1)
  | crash ↦ (crash, y.1)
]

module _ (from_slice : List ℕ → Option AofEntry) (net : Network) (env : Env)
    (rb : ResponseBuilder) where
  l_push-Represents :
      (s : Server) (q : Queues) (key : Text) (val : List ℕ)
      → Represents s.db.list q
      → header_size + length val ≤ segment_size
      → (0 < length s.db.list.free_segs) ⊎ (env.available ≡ true)
      → let x = handle_command from_slice env net (Command.l_push key val) rb s in
        (x.0 ≡ some ((ok_empty rb).buf))
        × Represents x.1.db.list (assign key (queue key q ++ val ∷ []) q)
  unfolding handle_command ask Ops.list_push Ops.report on_list write send
  l_push-Represents s q key val r fits room =
      let (l, pushed, r') = push-Represents env.available s.db.list q key val r fits room in
      let d =
        on_list_ok list_push_error (SegList.Ops.push env.available key val) s.db tt l pushed in
      subst
        (λ y.
          (response db_message (λ _. ok_empty) rb (reported (Entry.list_push key val) y).0
            ≡ some ((ok_empty rb).buf))
          × Represents (reported (Entry.list_push key val) y).1.list
              (assign key (queue key q ++ val ∷ []) q))
        (sym d) (refl, r')

  l_pop-Represents :
      (s : Server) (q : Queues) (key : Text) (first : List ℕ) (rest : List (List ℕ))
      → Represents s.db.list q
      → q key ≡ some (first ∷ rest)
      → let x = handle_command from_slice env net (Command.l_pop key) rb s in
        (x.0 ≡ some ((ok_bytes first rb).buf)) × Represents x.1.db.list (assign key rest q)
  unfolding handle_command ask Ops.list_pop Ops.report on_list write send
  l_pop-Represents s q key first rest r e =
      let (l, popped, r') = pop-Represents s.db.list q r key first rest e in
      let d = on_list_ok list_pop_error (SegList.Ops.pop key) s.db first l popped in
      subst
        (λ y.
          (response db_message ok_bytes rb (reported (Entry.list_pop key) y).0
            ≡ some ((ok_bytes first rb).buf))
          × Represents (reported (Entry.list_pop key) y).1.list (assign key rest q))
        (sym d) (refl, r')

  -- A push of a value that fits a segment, where one is free or can be had, is answered without an
  -- error, and a pop that follows is answered with the oldest item under the key: the value itself
  -- only if there was none before. What is left is the rest of the items, and no other key changes.
  pub l_push-l_pop :
      (s : Server) (q : Queues) (key : Text) (val first : List ℕ) (rest : List (List ℕ))
      → Represents s.db.list q
      → header_size + length val ≤ segment_size
      → (0 < length s.db.list.free_segs) ⊎ (env.available ≡ true)
      → queue key q ++ val ∷ [] ≡ first ∷ rest
      → let x = handle_command from_slice env net (Command.l_push key val) rb s in
        let y = handle_command from_slice env net (Command.l_pop key) rb x.1 in
        (x.0 ≡ some ((ok_empty rb).buf))
        × (y.0 ≡ some ((ok_bytes first rb).buf))
        × Represents y.1.db.list (assign key rest (assign key (first ∷ rest) q))
  l_push-l_pop s q key val first rest r fits room e =
      let pushed = l_push-Represents s q key val r fits room in
      let s' = (handle_command from_slice env net (Command.l_push key val) rb s).1 in
      let r' : Represents s'.db.list (assign key (first ∷ rest) q) =
        subst (λ xs. Represents s'.db.list (assign key xs q)) e pushed.1 in
      let popped =
        l_pop-Represents s' (assign key (first ∷ rest) q) key first rest r'
          (rw (text_eq_refl key) refl) in
      (pushed.0, popped.0, popped.1)
