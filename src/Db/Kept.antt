-- ===== src/Db/Kept.antt =====
-- What one call does to the lists and to what is in the file about them (server/src/db/db.rs).
use segmented_memory_storage.Common.{
  ◌≡◌, inl, inr, refl, ap, sym, ◌∙◌, Bool, true, false, ◌&&◌, none, some, List, [], ◌∷◌, ◌++◌,
  arith, select, Bool-cases, Option-cases, if◌then◌else◌,
}
use segmented_memory_storage.Common.HashMap
use segmented_memory_storage.Common.Texts.{Text, eq_of_text_eq}
use segmented_memory_storage.Common.HashMap.{HashMap}
use segmented_memory_storage.Common.Outcome.{Outcome, ok, err, crash, pure, ◌>>◌}
use segmented_memory_storage.SegList
use segmented_memory_storage.SegList.State.{SegList}
use segmented_memory_storage.Aof.Entry.{
  AofEntry, kv_set, kv_del, kv_flush, log_create_group, log_drop_group, log_add, log_add_range,
  log_remove, list_push, list_push_range, list_pop, list_pop_range, list_pop_count, list_flush,
  EntryCategory, kv, log, list, category, is_list,
}
use segmented_memory_storage.Db.State.{Env, Db, DbError}
use segmented_memory_storage.Db.Calls.{DbAction, on_kv, on_groups, on_list, send}
use segmented_memory_storage.Db.Ops
use segmented_memory_storage.Db.Apply.{forgotten, apply_aof}
use segmented_memory_storage.Db.Turns.{part, apply_aof-part_of}
use segmented_memory_storage.Db.Recovered.{category-is_of}
use segmented_memory_storage.Db.Logged.{perform, is_kv_flush, is_ok, logged, perform-apply_aof}
use segmented_memory_storage.Db.Client
use segmented_memory_storage.Db.Client.{Call, changes, call, is_there, list_well}

insert_there :
    {V : Type 0} (k : Text) (v : V) (m : HashMap V)
    → HashMap.lookup k m ≡ some v
    → HashMap.insert k v m ≡ m
unfolding HashMap.lookup HashMap.insert
insert_there k v [] h = cc
insert_there k v (e ∷ m) h = ground (arith, h, eq_of_text_eq k e.0, insert_there k v m)

list_len-same :
    (key : Text) (s : SegList)
    → is_there (HashMap.lookup key s.written) ≡ true
    → (SegList.Ops.list_len key s).1 ≡ s
unfolding SegList.Ops.list_len
list_len-same key s h = elim (Option-cases (HashMap.lookup key s.written)) [
  | inl missing ↦ let gone : false ≡ true = sym (ap is_there missing) ∙ h in cc
  | inr (segs, there) ↦
      let entry : SegList.Ops.entry_or_new key s ≡ segs =
        ap (λ o. elim o as (λ _. List SegList.State.Pointer) [ none ↦ [] | some xs ↦ xs ]) there in
      ap (λ xs. record s { written = HashMap.insert key xs s.written }) entry
      ∙ ap (λ m. record s { written = m }) (insert_there key segs s.written there)
]

-- The entries of lists ask nothing of the surroundings but memory.
pub list-apply_aof :
    (env env' : Env) (e : AofEntry) (d : Db)
    → is_list e ≡ true
    → env.available ≡ env'.available
    → apply_aof env e d ≡ apply_aof env' e d
unfolding apply_aof
list-apply_aof env env' (kv_set db key val ttl) d h a = cc
list-apply_aof env env' (kv_del db key) d h a = cc
list-apply_aof env env' (kv_flush db) d h a = cc
list-apply_aof env env' (log_create_group name) d h a = cc
list-apply_aof env env' (log_drop_group name) d h a = cc
list-apply_aof env env' (log_add group ts payload) d h a = cc
list-apply_aof env env' (log_add_range group entries) d h a = cc
list-apply_aof env env' (log_remove group up_to_id) d h a = cc
list-apply_aof env env' (list_push key payload) d h a =
    ap (λ t. apply_aof (record env { available = t }) (list_push key payload) d) a
list-apply_aof env env' (list_push_range key items) d h a =
    ap (λ t. apply_aof (record env { available = t }) (list_push_range key items) d) a
list-apply_aof env env' (list_pop key) d h a = refl
list-apply_aof env env' (list_pop_range key start end) d h a = refl
list-apply_aof env env' (list_pop_count key count) d h a = refl
list-apply_aof env env' (list_flush key) d h a = refl

list_not_flush : (e : AofEntry) → is_list e ≡ true → is_kv_flush e ≡ false
list_not_flush (kv_flush db) h = cc
list_not_flush (kv_set db key val ttl) h = refl
list_not_flush (kv_del db key) h = refl
list_not_flush (log_create_group name) h = refl
list_not_flush (log_drop_group name) h = refl
list_not_flush (log_add group ts payload) h = refl
list_not_flush (log_add_range group entries) h = refl
list_not_flush (log_remove group up_to_id) h = refl
list_not_flush (list_push key payload) h = refl
list_not_flush (list_push_range key items) h = refl
list_not_flush (list_pop key) h = refl
list_not_flush (list_pop_range key start end) h = refl
list_not_flush (list_pop_count key count) h = refl
list_not_flush (list_flush key) h = refl

select_other :
    (p : AofEntry → Bool) (e : AofEntry) (es : List AofEntry)
    → p e ≡ false
    → select p (es ++ e ∷ []) ≡ select p es
select_other p e [] h = ground (arith, h)
select_other p e (x ∷ es) h = ground (arith, select_other p e es h)

pub select_own_last :
    (p : AofEntry → Bool) (e : AofEntry) (es : List AofEntry)
    → p e ≡ true
    → select p (es ++ e ∷ []) ≡ select p es ++ e ∷ []
select_own_last p e [] h = ground (arith, h)
select_own_last p e (x ∷ es) h = ground (arith, select_own_last p e es h)

logged_other :
    (e : AofEntry) (r : Outcome DbError (Unit {0})) (es : List AofEntry)
    → is_list e ≡ false
    → select is_list (logged e r es) ≡ select is_list es
logged_other e (ok a) es h = select_other is_list e es h
logged_other e (err z) es h = refl
logged_other e crash es h = refl

-- Nothing about the lists has changed, or the entry of a list has been applied and is in the file.
pub data Kept (env' : Env) (d₀ d d' : Db) : Type 0 where
  untouched : d'.list ≡ d.list → select is_list d'.aof ≡ select is_list d.aof → Kept env' d₀ d d'
  applied :
      (e : AofEntry)
      → is_list e ≡ true
      → d'.aof ≡ d.aof ++ e ∷ []
      → part env' d₀ list e d.list ≡ (ok tt, d'.list)
      → Kept env' d₀ d d'

other_store :
    (env : Env) (k : EntryCategory) (e : AofEntry) (d : Db)
    → category e ≡ k
    → is_list e ≡ false
    → (apply_aof env e d).1.list ≡ d.list
other_store env kv e d own h = ap (λ p. p.1.list) (apply_aof-part_of env d kv e d own)
other_store env log e d own h = ap (λ p. p.1.list) (apply_aof-part_of env d log e d own)
other_store env list e d own h =
    let is : is_list e ≡ true = ap (λ k. elim k as (λ _. Bool) [ list ↦ true | _ ↦ false ]) own in
    cc

flush-Kept :
    (env env' : Env) (d₀ d : Db) (db : Text) → Kept env' d₀ d (perform env (kv_flush db) d).1
unfolding perform Ops.kv_flush on_kv send
flush-Kept env env' d₀ d db = untouched refl refl

other-Kept :
    (env env' : Env) (d₀ d : Db) (e : AofEntry)
    → is_list e ≡ false
    → is_kv_flush e ≡ false
    → Kept env' d₀ d (perform env e d).1
other-Kept env env' d₀ d e h f =
    let p = (perform-apply_aof env e d f).0 in
    untouched (ap (λ x. x.list) p ∙ other_store env (category e) e d refl h)
      (ap (λ x. select is_list x.aof) p ∙ logged_other e (perform env e d).0 d.aof h)

ok_of : (r : Outcome DbError (Unit {0})) → is_ok r ≡ true → r ≡ ok tt
ok_of (ok tt) h = refl
ok_of (err e) h = cc
ok_of crash h = cc

list-Kept :
    (env env' : Env) (d₀ d : Db) (e : AofEntry)
    → is_list e ≡ true
    → env.available ≡ env'.available
    → (perform env e d).0 ≡ ok tt
    → Kept env' d₀ d (perform env e d).1
list-Kept env env' d₀ d e own same well =
    let p = perform-apply_aof env e d (list_not_flush e own) in
    let there =
      list-apply_aof env env' e d own same
      ∙ apply_aof-part_of env' d₀ list e d (category-is_of list e own) in
    applied e own (ap (λ x. x.aof) p.0 ∙ ap (λ r. logged e r d.aof) well) (λ i. (
      (sym (ap (λ x. x.0) there) ∙ p.1 ∙ ap forgotten well) i,
      (sym (ap (λ x. x.1.list) there) ∙ sym (ap (λ x. x.list) p.0)) i,
    ))

after_of :
    {A : Type 0} (r : Outcome DbError A) (d : Db)
    → (((λ _. (r, d)) >> pure {S = Db} {E = DbError} tt) d).1 ≡ d
after_of (ok a) d = refl
after_of (err e) d = refl
after_of crash d = refl

seen_after : {A : Type 0} (m : DbAction A) (d : Db) → ((m >> pure tt) d).1 ≡ (m d).1
seen_after m d = after_of (m d).0 (m d).1

read-Kept :
    {A : Type 0} (env' : Env) (d₀ d : Db) (m : DbAction A)
    → (m d).1.list ≡ d.list
    → (m d).1.aof ≡ d.aof
    → Kept env' d₀ d ((m >> pure tt) d).1
read-Kept env' d₀ d m same file =
    untouched (ap (λ x. x.list) (seen_after m d) ∙ same)
      (ap (λ x. select is_list x.aof) (seen_after m d) ∙ ap (select is_list) file)

pub both : (a b : Bool) → (a && b) ≡ true → (a ≡ true) × (b ≡ true)
both true b h = (refl, h)
both false b h = cc

flushed-Kept :
    (env env' : Env) (d₀ d : Db) (e : AofEntry)
    → is_kv_flush e ≡ true
    → Kept env' d₀ d (perform env e d).1
flushed-Kept env env' d₀ d (kv_flush db) h = flush-Kept env env' d₀ d db
flushed-Kept env env' d₀ d (kv_set db key val ttl) h = cc
flushed-Kept env env' d₀ d (kv_del db key) h = cc
flushed-Kept env env' d₀ d (log_create_group name) h = cc
flushed-Kept env env' d₀ d (log_drop_group name) h = cc
flushed-Kept env env' d₀ d (log_add group ts payload) h = cc
flushed-Kept env env' d₀ d (log_add_range group entries) h = cc
flushed-Kept env env' d₀ d (log_remove group up_to_id) h = cc
flushed-Kept env env' d₀ d (list_push key payload) h = cc
flushed-Kept env env' d₀ d (list_push_range key items) h = cc
flushed-Kept env env' d₀ d (list_pop key) h = cc
flushed-Kept env env' d₀ d (list_pop_range key start end) h = cc
flushed-Kept env env' d₀ d (list_pop_count key count) h = cc
flushed-Kept env env' d₀ d (list_flush key) h = cc

changes-Kept :
    (env env' : Env) (d₀ d : Db) (e : AofEntry)
    → env'.available ≡ true
    → list_well env (changes e) d ≡ true
    → Kept env' d₀ d (perform env e d).1
changes-Kept env env' d₀ d e memory well = elim (Bool-cases (is_list e)) [
  | inl own ↦
      let h : (env.available && is_ok (perform env e d).0) ≡ true =
        sym (ap (λ t. if t then env.available && is_ok (perform env e d).0 else true) own) ∙ well in
      let (there, went) = both env.available (is_ok (perform env e d).0) h in
      list-Kept env env' d₀ d e own (there ∙ sym memory) (ok_of (perform env e d).0 went)
  | inr other ↦ elim (Bool-cases (is_kv_flush e)) [
    | inl flush ↦ flushed-Kept env env' d₀ d e flush
    | inr logs ↦ other-Kept env env' d₀ d e other logs
  ]
]

-- One call.
pub call-Kept :
    (env env' : Env) (d₀ d : Db) (c : Call)
    → env'.available ≡ true
    → list_well env c d ≡ true
    → Kept env' d₀ d (call env c d).1
unfolding call
call-Kept env env' d₀ d (changes e) memory well = changes-Kept env env' d₀ d e memory well
call-Kept env env' d₀ d (Client.kv_get db key) memory well =
    read-Kept env' d₀ d (Ops.kv_get env db key) (unfold Ops.kv_get on_kv in refl)
      (unfold Ops.kv_get on_kv in refl)
call-Kept env env' d₀ d (Client.kv_keys db) memory well =
    read-Kept env' d₀ d (Ops.kv_keys env db) (unfold Ops.kv_keys on_kv in refl)
      (unfold Ops.kv_keys on_kv in refl)
call-Kept env env' d₀ d (Client.log_read group id) memory well =
    read-Kept env' d₀ d (Ops.log_read env group id) (unfold Ops.log_read on_groups in refl)
      (unfold Ops.log_read on_groups in refl)
call-Kept env env' d₀ d (Client.log_read_range group start end) memory well =
    read-Kept env' d₀ d (Ops.log_read_range env group start end)
      (unfold Ops.log_read_range on_groups in refl) (unfold Ops.log_read_range on_groups in refl)
call-Kept env env' d₀ d Client.log_list_groups memory well =
    read-Kept env' d₀ d (Ops.log_list_groups env) (unfold Ops.log_list_groups in refl)
      (unfold Ops.log_list_groups in refl)
call-Kept env env' d₀ d (Client.log_group_stats group) memory well =
    read-Kept env' d₀ d (Ops.log_group_stats env group)
      (unfold Ops.log_group_stats on_groups in refl) (unfold Ops.log_group_stats on_groups in refl)
call-Kept env env' d₀ d (Client.list_len key) memory well =
    read-Kept env' d₀ d (Ops.list_len env key)
      (unfold Ops.list_len on_list in list_len-same key d.list well)
      (unfold Ops.list_len on_list in refl)
