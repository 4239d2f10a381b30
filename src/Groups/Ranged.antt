-- ===== src/Groups/Ranged.antt =====
-- `read_range` of a group against the entries of its log (server/src/db/groups.rs).
use segmented_memory_storage.Common.{
  ℕ, zero, suc, ◌+◌, ◌-◌, ◌*◌, ◌%◌, ◌^◌, ◌≤◌, ◌<◌, ◌≡◌, refl, ap, sym, ◌∙◌, Bool, true, false, ◌&&◌,
  Option, none, some, List, [], ◌∷◌, arith, length, ltb, ◌==◌, if◌then◌else◌, Bool-cases,
  Option-cases, inl, inr, le→ltb,
}
use segmented_memory_storage.Common.Outcome.{ok, crash, bind_ok, pure, ◌>>=◌}
use segmented_memory_storage.Common.Texts.{Text}
use segmented_memory_storage.SegLog.State.{LogEntry}
use segmented_memory_storage.SegLog.Stored.{Entry, ids_between}
use segmented_memory_storage.SegLog.Read.{read_range-ids_between}
use segmented_memory_storage.SegLog
use segmented_memory_storage.Groups.State.{Group}
use segmented_memory_storage.Groups.Ops.{
  GroupAction, from_log, row, ask_log, cache_get, cached_from,
}
use segmented_memory_storage.Groups.Cached.{Coherent, Leaves, Looked, cache_get-Looked}
use segmented_memory_storage.Groups.Window.{window, window_none, window-ids_between, window_next}

-- What the loop of `read_range` does to a group.
record Loops (build_key : Text → ℕ → ℕ) (now : ℕ) (g : Group) (es : List Entry) (id count : ℕ)
    : Type 0 where
  rows : List Entry
  all_cached : Bool
  after : Group
  ends : cached_from build_key now id count g ≡ (ok (rows, all_cached), after)
  coherent : Coherent build_key after es
  same_name : after.name ≡ g.name
  same_log : after.log ≡ g.log
  right : all_cached ≡ true → rows ≡ window id count es

module _ (build_key : Text → ℕ → ℕ) (now : ℕ) where
  -- No id of the log shares its key with another of the range.
  abbrev pub Alone : Group → ℕ → ℕ → Type 0
  Alone g id count =
      (i k : ℕ)
      → i < g.log.next_id
      → k < count
      → build_key g.name i ≡ build_key g.name (id + k)
      → i ≡ id + k

  looked :
      (g : Group) (es : List Entry) (c : Coherent build_key g es) (id count : ℕ)
      → Alone g id (suc count)
      → Looked build_key now g es c id
  looked g es c id count alone = cache_get-Looked build_key now g es c id (λ i h e.
      let zero_more : id + 0 ≡ id = omega arith in
      alone i 0 h (omega arith) (e ∙ ap (build_key g.name) (sym zero_more)) ∙ zero_more)

  Alone-after :
      (g g' : Group) (id count : ℕ)
      → g'.name ≡ g.name
      → g'.log ≡ g.log
      → Alone g id (suc count)
      → Alone g' (id + 1) count
  Alone-after g g' id count same_name same_log alone i k below inside e =
      let further : id + suc k ≡ id + 1 + k = omega arith in
      let next : g'.log.next_id ≡ g.log.next_id = ap (λ log. log.next_id) same_log in
      alone i (suc k) (omega (arith, below, next)) (omega (arith, inside)) (
        ap (λ name. build_key name i) (sym same_name)
        ∙ e
        ∙ ap (λ name. build_key name (id + 1 + k)) same_name
        ∙ ap (build_key g.name) (sym further))
      ∙ further

  loops :
      (g : Group) (es : List Entry) (id count : ℕ)
      → Coherent build_key g es
      → Alone g id count
      → Loops build_key now g es id count
  unfolding cached_from
  loops g es id zero c alone = record {
    rows = [];
    all_cached = true;
    after = g;
    ends = refl;
    coherent = c;
    same_name = refl;
    same_log = refl;
    right = λ _. sym (window_none id es);
  }
  loops g es id (suc count) c alone =
      let k = looked g es c id count alone in
      let rest =
        loops k.after es (id + 1) count k.coherent
          (Alone-after g k.after id count k.same_name k.same_log alone) in
      let next : Option LogEntry → GroupAction (List Entry × Bool) = λ hit. elim hit [
        | none ↦ pure ([], false)
        | some entry ↦
            cached_from build_key now (id + 1) count >>= λ rest. pure (row entry ∷ rest.0, rest.1)
      ] in
      elim (Option-cases k.answer) [
        | inl missing ↦ record {
          rows = [];
          all_cached = false;
          after = k.after;
          ends =
              bind_ok (cache_get build_key now id) next g none k.after
                (k.ends ∙ ap (λ o. (ok o, k.after)) missing);
          coherent = k.coherent;
          same_name = k.same_name;
          same_log = k.same_log;
          right = λ h. cc;
        }
        | inr (v, there) ↦ record {
          rows = row v ∷ rest.rows;
          all_cached = rest.all_cached;
          after = rest.after;
          ends =
              bind_ok (cache_get build_key now id) next g (some v) k.after
                (k.ends ∙ ap (λ o. (ok o, k.after)) there)
              ∙ bind_ok (cached_from build_key now (id + 1) count) (λ r. pure (row v ∷ r.0, r.1))
                  k.after (rest.rows, rest.all_cached) rest.after rest.ends;
          coherent = rest.coherent;
          same_name = rest.same_name ∙ k.same_name;
          same_log = rest.same_log ∙ k.same_log;
          right = λ h.
              ap (λ xs. row v ∷ xs) (rest.right h)
              ∙ sym (
                  window_next g.log.segs _ _ _ _ id count g.log.idx es (row v) c.logged.stored
                    (k.right v there));
        }
      ]

  -- What `read_range` does with what was cached.
  abbrev range_past : ℕ → ℕ → ℕ → List Entry × Bool → GroupAction (List Entry)
  range_past start end range_len cached =
      if cached.1 && length cached.0 == range_len
      then pure cached.0
      else ask_log (λ log. SegLog.Ops.read_range log start end)

  range_past_lem :
      (start end range_len : ℕ) (rows : List Entry) (all_cached : Bool) (g : Group)
      (es : List Entry)
      → start ≤ end
      → Coherent build_key g es
      → (all_cached ≡ true → rows ≡ ids_between start end es)
      → range_past start end range_len (rows, all_cached) g ≡ (ok (ids_between start end es), g)
  unfolding ask_log
  range_past_lem start end range_len rows all_cached g es h c right =
      let logged : SegLog.Ops.read_range g.log start end ≡ ok (ids_between start end es) =
        read_range-ids_between g.log es c.logged start end
        ∙ ap (λ t. if t then crash else ok (ids_between start end es)) (le→ltb end start h) in
      elim (Bool-cases (all_cached && length rows == range_len)) [
        | inl all ↦ rw all (ap (λ xs. (ok xs, g)) (right (ground (arith, all))))
        | inr some_missing ↦ rw some_missing (ap (λ o. (from_log o, g)) logged)
      ]

  -- What `read_range` does to a group.
  abbrev pub ranges : ℕ → ℕ → GroupAction (List Entry)
  ranges start end =
      let range_len = (end + (2 ^ 64 - start) + 1) % 2 ^ 64 in
      if ltb (2 ^ 63 - 1) (range_len * 40)
      then (λ g. (crash, g))
      else cached_from build_key now start (suc end - start) >>= range_past start end range_len

  fits_vector :
      (start end : ℕ)
      → start ≤ end
      → end < 2 ^ 57
      → ltb (2 ^ 63 - 1) ((end + (2 ^ 64 - start) + 1) % 2 ^ 64 * 40) ≡ false
  fits_vector start end h small =
      let len : (end + (2 ^ 64 - start) + 1) % 2 ^ 64 ≡ end + 1 - start = omega (arith, h, small) in
      ap (λ n. ltb (2 ^ 63 - 1) (n * 40)) len
      ∙ le→ltb (2 ^ 63 - 1) ((end + 1 - start) * 40) (omega (arith, small))

  pub ranges-Leaves :
      (g : Group) (es : List Entry) (start end : ℕ)
      → Coherent build_key g es
      → start ≤ end
      → end < 2 ^ 57
      → Alone g start (suc end - start)
      → Leaves build_key g (ranges start end g) (ok (ids_between start end es)) g.log.next_id es
  ranges-Leaves g es start end c h small alone =
      let range_len = (end + (2 ^ 64 - start) + 1) % 2 ^ 64 in
      let count = suc end - start in
      let loop = loops g es start count c alone in
      let past = range_past start end range_len in
      record {
        after = loop.after;
        ends =
            ap
              (λ t.
                (if t then (λ x. (crash, x)) else cached_from build_key now start count >>= past) g)
              (fits_vector start end h small)
            ∙ bind_ok (cached_from build_key now start count) past g (loop.rows, loop.all_cached)
                loop.after loop.ends
            ∙ range_past_lem start end range_len loop.rows loop.all_cached loop.after es h
                loop.coherent (λ a. loop.right a ∙ window-ids_between start end es h);
        coherent = loop.coherent;
        same_name = loop.same_name;
        next_is = ap (λ log. log.next_id) loop.same_log;
        few = omega (arith, ap (λ log. length log.segs) loop.same_log);
      }
