-- ===== src/Groups/Runs.antt =====
-- Calls on one group of a manager, one after another (server/src/db/groups.rs), against a plain list
-- of entries without a cache.
use segmented_memory_storage.Common.{
  ℕ, ◌+◌, ◌≤◌, ◌<◌, ◌^◌, ◌≡◌, refl, ap, sym, ◌∙◌, true, none, some, List, [], ◌∷◌, ◌++◌, arith,
  length, All, leb, if◌then◌else◌, inr, dec_lt, le→leb, lt→leb,
}
use segmented_memory_storage.Common.HashMap
use segmented_memory_storage.Common.HashMap.{lookup-insert}
use segmented_memory_storage.Common.Outcome.{Outcome, ok, err}
use segmented_memory_storage.Common.Texts.{Text, text_eq_refl}
use segmented_memory_storage.Segment.{segment_size, header_size}
use segmented_memory_storage.SegLog.State.{entry_too_large, max_segments}
use segmented_memory_storage.SegLog.Stored.{Entry, find_id, ids_between, ids_from}
use segmented_memory_storage.SegLog.Read.{found}
use segmented_memory_storage.SegLog.History.{new-Represents}
use segmented_memory_storage.Lru
use segmented_memory_storage.Groups.State.{GroupError, log_error, Group, GroupManager}
use segmented_memory_storage.Groups.Ops.{
  GroupAction, from_log, with_group, new_group, create_group, add, read, read_range, remove,
  append_one,
}
use segmented_memory_storage.Groups.Cached.{Coherent, Leaves, reads, reads-Leaves}
use segmented_memory_storage.Groups.Ranged.{ranges, ranges-Leaves}
use segmented_memory_storage.Groups.Written.{
  append_one-Leaves, append_one_too_large, removes, removes-Leaves,
}

-- A call of a method, with what the clock says in it, and what it returns.
pub data Call : Type 0 where
  add_at : ℕ → ℕ → List ℕ → Call
  read_at : ℕ → ℕ → Call
  range_at : ℕ → ℕ → ℕ → Call
  remove_at : ℕ → ℕ → Call

pub data Reply : Type 0 where
  added : Outcome GroupError ℕ → Reply
  was_read : Outcome GroupError (ℕ × ℕ × List ℕ) → Reply
  were_read : Outcome GroupError (List Entry) → Reply
  was_removed : Outcome GroupError (Unit {0}) → Reply

-- What the calls must keep to: timestamps of 64 bits, and ids below `n`, those of a range in order and
-- below 2^57.
abbrev pub Fits : ℕ → Call → Type 0
Fits n (add_at now ts payload) = ts < 2 ^ 64
Fits n (read_at now id) = id < n
Fits n (range_at now start end) = (start ≤ end) × (end < n) × (end < 2 ^ 57)
Fits n (remove_at now up_to_id) = Unit

-- The next id and the entries, and what a call returns.
abbrev pub listed : ℕ × List Entry → Call → Reply × (ℕ × List Entry)
listed (n, es) (add_at now ts payload) =
    if leb (header_size + length payload) segment_size
    then (added (ok n), (n + 1, es ++ (n, ts, payload) ∷ []))
    else (added (err (log_error entry_too_large)), (n, es))
listed (n, es) (read_at now id) = (was_read (from_log (found (find_id id es))), (n, es))
listed (n, es) (range_at now start end) = (were_read (ok (ids_between start end es)), (n, es))
listed (n, es) (remove_at now up_to_id) = (was_removed (ok tt), (n, ids_from up_to_id es))

abbrev pub listed_replies : List Call → ℕ × List Entry → List Reply
listed_replies [] h = []
listed_replies (c ∷ cs) h = let (a, h') = listed h c in a ∷ listed_replies cs h'

module _ (build_key : Text → ℕ → ℕ) (group : Text) where
  abbrev pub perform : Call → GroupManager → Reply × GroupManager
  perform (add_at now ts payload) s =
      let (r, s') = add build_key now true group ts payload s in (added r, s')
  perform (read_at now id) s = let (r, s') = read build_key now group id s in (was_read r, s')
  perform (range_at now start end) s =
      let (r, s') = read_range build_key now group start end s in (were_read r, s')
  perform (remove_at now up_to_id) s =
      let (r, s') = remove build_key now group up_to_id s in (was_removed r, s')

  abbrev pub replies : List Call → GroupManager → List Reply
  replies [] s = []
  replies (c ∷ cs) s = let (a, s') = perform c s in a ∷ replies cs s'

  -- The group that the calls are about.
  record At (s : GroupManager) (g : Group) (es : List Entry) : Type 0 where
    looked_up : HashMap.lookup group s.groups ≡ some g
    named : g.name ≡ group
    coherent : Coherent build_key g es

  -- One call, which keeps to the list.
  record Performs (c : Call) (s : GroupManager) (g : Group) (es : List Entry) : Type 0 where
    after : GroupManager
    left : Group
    ends : perform c s ≡ ((listed (g.log.next_id, es) c).0, after)
    at : At after left (listed (g.log.next_id, es) c).1.1
    next_is : left.log.next_id ≡ (listed (g.log.next_id, es) c).1.0
    few : length left.log.segs ≤ length g.log.segs + 1
    near : left.log.next_id ≤ g.log.next_id + 1

  with_group_lem :
      {A : Type 0} (m : GroupAction A) (s : GroupManager) (g g' : Group) (r : Outcome GroupError A)
      → HashMap.lookup group s.groups ≡ some g
      → m g ≡ (r, g')
      → with_group group m s ≡ (r, record s { groups = HashMap.insert group g' s.groups })
  unfolding with_group
  with_group_lem m s g g' r h e =
      rw (with_group, h) refl
      ∙ ap (λ p. (p.0, record s { groups = HashMap.insert group p.1 s.groups })) e

  -- A call of a method of the group by its name.
  Performs-Leaves :
      {A : Type 0} (c : Call) (s : GroupManager) (g : Group) (es es' : List Entry) (n : ℕ)
      (reply : Outcome GroupError A → Reply) (m : GroupAction A) (r : Outcome GroupError A)
      → At s g es
      → ((o : Outcome GroupError A) (s' : GroupManager)
          → with_group group m s ≡ (o, s')
          → perform c s ≡ (reply o, s'))
      → listed (g.log.next_id, es) c ≡ (reply r, (n, es'))
      → n ≤ g.log.next_id + 1
      → Leaves build_key g (m g) r n es'
      → Performs c s g es
  Performs-Leaves c s g es es' n reply m r a calls lists near l =
      let s' : GroupManager = record s { groups = HashMap.insert group l.after s.groups } in
      record {
        after = s';
        left = l.after;
        ends =
            calls r s' (with_group_lem m s g l.after r a.looked_up l.ends)
            ∙ ap (λ p. (p.0, s')) (sym lists);
        at = record {
          looked_up =
              lookup-insert group group l.after s.groups
              ∙ ap (λ t. if t then some l.after else HashMap.lookup group s.groups)
                  (text_eq_refl group);
          named = l.same_name ∙ a.named;
          coherent = rw lists l.coherent;
        };
        next_is = l.next_is ∙ ap (λ p. p.1.0) (sym lists);
        few = l.few;
        near = omega (arith, near, l.next_is);
      }

  perform-Performs :
      (n : ℕ) (c : Call) (s : GroupManager) (g : Group) (es : List Entry)
      → ((i j : ℕ) → i < n → j < n → build_key group i ≡ build_key group j → i ≡ j)
      → At s g es
      → Fits n c
      → g.log.next_id < n
      → n < 2 ^ 64
      → length g.log.segs < max_segments
      → Performs c s g es
  unfolding add read read_range remove
  perform-Performs n (add_at now ts payload) s g es apart a fits below wide room =
      let m = append_one build_key now true ts payload in
      let calls : (o : Outcome GroupError ℕ) (s' : GroupManager)
          → with_group group m s ≡ (o, s')
          → perform (add_at now ts payload) s ≡ (added o, s') =
        λ o s' h. ap (λ p. (added p.0, p.1)) h in
      elim (dec_lt segment_size (header_size + length payload)) [
        | yes large ↦
            Performs-Leaves (add_at now ts payload) s g es es g.log.next_id added m
              (err (log_error entry_too_large)) a calls (rw (lt→leb _ _ large) refl) (omega arith)
              (append_one_too_large build_key now g es a.coherent ts payload large)
        | no small ↦
            Performs-Leaves (add_at now ts payload) s g es _ (g.log.next_id + 1) added m
              (ok g.log.next_id) a calls
              (rw (le→leb (header_size + length payload) segment_size (omega (arith, small))) refl)
              (omega arith)
              (append_one-Leaves build_key now g es a.coherent ts payload (omega (arith, small))
                (inr (inr (refl, room))) fits (omega (arith, below, wide)))
      ]
  perform-Performs n (read_at now id) s g es apart a fits below wide room =
      Performs-Leaves (read_at now id) s g es es g.log.next_id was_read
        (reads build_key now g es a.coherent id) (from_log (found (find_id id es))) a
        (λ o s' h. ap (λ p. (was_read p.0, p.1)) h) refl (omega arith)
        (reads-Leaves build_key now g es a.coherent id (λ i h e.
          apart i id (omega (arith, h, below)) fits (
            ap (λ name. build_key name i) (sym a.named)
            ∙ e
            ∙ ap (λ name. build_key name id) a.named)))
  perform-Performs n (range_at now start end) s g es apart a fits below wide room =
      Performs-Leaves (range_at now start end) s g es es g.log.next_id were_read
        (ranges build_key now start end) (ok (ids_between start end es)) a
        (λ o s' h. ap (λ p. (were_read p.0, p.1)) h) refl (omega arith)
        (ranges-Leaves build_key now g es start end a.coherent fits.0 fits.2 (λ i k h inside e.
          apart i (start + k) (omega (arith, h, below)) (omega (arith, inside, fits)) (
            ap (λ name. build_key name i) (sym a.named)
            ∙ e
            ∙ ap (λ name. build_key name (start + k)) a.named)))
  perform-Performs n (remove_at now up_to_id) s g es apart a fits below wide room =
      Performs-Leaves (remove_at now up_to_id) s g es (ids_from up_to_id es) g.log.next_id
        was_removed (removes build_key now g es a.coherent up_to_id) (ok tt) a
        (λ o s' h. ap (λ p. (was_removed p.0, p.1)) h) refl (omega arith)
        (removes-Leaves build_key now g es a.coherent up_to_id)

  replies_from :
      (n : ℕ) (cs : List Call) (s : GroupManager) (g : Group) (es : List Entry)
      → ((i j : ℕ) → i < n → j < n → build_key group i ≡ build_key group j → i ≡ j)
      → At s g es
      → All (Fits n) cs
      → g.log.next_id + length cs ≤ n
      → n < 2 ^ 64
      → length g.log.segs + length cs ≤ max_segments
      → replies cs s ≡ listed_replies cs (g.log.next_id, es)
  replies_from n [] s g es apart a fits below wide room = refl
  replies_from n (c ∷ cs) s g es apart a fits below wide room =
      let p =
        perform-Performs n c s g es apart a fits.0 (omega (arith, below)) wide
          (omega (arith, room)) in
      let (x, h) = listed (g.log.next_id, es) c in
      ap (λ q. q.0 ∷ replies cs q.1) p.ends
      ∙ ap (λ zs. x ∷ zs)
          (replies_from n cs p.after p.left h.1 apart p.at fits.1 (omega (arith, below, p.near))
            wide (omega (arith, room, p.few)))
      ∙ ap (λ k. x ∷ listed_replies cs (k, h.1)) p.next_is

  -- After the creation of a group, every call on it returns what a list of its entries does, as if
  -- there were no cache, whatever the clock says: an append the next id, or that the entry is too
  -- large; a read the entry of the id, or that there is none; a read of a range the entries in it; a
  -- removal nothing. No two ids below `n` have the same key in the cache; every id that is read is
  -- below `n`, as are those that the appends can give; a range is in order, with its end below 2^57;
  -- timestamps have 64 bits, and segments last.
  pub replies-listed_replies :
      (n : ℕ) (cs : List Call) (s : GroupManager)
      → HashMap.lookup group s.groups ≡ none
      → ((i j : ℕ) → i < n → j < n → build_key group i ≡ build_key group j → i ≡ j)
      → All (Fits n) cs
      → 1 + length cs ≤ n
      → n < 2 ^ 64
      → 8 + length cs ≤ max_segments
      → replies cs (create_group true group s).1 ≡ listed_replies cs (1, [])
  unfolding create_group Lru.Ops.new
  replies-listed_replies n cs s missing apart fits below wide room =
      let (log, made, logged, next, segs) = new-Represents in
      let g = new_group group log in
      let s' : GroupManager = record s { groups = HashMap.insert group g s.groups } in
      let created : create_group true group s ≡ (ok tt, s') = ground (arith, missing, made) in
      ap (λ p. replies cs p.1) created
      ∙ replies_from n cs s' g [] apart
          (record {
            looked_up =
                lookup-insert group group g s.groups
                ∙ ap (λ t. if t then some g else HashMap.lookup group s.groups)
                    (text_eq_refl group);
            named = refl;
            coherent = record {
              nodes = [];
              logged = logged;
              cached = Lru.Inserts.new-Represents 100000 30000000000 (omega arith);
              positive = omega arith;
              backed = tt;
            };
          })
          fits (omega (arith, below, next)) wide (omega (arith, room, segs))
      ∙ ap (λ k. listed_replies cs (k, [])) next
