-- ===== src/Common/Snapshot/Merge.antt =====
-- When merging the snapshot of a batch of entries gives the same as executing the batch.
use id2203_project.Base.{
  String, ◌≡◌, refl, ap, Bool, true, false, ◌||◌, not, Option, none, some, List, [], ◌∷◌, ◌++◌,
  arith, ◌==◌, text_key, contains, retain, if◌then◌else◌,
}
use id2203_project.Base.HashMap
use id2203_project.Base.HashMap.{HashMap, IsDistinct, get-insert, get-without}
use id2203_project.Common.Kv.{Command, KvCommand, put, delete, get}
use id2203_project.Common.Spec.{Store, apply, replay, view}
use id2203_project.Common.Snapshot.{
  KvSnapshot, is_none, create_step, create_loop, create, insert_all, remove_all, merge,
  contains_key,
}
use id2203_project.Common.Snapshot.Create.{create-IsDistinct, contains-retain}

-- What a batch has done to one key: nothing; put it last; deleted it last, and some delete found it
-- absent from the batch; put it last after such a delete; deleted it last, each delete after a put.
pub data KeyTrace : Type 0 where
  unseen live gone relive forgotten : KeyTrace

abbrev after_put : KeyTrace → KeyTrace
after_put unseen = live
after_put live = live
after_put gone = relive
after_put relive = relive
after_put forgotten = live

abbrev after_delete : KeyTrace → KeyTrace
after_delete live = forgotten
after_delete _ = gone

abbrev trace_step : String → KeyTrace → KvCommand → KeyTrace
trace_step k t (put j v) = if j == k then after_put t else t
trace_step k t (delete j) = if j == k then after_delete t else t
trace_step k t (get j) = t

unfoldable pub trace : String → KeyTrace → List Command → KeyTrace
trace k t [] = t
trace k t (e ∷ es) = trace k (trace_step k t e.kv_cmd) es

abbrev is_forgotten : KeyTrace → Bool
is_forgotten forgotten = true
is_forgotten _ = false

-- The batch ends with the key deleted, and every delete of it came after a put of the same batch.
unfoldable pub forgets : String → List Command → Bool
forgets k es = is_forgotten (trace k unseen es)

-- How the loop's state and the executed store stand at the key, for each trace.
abbrev Matches : String → Store → KeyTrace → KvSnapshot → Store → Type 0
Matches k f unseen s g =
    (HashMap.get k s.snapshotted ≡ none) × (contains k s.deleted_keys ≡ false) × (g k ≡ f k)
Matches k f live s g =
    (is_none (HashMap.get k s.snapshotted) ≡ false)
    × (contains k s.deleted_keys ≡ false)
    × (g k ≡ HashMap.get k s.snapshotted)
Matches k f gone s g =
    (HashMap.get k s.snapshotted ≡ none) × (contains k s.deleted_keys ≡ true) × (g k ≡ none)
Matches k f relive s g =
    (is_none (HashMap.get k s.snapshotted) ≡ false)
    × (contains k s.deleted_keys ≡ true)
    × (g k ≡ HashMap.get k s.snapshotted)
Matches k f forgotten s g =
    (HashMap.get k s.snapshotted ≡ none) × (contains k s.deleted_keys ≡ false) × (g k ≡ none)

contains-snoc :
    (k j : String) (ks : List String) → contains k (ks ++ j ∷ []) ≡ (contains k ks || (j == k))
contains-snoc k j [] = ground arith
contains-snoc k j (x ∷ ks) = ground (arith, contains-snoc k j ks)

create_step-Matches :
    (k : String) (f : Store) (t : KeyTrace) (s : KvSnapshot) (g : Store) (c : KvCommand)
    → Matches k f t s g
    → Matches k f (trace_step k t c) (create_step s c) (apply g c)
unfolding create_step
create_step-Matches k f unseen s g (get j) h = h
create_step-Matches k f _ s g (get j) h = h
create_step-Matches k f _ s g (put j v) h =
    ground (arith, text_key.decides j k, get-insert j k v s.snapshotted)
create_step-Matches k f _ s g (delete j) h =
    ground
      (arith, text_key.decides j k, get-without j k s.snapshotted, contains-snoc k j s.deleted_keys)

create_loop-Matches :
    (k : String) (f : Store) (t : KeyTrace) (s : KvSnapshot) (g : Store) (es : List Command)
    → Matches k f t s g
    → Matches k f (trace k t es) (create_loop s es) (replay g es)
unfolding trace create_loop
create_loop-Matches k f t s g [] h = h
create_loop-Matches k f t s g (e ∷ es) h =
    create_loop-Matches k f (trace_step k t e.kv_cmd) (create_step s e.kv_cmd) (apply g e.kv_cmd) es
      (create_step-Matches k f t s g e.kv_cmd h)

abbrev or_else {ℓ} : {A : Type ℓ} → Option A → Option A → Option A
or_else none b = b
or_else (some a) b = some a

get-insert_all :
    (k : String) (delta m : HashMap String String)
    → IsDistinct delta
    → HashMap.get k (insert_all delta m) ≡ or_else (HashMap.get k delta) (HashMap.get k m)
unfolding insert_all HashMap.get
get-insert_all k [] m d = refl
get-insert_all k ((j, v) ∷ delta) m d = ground (
  arith,
  text_key.decides j k,
  get-insert j k v m,
  get-insert_all k delta (HashMap.insert j v m) d.1,
  ap (λ i. HashMap.get i delta),
)

get-remove_all :
    (k : String) (ks : List String) (m : HashMap String String)
    → HashMap.get k (remove_all ks m) ≡ (if contains k ks then none else HashMap.get k m)
unfolding remove_all
get-remove_all k [] m = refl
get-remove_all k (j ∷ ks) m =
    ground
      (arith, text_key.decides j k, get-without j k m, get-remove_all k ks (HashMap.without j m))

module _ (k : String) (f : Store) (s b : KvSnapshot) where
  abbrev kept : String → Bool
  kept j = not (contains_key s.snapshotted j)

  -- The map after merging what `create` makes of the loop's state.
  merged-get :
      IsDistinct s.snapshotted
      → HashMap.get k (merge b (record s { deleted_keys = retain kept s.deleted_keys })).snapshotted
        ≡ (if (if kept k then contains k s.deleted_keys else false)
            then none
            else or_else (HashMap.get k s.snapshotted) (HashMap.get k b.snapshotted))
  unfolding merge
  merged-get d = rw (
    get-remove_all k (retain kept s.deleted_keys) (insert_all s.snapshotted b.snapshotted),
    contains-retain kept k s.deleted_keys,
    get-insert_all k s.snapshotted b.snapshotted d,
  )

  merged-Matches :
      (t : KeyTrace) (g : Store)
      → IsDistinct s.snapshotted
      → f k ≡ HashMap.get k b.snapshotted
      → Matches k f t s g
      → HashMap.get k (merge b (record s { deleted_keys = retain kept s.deleted_keys })).snapshotted
        ≡ (if is_forgotten t then HashMap.get k b.snapshotted else g k)
  merged-Matches unseen g d e h = ground (arith, merged-get d)
  merged-Matches live g d e h = ground (arith, merged-get d)
  merged-Matches gone g d e h = ground (arith, merged-get d)
  merged-Matches relive g d e h = ground (arith, merged-get d)
  merged-Matches forgotten g d e h = ground (arith, merged-get d)

-- Merging the snapshot of a batch into a snapshot has the effect of executing the batch at each
-- key, unless the batch forgets the key: then the key keeps the value that it had before.
pub merge-create :
    (b : KvSnapshot) (es : List Command) (k : String)
    → view (merge b (create es)).snapshotted k
      ≡ (if forgets k es then view b.snapshotted k else replay (view b.snapshotted) es k)
unfolding create forgets view HashMap.get
merge-create b es k =
    merged-Matches k (view b.snapshotted) (create_loop start es) b (trace k unseen es)
      (replay (view b.snapshotted) es) (create-IsDistinct es) refl
      (create_loop-Matches k (view b.snapshotted) unseen start (view b.snapshotted) es
        (refl, refl, refl))
  where
    start : KvSnapshot
    start = record { snapshotted = []; deleted_keys = [] }

-- If a snapshot holds a value at a key, merging into it the snapshot of a batch that puts the key
-- and then deletes it leaves the old value, while executing the batch leaves the key absent.
pub merge_resurrects :
    (b : KvSnapshot) (k v w : String) (p d : Command)
    → p.kv_cmd ≡ put k v
    → d.kv_cmd ≡ delete k
    → view b.snapshotted k ≡ some w
    → (view (merge b (create (p ∷ d ∷ []))).snapshotted k ≡ some w)
      × (replay (view b.snapshotted) (p ∷ d ∷ []) k ≡ none)
unfolding forgets trace
merge_resurrects b k v w p d ep ed h =
    ground (arith, ep, ed, text_key.decides k k, merge-create b (p ∷ d ∷ []) k)
