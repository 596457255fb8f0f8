-- ===== src/Common/Snapshot/Create.antt =====
-- What `KVSnapshot::create` collects from a batch of log entries.
use id2203_project.Base.{
  String, ◌≡◌, refl, ap, ◌∙◌, Bool, false, List, [], ◌∷◌, arith, text_key, contains, retain,
  if◌then◌else◌,
}
use id2203_project.Base.HashMap.{IsDistinct, insert-IsDistinct, without-IsDistinct}
use id2203_project.Common.Kv.{Command, KvCommand, put, delete, get}
use id2203_project.Common.Spec.{empty, apply, replay, view, view-insert, view-without, view-empty}
use id2203_project.Common.Snapshot.{KvSnapshot, create_step, create_loop, create}

create_step-view :
    (s : KvSnapshot) (c : KvCommand)
    → view (create_step s c).snapshotted ≡ apply (view s.snapshotted) c
unfolding create_step
create_step-view s (put k v) = view-insert k v s.snapshotted
create_step-view s (delete k) = view-without k s.snapshotted
create_step-view s (get k) = refl

create_loop-view :
    (s : KvSnapshot) (es : List Command)
    → view (create_loop s es).snapshotted ≡ replay (view s.snapshotted) es
unfolding create_loop
create_loop-view s [] = refl
create_loop-view s (e ∷ es) =
    create_loop-view (create_step s e.kv_cmd) es
    ∙ ap (λ f. replay f es) (create_step-view s e.kv_cmd)

-- The map of a log snapshot is what its entries make of an empty store.
pub create-replay : (es : List Command) → view (create es).snapshotted ≡ replay empty es
unfolding create
create-replay es =
    create_loop-view (record { snapshotted = []; deleted_keys = [] }) es
    ∙ ap (λ f. replay f es) view-empty

create_step-IsDistinct :
    (s : KvSnapshot) (c : KvCommand)
    → IsDistinct s.snapshotted
    → IsDistinct (create_step s c).snapshotted
unfolding create_step
create_step-IsDistinct s (put k v) d = insert-IsDistinct k v s.snapshotted d
create_step-IsDistinct s (delete k) d = without-IsDistinct k s.snapshotted d
create_step-IsDistinct s (get k) d = d

create_loop-IsDistinct :
    (s : KvSnapshot) (es : List Command)
    → IsDistinct s.snapshotted
    → IsDistinct (create_loop s es).snapshotted
unfolding create_loop
create_loop-IsDistinct s [] d = d
create_loop-IsDistinct s (e ∷ es) d =
    create_loop-IsDistinct (create_step s e.kv_cmd) es (create_step-IsDistinct s e.kv_cmd d)

pub create-IsDistinct : (es : List Command) → IsDistinct (create es).snapshotted
unfolding create
create-IsDistinct es = create_loop-IsDistinct (record { snapshotted = []; deleted_keys = [] }) es tt

pub contains-retain :
    (p : String → Bool) (k : String) (ks : List String)
    → contains k (retain p ks) ≡ (if p k then contains k ks else false)
contains-retain p k [] = ground arith
contains-retain p k (x ∷ ks) = ground (arith, text_key.decides x k, contains-retain p k ks, ap p)
