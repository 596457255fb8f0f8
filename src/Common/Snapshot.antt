-- ===== src/Common/Snapshot.antt =====
-- common.rs, `KVSnapshot`: the log snapshots that the store hands to OmniPaxos.
pub mod Create
pub mod Merge
use id2203_project.Base.{
  String, text_key, Bool, not, Option, none, some, List, [], ◌∷◌, ◌++◌, retain, if◌then◌else◌,
}
use id2203_project.Base.HashMap
use id2203_project.Base.HashMap.{HashMap}
use id2203_project.Common.Kv.{Command, KvCommand, put, delete, get}

pub record KvSnapshot : Type 0 where
  pub snapshotted : HashMap String String
  pub deleted_keys : List String

abbrev pub is_none {ℓ} : {A : Type ℓ} → Option A → Bool
is_none none = Bool.true
is_none (some a) = Bool.false

abbrev pub contains_key : HashMap String String → String → Bool
contains_key m k = not (is_none (HashMap.get k m))

-- One round of the loop over the entries.
unfoldable pub create_step : KvSnapshot → KvCommand → KvSnapshot
create_step s (put key value) = record s { snapshotted = HashMap.insert key value s.snapshotted }
create_step s (delete key) =
    let (removed, rest) = HashMap.remove key s.snapshotted in
    record {
      snapshotted = rest;
      deleted_keys = if is_none removed then s.deleted_keys ++ key ∷ [] else s.deleted_keys;
    }
create_step s (get key) = s

unfoldable pub create_loop : KvSnapshot → List Command → KvSnapshot
create_loop s [] = s
create_loop s (e ∷ entries) = create_loop (create_step s e.kv_cmd) entries

-- Keys that were put back are not deleted.
pub create : List Command → KvSnapshot
unfolding create_loop
create entries =
    let s = create_loop (record { snapshotted = []; deleted_keys = [] }) entries in
    record s { deleted_keys = retain (λ k. not (contains_key s.snapshotted k)) s.deleted_keys }

insert_all : HashMap String String → HashMap String String → HashMap String String
insert_all [] m = m
insert_all ((k, v) ∷ delta) m = insert_all delta (HashMap.insert k v m)

remove_all : List String → HashMap String String → HashMap String String
remove_all [] m = m
remove_all (k ∷ ks) m = remove_all ks (HashMap.without k m)

pub merge : KvSnapshot → KvSnapshot → KvSnapshot
unfolding insert_all remove_all
merge s delta = record {
  snapshotted = remove_all delta.deleted_keys (insert_all delta.snapshotted s.snapshotted);
  deleted_keys = [];
}
