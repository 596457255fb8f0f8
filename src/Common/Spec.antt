-- ===== src/Common/Spec.antt =====
-- The sequential key-value store that the replicated log stands for: a function from keys to
-- values, the effect of each command on it, and the answer that a command gets.
use id2203_project.Base.{
  ℕ, String, text_key, ◌≡◌, refl, fun_ext, Option, none, some, List, [], ◌∷◌, ◌++◌, ◌==◌,
  if◌then◌else◌,
}
use id2203_project.Base.HashMap
use id2203_project.Base.HashMap.{HashMap, get-insert, get-without}
use id2203_project.Common.Kv.{Command, KvCommand, put, delete, get}
use id2203_project.Common.Messages.{ServerMessage, write, read}

abbrev pub Store : Type 0
Store = String → Option String

abbrev pub empty : Store
empty k = none

abbrev pub apply : Store → KvCommand → Store
apply f (put k v) = λ j. if k == j then some v else f j
apply f (delete k) = λ j. if k == j then none else f j
apply f (get k) = f

abbrev pub respond : Store → ℕ → KvCommand → ServerMessage
respond f id (put k v) = write id
respond f id (delete k) = write id
respond f id (get k) = read id (f k)

abbrev pub replay : Store → List Command → Store
replay f [] = f
replay f (c ∷ cs) = replay (apply f c.kv_cmd) cs

pub replay-append :
    (f : Store) (xs ys : List Command) → replay f (xs ++ ys) ≡ replay (replay f xs) ys
replay-append f [] ys = refl
replay-append f (x ∷ xs) ys = replay-append (apply f x.kv_cmd) xs ys

-- What a reader of a map can see.
unfoldable pub view : HashMap String String → Store
view m k = HashMap.get k m

pub view-insert :
    (k v : String) (m : HashMap String String)
    → view (HashMap.insert k v m) ≡ apply (view m) (put k v)
unfolding view
view-insert k v m = fun_ext (λ j. get-insert k j v m)

pub view-without :
    (k : String) (m : HashMap String String)
    → view (HashMap.without k m) ≡ apply (view m) (delete k)
unfolding view
view-without k m = fun_ext (λ j. get-without k j m)

pub view-empty : view [] ≡ empty
unfolding view HashMap.get
view-empty = refl
