-- ===== src/Base/HashMap.antt =====
-- `std::collections::HashMap`. Entries are held in some order; the functions that iterate are
-- given that order, and what the laws below say of a map does not depend on it.
use mathlib.Core.List.{List, [], ◌∷◌}
use mathlib.Core.Option.{Option, none, some}
use mathlib.Core.Path.{◌≡◌, refl}
use native.Mathlib.Omega.{arith}
use id2203_project.Base.Tests.{Key, ◌==◌, if◌then◌else◌}

abbrev pub HashMap {ℓ κ} : Type ℓ → Type κ → Type (ℓ ⊔ κ)
HashMap K V = List (K × V)

module _ {ℓ κ} {K : Type ℓ} {V : Type κ} ⦃e : Key K⦄ where
  unfoldable pub get : K → HashMap K V → Option V
  get k [] = none
  get k ((j, v) ∷ m) = if j == k then some v else get k m

  unfoldable pub insert : K → V → HashMap K V → HashMap K V
  insert k v [] = (k, v) ∷ []
  insert k v ((j, w) ∷ m) = if j == k then (k, v) ∷ m else (j, w) ∷ insert k v m

  -- The map after `remove`; the value that `remove` returns is `get k m`.
  unfoldable pub without : K → HashMap K V → HashMap K V
  without k [] = []
  without k ((j, v) ∷ m) = let rest = without k m in if j == k then rest else (j, v) ∷ rest

  abbrev pub remove : K → HashMap K V → Option V × HashMap K V
  remove k m = (get k m, without k m)

  pub get-insert :
      (k j : K) (v : V) (m : HashMap K V)
      → get j (insert k v m) ≡ (if k == j then some v else get j m)
  unfolding get insert
  get-insert k j v [] = refl
  get-insert k j v ((i, w) ∷ m) =
      ground (arith, e.decides k j, e.decides i k, e.decides i j, get-insert k j v m)

  pub get-without :
      (k j : K) (m : HashMap K V) → get j (without k m) ≡ (if k == j then none else get j m)
  unfolding get without
  get-without k j [] = ground arith
  get-without k j ((i, w) ∷ m) =
      ground (arith, e.decides k j, e.decides i k, e.decides i j, get-without k j m)

  -- No key stands in two entries.
  abbrev pub IsDistinct : HashMap K V → Type κ
  IsDistinct [] = Unit
  IsDistinct ((k, v) ∷ m) = (get k m ≡ none) × IsDistinct m

  pub insert-IsDistinct :
      (k : K) (v : V) (m : HashMap K V) → IsDistinct m → IsDistinct (insert k v m)
  unfolding insert get
  insert-IsDistinct k v [] d = (refl, d)
  insert-IsDistinct k v ((j, w) ∷ m) d =
      ground (arith, e.decides j k, e.decides k j, get-insert k j v m, insert-IsDistinct k v m d.1)

  pub without-IsDistinct : (k : K) (m : HashMap K V) → IsDistinct m → IsDistinct (without k m)
  unfolding without
  without-IsDistinct k [] d = d
  without-IsDistinct k ((j, w) ∷ m) d =
      ground (arith, e.decides k j, get-without k j m, without-IsDistinct k m d.1)

pub ruleset map_laws = (get-insert, get-without)
