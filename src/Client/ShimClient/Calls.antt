-- ===== src/Client/ShimClient/Calls.antt =====
-- The calls that a client knows of: those it has answered and those that wait. How its maps of
-- waiting calls change them.
use id2203_project.Base.{
  ℕ, ◌+◌, id_key, String, ◌≡◌, refl, ap, ◌∙◌, Option, none, some, List, [], ◌∷◌, ◌++◌, map, arith,
  ◌==◌, if◌then◌else◌,
}
use id2203_project.Base.HashMap
use id2203_project.Base.HashMap.{HashMap, IsDistinct, get-insert, get-without}
use id2203_project.Client.ShimClient.{Client, put_call, get_call, Event, call, calls_of}

abbrev pub one : ℕ → ℕ → ℕ
one x y = if y == x then 1 else 0

-- How often a number stands in a list.
abbrev pub occurrences : ℕ → List ℕ → ℕ
occurrences x [] = 0
occurrences x (y ∷ ys) = one x y + occurrences x ys

pub occurrences-append :
    (x : ℕ) (ys zs : List ℕ) → occurrences x (ys ++ zs) ≡ occurrences x ys + occurrences x zs
occurrences-append x [] zs = omega arith
occurrences-append x (y ∷ ys) zs = omega (arith, occurrences-append x ys zs)

abbrev pub one_of : ℕ → Option ℕ → ℕ
one_of x none = 0
one_of x (some y) = one x y

pub occurrences-insert :
    (x k tx : ℕ) (m : HashMap ℕ ℕ)
    → HashMap.get k m ≡ none
    → occurrences x (calls_of (HashMap.insert k tx m)) ≡ occurrences x (calls_of m) + one x tx
unfolding HashMap.insert HashMap.get
occurrences-insert x k tx [] e = omega arith
occurrences-insert x k tx ((j, v) ∷ m) e = ground (arith, e, occurrences-insert x k tx m)

pub occurrences-without :
    (x k : ℕ) (m : HashMap ℕ ℕ)
    → IsDistinct m
    → occurrences x (calls_of m)
      ≡ occurrences x (calls_of (HashMap.without k m)) + one_of x (HashMap.get k m)
unfolding HashMap.without HashMap.get
occurrences-without x k [] d = refl
occurrences-without x k ((j, v) ∷ m) d =
    ground (arith, id_key.decides j k, d.0, occurrences-without x k m d.1)

pub occurrences-answers :
    (x : ℕ) (m : HashMap ℕ ℕ) (text : String)
    → occurrences x (map (λ (e : ℕ × String). e.0) (map (λ tx. (tx, text)) (calls_of m)))
      ≡ occurrences x (calls_of m)
occurrences-answers x [] text = refl
occurrences-answers x ((k, tx) ∷ m) text = omega (arith, occurrences-answers x m text)

abbrev pub answered_calls : List (ℕ × String) → List ℕ
answered_calls answers = map (λ (e : ℕ × String). e.0) answers

pub answered_calls-append :
    (xs ys : List (ℕ × String)) → answered_calls (xs ++ ys) ≡ answered_calls xs ++ answered_calls ys
answered_calls-append [] ys = refl
answered_calls-append (x ∷ xs) ys = ap (λ r. x.0 ∷ r) (answered_calls-append xs ys)

pub occurrences-answered :
    (x : ℕ) (xs ys : List (ℕ × String))
    → occurrences x (answered_calls (xs ++ ys))
      ≡ occurrences x (answered_calls xs) + occurrences x (answered_calls ys)
occurrences-answered x xs ys =
    ap (occurrences x) (answered_calls-append xs ys)
    ∙ occurrences-append x (answered_calls xs) (answered_calls ys)

-- The number that an event brings, if it is a call.
abbrev pub new_call : Event → Option ℕ
new_call (call (put_call k v tx) now) = some tx
new_call (call (get_call k tx) now) = some tx
new_call _ = none

module _ {Ratio : Type 0} where
  -- How often a call has been answered or waits for its answer.
  abbrev pub known : ℕ → Client Ratio → ℕ
  known x c =
      occurrences x (answered_calls c.answered)
      + occurrences x (calls_of c.pending_puts)
      + occurrences x (calls_of c.pending_gets)
