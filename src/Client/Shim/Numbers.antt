-- ===== src/Client/Shim/Numbers.antt =====
-- The numbers of the calls that handlers wait for, that stand in the channel and that have their response.
use id2203_project.Base.{
  ◌==◌, ℕ, suc, ◌+◌, ◌≤◌, id_key, ◌≡◌, refl, true, some, List, [], ◌∷◌, ◌++◌, map, arith, ltb,
  if◌then◌else◌,
}
use id2203_project.Base.HashMap
use id2203_project.Base.HashMap.{HashMap}
use id2203_project.Client.ShimClient.{ApiCommand, put_call, get_call}
use id2203_project.Client.ShimClient.Calls.{occurrences, one}
use id2203_project.Client.ShimClient.Waiting.{caller}
use id2203_project.Client.Shim.{Wait, wait_text, http_put, http_get}
use id2203_project.Client.Shim.Service.{Request, put_request, get_request, handler}

abbrev pub callers : {V : Type 0} → List (ℕ × V) → List ℕ
callers entries = map (λ e. e.0) entries

pub occurrences-callers :
    {V : Type 0} (x k : ℕ) (v : V) (m : List (ℕ × V))
    → occurrences x (callers (m ++ (k, v) ∷ [])) ≡ occurrences x (callers m) + one x k
occurrences-callers x k v [] = omega arith
occurrences-callers x k v ((j, w) ∷ m) = omega (arith, occurrences-callers x k v m)

pub occurrences-callers-without :
    {V : Type 0} (x k : ℕ) (m : HashMap ℕ V)
    → occurrences x (callers (HashMap.without k m))
      ≡ (if k == x then 0 else occurrences x (callers m))
unfolding HashMap.without
occurrences-callers-without x k [] = ground arith
occurrences-callers-without x k ((j, v) ∷ m) =
    ground (arith, id_key.decides j k, id_key.decides k x, occurrences-callers-without x k m)

pub occurrences-get :
    {V : Type 0} (k : ℕ) (v : V) (m : HashMap ℕ V)
    → HashMap.get k m ≡ some v
    → 1 ≤ occurrences k (callers m)
unfolding HashMap.get
occurrences-get k v [] e = absurd (ground (arith, e))
occurrences-get k v ((j, w) ∷ m) e = ground (arith, e, occurrences-get k v m)

abbrev pub calls_in : List ApiCommand → List ℕ
calls_in commands = map caller commands

pub calls_in-append :
    (x : ℕ) (commands : List ApiCommand) (cmd : ApiCommand)
    → occurrences x (calls_in (commands ++ cmd ∷ []))
      ≡ occurrences x (calls_in commands) + one x (caller cmd)
calls_in-append x [] cmd = omega arith
calls_in-append x (c ∷ commands) cmd = omega (arith, calls_in-append x commands cmd)

-- Whether a number has been given to a call.
abbrev pub issued : ℕ → ℕ → ℕ
issued x next_call = if ltb x next_call then 1 else 0

pub issued-suc : (x n : ℕ) → issued x (suc n) ≡ issued x n + one x n
issued-suc x n = ground (arith, id_key.decides n x)

abbrev pub call_of : Request → ℕ → ApiCommand
call_of (put_request payload) tx = put_call payload.key payload.value tx
call_of (get_request key) tx = get_call key tx

pub handler-takes :
    (r : Request) (tx : ℕ) (wait : Wait)
    → handler r tx true wait ≡ (some (call_of r tx), wait_text wait)
unfolding http_put http_get
handler-takes (put_request payload) tx wait = refl
handler-takes (get_request key) tx wait = refl

pub caller-call_of : (r : Request) (tx : ℕ) → caller (call_of r tx) ≡ tx
caller-call_of (put_request payload) tx = refl
caller-call_of (get_request key) tx = refl
