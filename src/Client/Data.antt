-- ===== src/Client/Data.antt =====
-- client/data_collection.rs: the table of requests. The clock is an argument.
use id2203_project.Base.{
  ℕ, suc, ◌≡◌, ◌≤◌, ◌<◌, refl, Bool, Option, none, some, List, [], ◌∷◌, ◌++◌, arith, length,
  get_elem?, set, wrapping_add, length-append, get_elem?-total, get_elem?-none, length-set,
}

pub record RequestData : Type 0 where
  pub request_time : ℕ
  pub write : Bool
  pub response_time : Option ℕ

pub record ClientData : Type 0 where
  pub request_data : List RequestData
  pub response_count : ℕ

unfoldable pub new : ClientData
new = record { request_data = []; response_count = 0 }

unfoldable pub new_request : ClientData → ℕ → Bool → ClientData
new_request d now is_write = record d {
  request_data =
      d.request_data ++ record { request_time = now; write = is_write; response_time = none } ∷ [];
}

-- `none` is the panic of an index out of range.
unfoldable pub new_response : ClientData → ℕ → ℕ → Option ClientData
new_response d response_time command_id = elim (get_elem? d.request_data command_id) [
  | none ↦ none
  | some r ↦ some (record {
    request_data = set d.request_data command_id (record r { response_time = some response_time });
    response_count = wrapping_add d.response_count 1;
  })
]

abbrev pub request_count : ClientData → ℕ
request_count d = length d.request_data

pub length-new_request :
    (d : ClientData) (now : ℕ) (w : Bool)
    → request_count (new_request d now w) ≡ suc (request_count d)
unfolding new_request
length-new_request d now w = omega (
  arith,
  length-append d.request_data
      (record { request_time = now; write = w; response_time = none } ∷ []),
)

-- A response to a request that was counted is recorded, and the number of requests stays.
pub new_response-total :
    (d : ClientData) (now command_id : ℕ)
    → command_id < request_count d
    → (d' : ClientData) × (new_response d now command_id ≡ some d')
      × (request_count d' ≡ request_count d)
unfolding new_response
new_response-total d now id h =
    let (r, e) = get_elem?-total d.request_data id h in
    let answered = record r { response_time = some now } in
    (
      record {
        request_data = set d.request_data id answered;
        response_count = wrapping_add d.response_count 1;
      },
      rw (e, new_response) refl,
      length-set d.request_data id answered,
    )

-- A response with an id that was given to no request is a panic.
pub new_response-panics :
    (d : ClientData) (now command_id : ℕ)
    → request_count d ≤ command_id
    → new_response d now command_id ≡ none
unfolding new_response
new_response-panics d now id h = rw (get_elem?-none d.request_data id h, new_response) refl
