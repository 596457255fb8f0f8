-- ===== src/Client/Shim.antt =====
-- client/shim.rs: the HTTP handlers. A call's number stands for the oneshot channel that is made for it;
-- whether the channel to the client takes the command, and how the wait for its answer ends, are
-- arguments.
pub mod Service
pub mod Numbers
pub mod Served
pub mod Replies
pub mod Messages
use id2203_project.Base.{ℕ, String, Bool, Option, none, some, List, [], ◌∷◌, if◌then◌else◌}
use id2203_project.Client.ShimClient.{ApiCommand, put_call, get_call}

pub record PutReq : Type 0 where
  pub key : String
  pub value : String

-- The answer, a sender that was dropped, or no answer within REQUEST_TIMEOUT (ten seconds).
pub data Wait : Type 0 where
  answered : String → Wait
  dropped elapsed : Wait

abbrev pub wait_text : Wait → String
wait_text (answered val) = val
wait_text dropped = "Error: request dropped"
wait_text elapsed = "Error: timeout"

-- The command that reaches the client, and the body of the response.
unfoldable pub http_put : PutReq → ℕ → Bool → Wait → Option ApiCommand × String
http_put payload resp_tx taken wait =
    if taken
    then (some (put_call payload.key payload.value resp_tx), wait_text wait)
    else (none, "Error: client unavailable")

unfoldable pub http_get : String → ℕ → Bool → Wait → Option ApiCommand × String
http_get key resp_tx taken wait =
    if taken
    then (some (get_call key resp_tx), wait_text wait)
    else (none, "Error: client unavailable")

-- What axum makes of the two handlers: one for the method POST, one for GET.
pub data MethodRouter : Type 0 where
  post_http_put get_http_get : MethodRouter

-- The routes, by the patterns of their paths. How axum matches a call with a route, and extracts the
-- payload or the key, is not modelled.
abbrev pub create_router : List (String × MethodRouter)
create_router = ("/put", post_http_put) ∷ ("/get/:key", get_http_get) ∷ []
