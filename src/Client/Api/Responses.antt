-- ===== src/Client/Api/Responses.antt =====
-- What a connection of client/api.rs answers.
use id2203_project.Base.{
  ℕ, suc, ◌≡◌, ◌≢◌, Option, none, refl, sym, Bool, true, false, some, List, [], ◌∷◌, ◌++◌, arith,
  length, All, append_assoc, inl, inr, Bool-cases, if◌then◌else◌,
}
use id2203_project.Client.Api.{
  Text, codes, is_whitespace, text_eqb, ApiCommand, put_command, get_command, Peer, PutReply,
  put_ok, put_dropped, put_error, GetReply, found, get_error, not_found, get_dropped, put_text,
  get_text, process_put, process_get, process_words, process_command, trim, trim_start, trim_end,
  LineRead, line, end_of_stream, read_failed, handle_connection, spawn_api, join_words,
}
use id2203_project.Client.Api.Words.{IsTrimmed, process_command-first_word}

-- A text that ends with a line feed.
abbrev pub EndsLine : Text → Type 0
EndsLine t = (start : Text) × (t ≡ start ++ 10 ∷ [])

trim_end-IsTrimmed : (input : Text) → IsTrimmed input → IsTrimmed (trim_end input)
trim_end-IsTrimmed [] h = tt
trim_end-IsTrimmed (c ∷ cs) h =
    elim (trim_end cs)
      as (λ rest. IsTrimmed (elim rest as (λ _. Text) [
        | [] ↦ if is_whitespace c then [] else c ∷ []
        | d ∷ ds ↦ c ∷ (d ∷ ds)
      ])) [ [] ↦ rw h h | d ∷ ds ↦ h ]

trim_start-IsTrimmed : (input : Text) → IsTrimmed (trim_start input)
trim_start-IsTrimmed [] = tt
trim_start-IsTrimmed (c ∷ cs) = elim (Bool-cases (is_whitespace c)) [
  | inl space ↦ rw (space, trim_start) (trim_start-IsTrimmed cs)
  | inr other ↦ rw (other, trim_start) other
]

trim-IsTrimmed : (input : Text) → IsTrimmed (trim input)
trim-IsTrimmed input = trim_end-IsTrimmed (trim_start input) (trim_start-IsTrimmed input)

ends_after : (start value : Text) → EndsLine (start ++ (value ++ codes "\n"))
ends_after start value = (start ++ value, sym (append_assoc start value (10 ∷ [])))

put_text-EndsLine : (r : PutReply) → EndsLine (put_text r)
put_text-EndsLine put_ok = (codes "OK", refl)
put_text-EndsLine (put_error e) = ends_after (codes "ERROR ") e
put_text-EndsLine put_dropped = (codes "ERROR internal", refl)

get_text-EndsLine : (r : GetReply) → EndsLine (get_text r)
get_text-EndsLine (found value) = ends_after (codes "VALUE ") value
get_text-EndsLine not_found = (codes "NOT_FOUND", refl)
get_text-EndsLine (get_error e) = ends_after (codes "ERROR ") e
get_text-EndsLine get_dropped = (codes "ERROR internal", refl)

process_put-EndsLine : (parts : List Text) (peer : Peer) → EndsLine (process_put parts peer).1
unfolding process_put
process_put-EndsLine [] peer = (codes "ERROR missing key", refl)
process_put-EndsLine (key ∷ []) peer = (codes "ERROR missing value", refl)
process_put-EndsLine (key ∷ (part ∷ parts)) peer =
    let value = join_words (part ∷ parts) in
    elim (Bool-cases (peer.takes (put_command key value))) [
      | inl taken ↦ rw (taken, process_put) (put_text-EndsLine (peer.put_reply key value))
      | inr gone ↦ rw (gone, process_put) (codes "ERROR internal", refl)
    ]

process_get-EndsLine : (parts : List Text) (peer : Peer) → EndsLine (process_get parts peer).1
unfolding process_get
process_get-EndsLine [] peer = (codes "ERROR missing key", refl)
process_get-EndsLine (key ∷ parts) peer = elim (Bool-cases (peer.takes (get_command key))) [
  | inl taken ↦ rw (taken, process_get) (get_text-EndsLine (peer.get_reply key))
  | inr gone ↦ rw (gone, process_get) (codes "ERROR internal", refl)
]

if-EndsLine :
    (b : Bool) (r r' : List ApiCommand × Text)
    → EndsLine r.1
    → EndsLine r'.1
    → EndsLine (if b then r else r').1
if-EndsLine true r r' h h' = h
if-EndsLine false r r' h h' = h'

process_words-EndsLine :
    (command : Text) (parts : List Text) (peer : Peer)
    → EndsLine (process_words command parts peer).1
unfolding process_words
process_words-EndsLine command parts peer =
    if-EndsLine (text_eqb command (codes "PUT")) (process_put parts peer) _
      (process_put-EndsLine parts peer)
      (if-EndsLine (text_eqb command (codes "GET")) (process_get parts peer) _
        (process_get-EndsLine parts peer)
        (if-EndsLine (text_eqb command (codes "PING")) ([], codes "OK\n") _ (codes "OK", refl)
          (if-EndsLine (text_eqb command (codes "SHUTDOWN")) _ ([], codes "ERROR unknown command\n")
            (codes "OK", refl) (codes "ERROR unknown command", refl))))

response-EndsLine :
    (input : Text) (peer : Peer)
    → IsTrimmed input
    → (answer : List ApiCommand × Text) × (process_command input peer ≡ some answer)
      × EndsLine answer.1
unfolding process_command
response-EndsLine [] peer trimmed =
    (([], codes "ERROR empty command\n"), refl, (codes "ERROR empty command", refl))
response-EndsLine (c ∷ cs) peer trimmed =
    let (w, ws, e) = process_command-first_word c cs peer trimmed in
    (process_words w ws peer, e, process_words-EndsLine w ws peer)

-- How many lines are answered: those before the end of the stream, an error, or a response that is not
-- written.
abbrev pub answered_lines : List LineRead → ℕ
answered_lines [] = 0
answered_lines (end_of_stream ∷ reads) = 0
answered_lines (read_failed ∷ reads) = 0
answered_lines (line input peer written ∷ reads) =
    let later = answered_lines reads in if written then suc later else 0

-- A connection of the text API never is a panic, whatever lines come: each line that is read
-- before the stream ends, fails, or a response cannot be written is answered with one response,
-- and every response ends with a line feed.
pub handle_connection_lem :
    (reads : List LineRead)
    → (commands : List ApiCommand) × (responses : List Text) × (handle_connection reads
        ≡ some (commands, responses))
      × (length responses ≡ answered_lines reads)
      × All EndsLine responses
unfolding handle_connection
handle_connection_lem [] = ([], [], refl, refl, tt)
handle_connection_lem (end_of_stream ∷ reads) = ([], [], refl, refl, tt)
handle_connection_lem (read_failed ∷ reads) = ([], [], refl, refl, tt)
handle_connection_lem (line input peer written ∷ reads) =
    let ((commands, response), made, ends) =
      response-EndsLine (trim input) peer (trim-IsTrimmed input) in
    let (later, responses, e, len, all_end) = handle_connection_lem reads in
    elim (Bool-cases written) [
      | inl ok ↦ (
        commands ++ later,
        response ∷ responses,
        rw (made, handle_connection) (rw ok (rw e refl)),
        rw ok (omega (arith, len)),
        (ends, all_end),
      )
      | inr broken ↦
          (commands, [], rw (made, handle_connection) (rw broken refl), rw broken refl, tt)
    ]

-- No connection that the text API accepts is a panic.
spawn_api-total :
    (bound : Bool) (accepts : List (Option (List LineRead)))
    → All (λ r. r ≢ none) (spawn_api bound accepts)
unfolding spawn_api
spawn_api-total false accepts = tt
spawn_api-total true [] = tt
spawn_api-total true (none ∷ accepts) = spawn_api-total true accepts
spawn_api-total true (some reads ∷ accepts) =
    let (commands, responses, e, len, ends) = handle_connection_lem reads in
    (λ panics. ground (arith, e, panics), spawn_api-total true accepts)
