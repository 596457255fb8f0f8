-- ===== src/Client/Api.antt =====
-- client/api.rs: the line protocol, and the loop that serves a connection. A text is the list of its code points. The
-- channel to the client, and what comes back on the oneshot channel of a command, are arguments.
pub mod Words
pub mod Responses
use mathlib.Core.Option
use Prim.Native.Char.{code}
use Prim.Native.String.{String}
use id2203_project.Base.{
  ℕ, id_key, Bool, true, false, ◌&&◌, ◌||◌, Option, none, some, List, [], ◌∷◌, ◌++◌, ◌==◌, leb,
  if◌then◌else◌,
}

abbrev pub Text : Type 0
Text = List ℕ

abbrev pub codes : String → Text
codes String.[] = []
codes (String.◌∷◌ c s) = code c ∷ codes s

-- The code points with Unicode's property White_Space.
abbrev pub is_whitespace : ℕ → Bool
is_whitespace c =
    (leb 9 c && leb c 13)
    || c == 32
    || c == 133
    || c == 160
    || c == 5760
    || (leb 8192 c && leb c 8202)
    || c == 8232
    || c == 8233
    || c == 8239
    || c == 8287
    || c == 12288

abbrev pub flush : Text → List Text → List Text
flush [] words = words
flush (c ∷ cs) words = (c ∷ cs) ∷ words

-- The words of a text that begins with `word`.
unfoldable pub split_from : Text → Text → List Text
split_from word [] = flush word []
split_from word (c ∷ cs) = elim (is_whitespace c) [
  | true ↦ flush word (split_from [] cs)
  | false ↦ split_from (word ++ c ∷ []) cs
]

unfoldable pub split_whitespace : Text → List Text
unfolding split_from
split_whitespace input = split_from [] input

-- `join(" ")`
abbrev pub join_words : List Text → Text
join_words [] = []
join_words (w ∷ []) = w
join_words (w ∷ (v ∷ ws)) = w ++ 32 ∷ join_words (v ∷ ws)

abbrev pub text_eqb : Text → Text → Bool
text_eqb [] [] = true
text_eqb [] (d ∷ ds) = false
text_eqb (c ∷ cs) [] = false
text_eqb (c ∷ cs) (d ∷ ds) = c == d && text_eqb cs ds

pub data ApiCommand : Type 0 where
  put_command : Text → Text → ApiCommand
  get_command : Text → ApiCommand
  shutdown_command : ApiCommand

pub data PutReply : Type 0 where
  put_ok put_dropped : PutReply
  put_error : Text → PutReply

pub data GetReply : Type 0 where
  found get_error : Text → GetReply
  not_found get_dropped : GetReply

-- Whether the channel takes a command, and what is received for it.
pub record Peer : Type 0 where
  pub takes : ApiCommand → Bool
  pub put_reply : Text → Text → PutReply
  pub get_reply : Text → GetReply

abbrev pub put_text : PutReply → Text
put_text put_ok = codes "OK\n"
put_text (put_error e) = codes "ERROR " ++ e ++ codes "\n"
put_text put_dropped = codes "ERROR internal\n"

abbrev pub get_text : GetReply → Text
get_text (found value) = codes "VALUE " ++ value ++ codes "\n"
get_text not_found = codes "NOT_FOUND\n"
get_text (get_error e) = codes "ERROR " ++ e ++ codes "\n"
get_text get_dropped = codes "ERROR internal\n"

unfoldable pub process_put : List Text → Peer → List ApiCommand × Text
process_put [] peer = ([], codes "ERROR missing key\n")
process_put (key ∷ []) peer = ([], codes "ERROR missing value\n")
process_put (key ∷ (part ∷ parts)) peer =
    let value = join_words (part ∷ parts) in
    if peer.takes (put_command key value)
    then (put_command key value ∷ [], put_text (peer.put_reply key value))
    else ([], codes "ERROR internal\n")

unfoldable pub process_get : List Text → Peer → List ApiCommand × Text
process_get [] peer = ([], codes "ERROR missing key\n")
process_get (key ∷ parts) peer =
    if peer.takes (get_command key)
    then (get_command key ∷ [], get_text (peer.get_reply key))
    else ([], codes "ERROR internal\n")

unfoldable pub process_words : Text → List Text → Peer → List ApiCommand × Text
unfolding process_put process_get
process_words command parts peer =
    if text_eqb command (codes "PUT")
    then process_put parts peer
    else (if text_eqb command (codes "GET")
        then process_get parts peer
        else (if text_eqb command (codes "PING")
            then ([], codes "OK\n")
            else (if text_eqb command (codes "SHUTDOWN")
                then (
                  (if peer.takes shutdown_command then shutdown_command ∷ [] else []),
                  codes "OK\n",
                )
                else ([], codes "ERROR unknown command\n"))))

-- The commands that were passed on, and the answer; nothing is the panic on a line of white space.
unfoldable pub process_command : Text → Peer → Option (List ApiCommand × Text)
process_command [] peer = some ([], codes "ERROR empty command\n")
process_command (c ∷ cs) peer = elim (split_whitespace (c ∷ cs)) [
  | [] ↦ none
  | command ∷ parts ↦ some (process_words command parts peer)
]

-- `trim`
abbrev pub trim_start : Text → Text
trim_start [] = []
trim_start (c ∷ cs) = let rest = trim_start cs in if is_whitespace c then rest else c ∷ cs

abbrev pub trim_end : Text → Text
trim_end [] = []
trim_end (c ∷ cs) = elim (trim_end cs) [
  | [] ↦ if is_whitespace c then [] else c ∷ []
  | d ∷ ds ↦ c ∷ (d ∷ ds)
]

abbrev pub trim : Text → Text
trim input = trim_end (trim_start input)

-- What `read_line` yields: a line, with what comes back for its command and whether its response can be
-- written; the end of the stream; or an error.
pub data LineRead : Type 0 where
  line : Text → Peer → Bool → LineRead
  end_of_stream read_failed : LineRead

-- The commands that were passed on and the responses that were written, in order; nothing is a panic.
unfoldable pub handle_connection : List LineRead → Option (List ApiCommand × List Text)
handle_connection [] = some ([], [])
handle_connection (end_of_stream ∷ reads) = some ([], [])
handle_connection (read_failed ∷ reads) = some ([], [])
handle_connection (line input peer written ∷ reads) =
    let later = handle_connection reads in
    elim (process_command (trim input) peer) [
      | none ↦ none
      | some (commands, response) ↦
          if written
          then Option.map (λ (r : List ApiCommand × List Text). (commands ++ r.0, response ∷ r.1))
              later
          else some (commands, [])
    ]

-- What each accepted connection comes to; nothing is accepted when the address cannot be bound, and an
-- error of `accept` is skipped.
unfoldable pub spawn_api :
    Bool → List (Option (List LineRead)) → List (Option (List ApiCommand × List Text))
spawn_api false accepts = []
spawn_api true [] = []
spawn_api true (none ∷ accepts) = spawn_api true accepts
spawn_api true (some reads ∷ accepts) = handle_connection reads ∷ spawn_api true accepts
