-- ===== src/Client/Tests/Lines.antt =====
-- Tests of the line protocol and of the HTTP handlers.
use id2203_project.Base.{length, All, ℕ, ◌≡◌, refl, true, false, some, List, [], ◌∷◌, arith}
use id2203_project.Client.Shim.{answered, elapsed, http_put, http_get}
use id2203_project.Client.Api.Responses.{EndsLine, handle_connection_lem}
use id2203_project.Client.Api.{
  LineRead, line, handle_connection, Text, codes, is_whitespace, ApiCommand, Peer, put_ok, found,
  split_whitespace, split_from, process_command, process_words,
}
use id2203_project.Client.Api.Words.{IsWord}

abbrev peer : Peer
peer = record {
  takes = λ command. true;
  put_reply = λ key value. put_ok;
  get_reply = λ key. found (codes "v");
}

one_letter : (c : ℕ) → is_whitespace c ≡ false → IsWord (c ∷ [])
one_letter c e = (λ nil. ground (arith, nil), (e, tt))

-- Two lines are answered, the response to the third is not written, and a fourth is not read.
abbrev reads : List LineRead
reads =
    line (codes "PING \n") peer true
    ∷ line (codes " \n") peer true
    ∷ line (codes "GET k\n") peer false
    ∷ line (codes "PING\n") peer true
    ∷ []

handle_connection_lem_example :
    (commands : List ApiCommand) × (responses : List Text) × (handle_connection reads
      ≡ some (commands, responses))
    × (length responses ≡ 2)
    × All EndsLine responses
handle_connection_lem_example = handle_connection_lem reads

ping : process_command (codes " PING  x") peer ≡ some ([], codes "OK\n")
unfolding process_command split_whitespace split_from process_words
ping = refl

put_taken : (http_put (record { key = "k"; value = "v" }) 7 true (answered "Ok")).1 ≡ "Ok"
unfolding http_put
put_taken = refl

get_late : (http_get "k" 7 true elapsed).1 ≡ "Error: timeout"
unfolding http_get
get_late = refl
