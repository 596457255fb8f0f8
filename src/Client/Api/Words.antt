-- ===== src/Client/Api/Words.antt =====
-- Splitting a line into words and joining words: what a client writes with single spaces is read back.
use id2203_project.Base.{
  ℕ, ◌≡◌, refl, sym, ap, ◌∙◌, ◌≢◌, false, some, List, [], ◌∷◌, ◌++◌, arith, inl, inr, Bool-cases,
  All, append_assoc, append-nil, if◌then◌else◌,
}
use id2203_project.Client.Api.{
  Text, codes, is_whitespace, flush, split_from, split_whitespace, join_words, put_command,
  get_command, Peer, put_text, get_text, process_put, process_get, process_words, process_command,
}

-- At least one code point, and no white space.
abbrev pub IsWord : Text → Type 0
IsWord w = (w ≢ []) × All (λ c. is_whitespace c ≡ false) w

flush-word : (w : Text) (ws : List Text) → w ≢ [] → flush w ws ≡ w ∷ ws
flush-word [] ws ne = absurd (ne refl)
flush-word (c ∷ cs) ws ne = refl

split_from-append :
    (word w rest : Text)
    → All (λ c. is_whitespace c ≡ false) w
    → split_from word (w ++ rest) ≡ split_from (word ++ w) rest
unfolding split_from
split_from-append word [] rest h = ap (λ u. split_from u rest) (sym (append-nil word))
split_from-append word (c ∷ cs) rest h =
    rw (h.0, split_from)
      (split_from-append (word ++ c ∷ []) cs rest h.1
        ∙ ap (λ u. split_from u rest) (append_assoc word (c ∷ []) cs))

-- Words that are joined by single spaces are split into the same words.
pub split_whitespace-join_words :
    (ws : List Text) → All IsWord ws → split_whitespace (join_words ws) ≡ ws
unfolding split_whitespace split_from
split_whitespace-join_words [] h = refl
split_whitespace-join_words (w ∷ []) h =
    ap (split_from []) (sym (append-nil w))
    ∙ (split_from-append [] w [] h.0.1 ∙ flush-word w [] h.0.0)
split_whitespace-join_words (w ∷ (v ∷ ws)) h =
    split_from-append [] w (32 ∷ join_words (v ∷ ws)) h.0.1
    ∙ (flush-word w (split_from [] (join_words (v ∷ ws))) h.0.0
        ∙ ap (λ us. w ∷ us) (split_whitespace-join_words (v ∷ ws) h.1))

process_command-split :
    (input command : Text) (parts : List Text) (peer : Peer)
    → input ≢ []
    → split_whitespace input ≡ command ∷ parts
    → process_command input peer ≡ some (process_words command parts peer)
unfolding process_command
process_command-split [] command parts peer ne e = absurd (ne refl)
process_command-split (c ∷ cs) command parts peer ne e = rw (e, process_command) refl

join_words-nonempty : (w : Text) (ws : List Text) → w ≢ [] → join_words (w ∷ ws) ≢ []
join_words-nonempty [] ws ne = absurd (ne refl)
join_words-nonempty (c ∷ cs) [] ne = ne
join_words-nonempty (c ∷ cs) (v ∷ ws) ne = λ e. ground (arith, e)

put-IsWord : IsWord (codes "PUT")
put-IsWord = (λ e. ground (arith, e), (refl, (refl, (refl, tt))))

get-IsWord : IsWord (codes "GET")
get-IsWord = (λ e. ground (arith, e), (refl, (refl, (refl, tt))))

-- A line of PUT, a key and the words of a value, with single spaces, passes on the command for
-- that key and that value, and is answered with what comes back; a client that is gone is an
-- internal error.
pub process_command-put :
    (key part : Text) (parts : List Text) (peer : Peer)
    → All IsWord (key ∷ part ∷ parts)
    → process_command (join_words (codes "PUT" ∷ key ∷ part ∷ parts)) peer
      ≡ some (
          if peer.takes (put_command key (join_words (part ∷ parts)))
          then (
            put_command key (join_words (part ∷ parts)) ∷ [],
            put_text (peer.put_reply key (join_words (part ∷ parts))),
          )
          else ([], codes "ERROR internal\n"))
unfolding process_words process_put
process_command-put key part parts peer h =
    process_command-split (join_words (codes "PUT" ∷ key ∷ part ∷ parts)) (codes "PUT")
      (key ∷ part ∷ parts) peer
      (join_words-nonempty (codes "PUT") (key ∷ part ∷ parts) put-IsWord.0)
      (split_whitespace-join_words (codes "PUT" ∷ key ∷ part ∷ parts) (put-IsWord, h))

-- A line of GET and a key, with one space between them, passes on the command for that key, and is
-- answered with what comes back; a client that is gone is an internal error.
pub process_command-get :
    (key : Text) (peer : Peer)
    → IsWord key
    → process_command (join_words (codes "GET" ∷ key ∷ [])) peer
      ≡ some (
          if peer.takes (get_command key)
          then (get_command key ∷ [], get_text (peer.get_reply key))
          else ([], codes "ERROR internal\n"))
unfolding process_words process_get
process_command-get key peer h =
    process_command-split (join_words (codes "GET" ∷ key ∷ [])) (codes "GET") (key ∷ []) peer
      (join_words-nonempty (codes "GET") (key ∷ []) get-IsWord.0)
      (split_whitespace-join_words (codes "GET" ∷ key ∷ []) (get-IsWord, (h, tt)))

split_from-nonempty :
    (c : ℕ) (word rest : Text)
    → (w : Text) × (ws : List Text) × (split_from (c ∷ word) rest ≡ w ∷ ws)
unfolding split_from
split_from-nonempty c word [] = (c ∷ word, [], refl)
split_from-nonempty c word (d ∷ rest) = elim (Bool-cases (is_whitespace d)) [
  | inl space ↦ (c ∷ word, split_from [] rest, rw (space, split_from) refl)
  | inr other ↦
      let (w, ws, e) = split_from-nonempty c (word ++ d ∷ []) rest in
      (w, ws, rw (other, split_from) e)
]

-- Empty, or beginning with no white space: what `trim` leaves.
abbrev pub IsTrimmed : Text → Type 0
IsTrimmed [] = Unit
IsTrimmed (c ∷ cs) = is_whitespace c ≡ false

-- A line that begins with no white space has a first word.
pub process_command-first_word :
    (c : ℕ) (cs : Text) (peer : Peer)
    → is_whitespace c ≡ false
    → (w : Text) × (ws : List Text) × (process_command (c ∷ cs) peer
        ≡ some (process_words w ws peer))
unfolding process_command split_whitespace split_from
process_command-first_word c cs peer trimmed =
    let (w, ws, e) = split_from-nonempty c [] cs in
    (w, ws, rw (trimmed, process_command, split_whitespace, split_from) (rw e refl))
