-- ===== src/Server/Connections/Delivery.antt =====
-- What the reader tasks of the server's connections pass on.
use mathlib.Core.List.{map-append}
use mathlib.Core.Option.{some-injective}
use id2203_project.Base.{
  ℕ, ◌+◌, ◌≡◌, refl, sym, ap, subst, ◌∙◌, Bool, true, false, Option, none, some, List, [], ◌∷◌,
  ◌++◌, map, append_assoc, append-nil, arith, inl, inr, Bool-cases, Option-cases, length,
  length-append, leb, if◌then◌else◌,
}
use id2203_project.Common.Messages.{ClusterMessage, ClientMessage}
use id2203_project.Common.Framing.{concat}
use id2203_project.Common.Tasks.{Inbox, offer}
use id2203_project.Common.Tasks.Readers.{
  well_formed, well_formed-append, limit, IsWithin, offer_all, taken-offer_all, offer_all-append,
}
use id2203_project.Server.Connections.{
  peer_read_chunk, peer_reader, client_read_chunk, client_reader,
}

-- The messages of a stream, each with the id of its sender.
abbrev pub from_id : {M : Type 0} → ℕ → List (Option M) → List (ℕ × M)
from_id id ms = map (λ m. (id, m)) (well_formed ms)

from_id-append :
    {M : Type 0} (id : ℕ) (xs ys : List (Option M))
    → from_id id (xs ++ ys) ≡ from_id id xs ++ from_id id ys
from_id-append id xs ys =
    ap (map (λ m. (id, m))) (well_formed-append xs ys)
    ∙ map-append (λ m. (id, m)) (well_formed xs) (well_formed ys)

module _ {Message : Type 0} where
  peer_read_chunk-offer_all :
      (id : ℕ) (ms : List (Option (ClusterMessage Message)))
      (i : Inbox (ℕ × ClusterMessage Message))
      → peer_read_chunk id ms i ≡ offer_all i (from_id id ms)
  unfolding peer_read_chunk offer_all
  peer_read_chunk-offer_all id [] i = refl
  peer_read_chunk-offer_all id (none ∷ ms) i = peer_read_chunk-offer_all id ms i
  peer_read_chunk-offer_all id (some m ∷ ms) i = elim (Option-cases (offer i (id, m))) [
    | inl full ↦ rw (full, peer_read_chunk, offer_all) refl
    | inr (i', e) ↦ rw (e, peer_read_chunk, offer_all) (peer_read_chunk-offer_all id ms i')
  ]

  peer_reader-offer_all :
      (id : ℕ) (chunks : List (List (Option (ClusterMessage Message))))
      (i : Inbox (ℕ × ClusterMessage Message))
      → peer_reader id chunks i ≡ offer_all i (from_id id (concat chunks))
  unfolding peer_reader offer_all
  peer_reader-offer_all id [] i = refl
  peer_reader-offer_all id (ms ∷ chunks) i =
      ap (peer_reader id chunks) (peer_read_chunk-offer_all id ms i)
      ∙ (peer_reader-offer_all id chunks (offer_all i (from_id id ms))
          ∙ (sym (offer_all-append i (from_id id ms) (from_id id (concat chunks)))
              ∙ ap (offer_all i) (sym (from_id-append id ms (concat chunks)))))

  -- The reader of a peer's connection passes on the messages that are deserialised, in order and
  -- with the id of the peer, until the receiver takes no more, although it goes on to read the
  -- chunks that follow.
  pub taken-peer_reader :
      (id : ℕ) (chunks : List (List (Option (ClusterMessage Message))))
      (i : Inbox (ℕ × ClusterMessage Message))
      → IsWithin i
      → (peer_reader id chunks i).taken ≡ limit i.takes (i.taken ++ from_id id (concat chunks))
  taken-peer_reader id chunks i h =
      ap (λ (j : Inbox (ℕ × ClusterMessage Message)). j.taken) (peer_reader-offer_all id chunks i)
      ∙ taken-offer_all i.taken i.takes (from_id id (concat chunks)) h

-- Whether a channel takes so many messages more.
abbrev pub fits : {M : Type 0} → Inbox M → ℕ → Bool
fits i k = elim i.takes [ none ↦ true | some n ↦ leb (length i.taken + k) n ]

-- A channel with a list of messages more in it, if it takes them all.
abbrev pub with_all : {M : Type 0} → Inbox M → List M → Option (Inbox M)
with_all i ms = if fits i (length ms) then some (record i { taken = i.taken ++ ms }) else none

abbrev pub offer_each : {M : Type 0} → Inbox M → M → List M → Option (Inbox M)
offer_each i m ms = elim (offer i m) [ none ↦ none | some i' ↦ with_all i' ms ]

offer_each-with_all :
    {M : Type 0} (taken : List M) (takes : Option ℕ) (m : M) (ms : List M)
    → offer_each (record { taken = taken; takes = takes }) m ms
      ≡ with_all (record { taken = taken; takes = takes }) (m ∷ ms)
unfolding offer
offer_each-with_all {M} taken none m ms =
    ap (λ (r : List M). some (record { taken = r; takes = none })) (append_assoc taken (m ∷ []) ms)
offer_each-with_all {M} taken (some n) m ms = elim (Bool-cases (leb n (length taken))) [
  | inl full ↦
      let over : leb (length taken + length (m ∷ ms)) n ≡ false = ground arith in
      rw (full, offer_each, offer) (rw over refl)
  | inr room ↦
      let len : length (taken ++ m ∷ []) + length ms ≡ length taken + length (m ∷ ms) =
        omega (arith, length-append taken (m ∷ [])) in
      rw (room, offer_each, offer) (rw (len, append_assoc taken (m ∷ []) ms) refl)
]

with_all-nil :
    {M : Type 0} (taken : List M) (takes : Option ℕ)
    → IsWithin (record { taken = taken; takes = takes })
    → with_all (record { taken = taken; takes = takes }) []
      ≡ some (record { taken = taken; takes = takes })
with_all-nil {M} taken none h =
    ap (λ (r : List M). some (record { taken = r; takes = none })) (append-nil taken)
with_all-nil {M} taken (some n) h =
    let enough : leb (length taken + 0) n ≡ true = ground arith in
    rw (enough, with_all, fits) (rw (append-nil taken) refl)

offer-IsWithin :
    {M : Type 0} (taken : List M) (takes : Option ℕ) (m : M) (i : Inbox M)
    → offer (record { taken = taken; takes = takes }) m ≡ some i
    → IsWithin (record { taken = taken; takes = takes })
    → IsWithin i
unfolding offer
offer-IsWithin taken none m i e h =
    subst IsWithin (some-injective (record { taken = taken ++ m ∷ []; takes = none }) i e) tt
offer-IsWithin taken (some n) m i e h = elim (Bool-cases (leb n (length taken))) [
  | inl full ↦ absurd (ground (arith, full, e))
  | inr room ↦
      subst IsWithin
        (some-injective (record { taken = taken ++ m ∷ []; takes = some n }) i
          (rw (room, offer) at e))
        (ground (arith, length-append taken (m ∷ [])))
]

client_read_chunk-with_all :
    (id : ℕ) (ms : List (Option ClientMessage)) (i : Inbox (ℕ × ClientMessage))
    → IsWithin i
    → client_read_chunk id ms i ≡ with_all i (from_id id ms)
unfolding client_read_chunk
client_read_chunk-with_all id [] i h = sym (with_all-nil i.taken i.takes h)
client_read_chunk-with_all id (none ∷ ms) i h = client_read_chunk-with_all id ms i h
client_read_chunk-with_all id (some m ∷ ms) i h = elim (Option-cases (offer i (id, m))) [
  | inl full ↦
      rw (full, client_read_chunk)
        (rw (full, offer_each) at (offer_each-with_all i.taken i.takes (id, m) (from_id id ms)))
  | inr (i', e) ↦
      rw (e, client_read_chunk)
        (client_read_chunk-with_all id ms i' (offer-IsWithin i.taken i.takes (id, m) i' e h)
          ∙ (rw (e, offer_each) at (offer_each-with_all i.taken i.takes (id, m) (from_id id ms))))
]

client_read_chunk-append :
    (id : ℕ) (xs ys : List (Option ClientMessage)) (i : Inbox (ℕ × ClientMessage))
    → client_read_chunk id (xs ++ ys) i
      ≡ elim (client_read_chunk id xs i) as (λ _. Option (Inbox (ℕ × ClientMessage))) [
        | none ↦ none
        | some j ↦ client_read_chunk id ys j
      ]
unfolding client_read_chunk
client_read_chunk-append id [] ys i = refl
client_read_chunk-append id (none ∷ xs) ys i = client_read_chunk-append id xs ys i
client_read_chunk-append id (some m ∷ xs) ys i = elim (Option-cases (offer i (id, m))) [
  | inl full ↦ rw (full, client_read_chunk) refl
  | inr (j, e) ↦ rw (e, client_read_chunk) (client_read_chunk-append id xs ys j)
]

client_reader-concat :
    (id : ℕ) (chunks : List (List (Option ClientMessage))) (i : Inbox (ℕ × ClientMessage))
    → client_reader id chunks i ≡ client_read_chunk id (concat chunks) i
unfolding client_reader client_read_chunk
client_reader-concat id [] i = refl
client_reader-concat id (ms ∷ chunks) i = elim (Option-cases (client_read_chunk id ms i)) [
  | inl full ↦
      rw (full, client_reader)
        (sym (client_read_chunk-append id ms (concat chunks) i ∙ rw full refl))
  | inr (j, e) ↦
      rw (e, client_reader)
        (client_reader-concat id chunks j
          ∙ sym (client_read_chunk-append id ms (concat chunks) i ∙ rw e refl))
]

-- The reader of a client's connection passes on every message that is deserialised, in order and
-- with the id of the client, and is a panic exactly when the receiver is dropped before it has
-- taken them all.
pub client_reader-with_all :
    (id : ℕ) (chunks : List (List (Option ClientMessage))) (i : Inbox (ℕ × ClientMessage))
    → IsWithin i
    → client_reader id chunks i ≡ with_all i (from_id id (concat chunks))
client_reader-with_all id chunks i h =
    client_reader-concat id chunks i ∙ client_read_chunk-with_all id (concat chunks) i h
