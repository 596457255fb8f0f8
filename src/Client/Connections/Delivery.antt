-- ===== src/Client/Connections/Delivery.antt =====
-- What the reader task of a client's connection passes on, and when a connection comes up.
use id2203_project.Base.{
  ◌≡◌, refl, sym, ap, ◌∙◌, true, false, Option, none, some, List, [], ◌∷◌, ◌++◌, arith, inl, inr,
  Bool-cases, Option-cases, All,
}
use id2203_project.Common.Messages.{client_register, ServerMessage}
use id2203_project.Common.Framing.{
  Formats, TcpStream, concat, send_both, frame_registration_connection, frame_clients_connection,
}
use id2203_project.Common.Tasks.{Inbox, offer, is_closed}
use id2203_project.Common.Tasks.Readers.{
  well_formed, well_formed-append, limit, IsWithin, offer_all, taken-offer_all, offer_all-append,
  offer_all-closed, offer-none,
}
use id2203_project.Client.Connections.{
  read_chunk, reader, Connect, refused, opened, connected, get_server_connection,
}

-- A chunk is offered in order, and the task ends only when the channel is closed.
read_chunk-offer_all :
    (ms : List (Option ServerMessage)) (i : Inbox ServerMessage)
    → ((read_chunk ms i).0 ≡ offer_all i (well_formed ms))
      × ((read_chunk ms i).1 ≡ false → is_closed (read_chunk ms i).0 ≡ true)
unfolding read_chunk offer_all
read_chunk-offer_all [] i = (refl, λ e. absurd (ground (arith, e)))
read_chunk-offer_all (none ∷ ms) i = read_chunk-offer_all ms i
read_chunk-offer_all (some m ∷ ms) i = elim (Option-cases (offer i m)) [
  | inl full ↦ rw (full, read_chunk, offer_all) (refl, λ _. offer-none i m full)
  | inr (i', e) ↦ rw (e, read_chunk, offer_all) (read_chunk-offer_all ms i')
]

reader-offer_all :
    (chunks : List (List (Option ServerMessage))) (i : Inbox ServerMessage)
    → reader chunks i ≡ offer_all i (well_formed (concat chunks))
unfolding reader offer_all
reader-offer_all [] i = refl
reader-offer_all (ms ∷ chunks) i =
    let (read, ends) = read_chunk-offer_all ms i in
    let all : offer_all (offer_all i (well_formed ms)) (well_formed (concat chunks))
        ≡ offer_all i (well_formed (ms ++ concat chunks)) =
      sym (
        ap (offer_all i) (well_formed-append ms (concat chunks))
        ∙ offer_all-append i (well_formed ms) (well_formed (concat chunks))) in
    let onward : offer_all (read_chunk ms i).0 (well_formed (concat chunks))
        ≡ offer_all i (well_formed (ms ++ concat chunks)) =
      ap (λ j. offer_all j (well_formed (concat chunks))) read ∙ all in
    elim (Bool-cases (read_chunk ms i).1) [
      | inl more ↦ rw (more, reader) (reader-offer_all chunks (read_chunk ms i).0 ∙ onward)
      | inr done ↦
          rw (done, reader)
            (sym (offer_all-closed (read_chunk ms i).0 (well_formed (concat chunks)) (ends done))
              ∙ onward)
    ]

-- The messages that are deserialised are passed on in order, until the receiver takes no more.
pub taken-reader :
    (chunks : List (List (Option ServerMessage))) (i : Inbox ServerMessage)
    → IsWithin i
    → (reader chunks i).taken ≡ limit i.takes (i.taken ++ well_formed (concat chunks))
taken-reader chunks i h =
    ap (λ (j : Inbox ServerMessage). j.taken) (reader-offer_all chunks i)
    ∙ taken-offer_all i.taken i.takes (well_formed (concat chunks)) h

module _ {Frame Message : Type 0} (formats : Formats Frame Message) where
  abbrev pub IsRefused : Connect formats → Type 0
  IsRefused refused = Unit
  IsRefused (opened stream nodelay up) = ⊥

  -- A client's attempts to connect go on while they are refused; the first that opens a stream, on
  -- which nothing fails, gives the two halves of that stream, with the registration written to it.
  pub get_server_connection-connects :
      (before after : List (Connect formats)) (stream : TcpStream Frame) (f : Frame)
      → All IsRefused before
      → formats.registration.serialize client_register ≡ some f
      → get_server_connection formats (before ++ opened stream true true ∷ after) ≡ (
          let (from_server, to_server) =
            frame_clients_connection formats
              (record stream { outgoing = stream.outgoing ++ f ∷ [] }) in
          connected from_server to_server)
  unfolding get_server_connection send_both frame_registration_connection
  get_server_connection-connects [] after stream f h e =
      rw (e, get_server_connection, send_both) refl
  get_server_connection-connects (refused ∷ before) after stream f h e =
      get_server_connection-connects before after stream f h.1 e
  get_server_connection-connects (opened s nodelay up ∷ before) after stream f h e = absurd h.0
