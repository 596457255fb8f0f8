-- ===== src/Server/Connections/Handshakes.antt =====
-- How connections between servers come up: the registration that is read from an accepted stream, and
-- the loop that dials a peer.
use mathlib.Core.List.{map-append}
use id2203_project.Base.{
  ℕ, ◌<◌, ◌≡◌, refl, sym, ap, true, false, none, some, List, [], ◌∷◌, ◌++◌, map, arith, inl, inr,
  Bool-cases, Option-cases, length, length-append, All, Some, if◌then◌else◌,
}
use id2203_project.Common.Messages.{node_register}
use id2203_project.Common.Framing.{
  Formats, TcpStream, concat, items, next, next_frame, send_both, frame_registration_connection,
  frame_cluster_connection,
}
use id2203_project.Common.Tasks.{Inbox, offer}
use id2203_project.Common.Tasks.Readers.{limit, IsWithin, offer_all, taken-offer_all}
use id2203_project.Server.Connections.{Dial, refused, opened, read_registration, peer_connector}

module _ {Frame Message : Type 0} (formats : Formats Frame Message) where
  -- A registration is read from the first frame that a stream brings, and what was sent stays; but
  -- the frames that came in the same read as the registration are missing from the connection that
  -- is then framed on the stream.
  pub read_registration_lem :
      (f : Frame) (rest : List Frame) (reads : List (List Frame)) (sent : List Frame)
      → let (message, stream) =
          read_registration formats (record { incoming = (f ∷ rest) ∷ reads; outgoing = sent }) in
        (message ≡ some (formats.registration.deserialize f))
        × (stream.outgoing ≡ sent)
        × (map formats.cluster.deserialize rest ++ items (frame_cluster_connection formats stream).0
            ≡ map formats.cluster.deserialize (concat (rest ∷ reads)))
  unfolding read_registration next next_frame frame_registration_connection frame_cluster_connection
  read_registration_lem f rest reads sent =
      (refl, refl, sym (map-append formats.cluster.deserialize rest (concat reads)))

  -- The streams that took the registration, of those that opened.
  abbrev pub registered : ℕ → List (Dial formats) → List (TcpStream Frame)
  registered my_id [] = []
  registered my_id (refused ∷ attempts) = registered my_id attempts
  registered my_id (opened stream nodelay up ∷ attempts) =
      let rest = registered my_id attempts in
      elim (formats.registration.serialize (node_register my_id)) [
        | none ↦ rest
        | some f ↦
            if up then record stream { outgoing = stream.outgoing ++ f ∷ [] } ∷ rest else rest
      ]

  abbrev pub SetsNodelay : Dial formats → Type 0
  SetsNodelay refused = Unit
  SetsNodelay (opened stream nodelay up) = nodelay ≡ true

  peer_connector-offer_all :
      (my_id : ℕ) (attempts : List (Dial formats)) (c : Inbox (TcpStream Frame))
      → All SetsNodelay attempts
      → peer_connector formats my_id attempts c ≡ some (offer_all c (registered my_id attempts))
  unfolding peer_connector offer_all send_both frame_registration_connection
  peer_connector-offer_all my_id [] c h = refl
  peer_connector-offer_all my_id (refused ∷ attempts) c h =
      peer_connector-offer_all my_id attempts c h.1
  peer_connector-offer_all my_id (opened stream false up ∷ attempts) c h =
      absurd (ground (arith, h.0))
  peer_connector-offer_all my_id (opened stream true up ∷ attempts) c h =
      elim (Option-cases (formats.registration.serialize (node_register my_id))) [
        | inl large ↦
            rw (large, peer_connector, registered) (peer_connector-offer_all my_id attempts c h.1)
        | inr (f, made) ↦ elim (Bool-cases up) [
          | inl live ↦
              let kept = record stream { outgoing = stream.outgoing ++ f ∷ [] } in
              elim (Option-cases (offer c kept)) [
                | inl full ↦
                    rw (made, peer_connector, registered)
                      (rw live (rw (full, peer_connector, offer_all) refl))
                | inr (c', e) ↦
                    rw (made, peer_connector, registered)
                      (rw live (
                        rw (e, peer_connector, offer_all)
                          (peer_connector-offer_all my_id attempts c' h.1)))
              ]
          | inr broken ↦
              rw (made, peer_connector, registered)
                (rw broken (peer_connector-offer_all my_id attempts c h.1))
        ]
      ]

  -- The streams that took the registration are handed on in order, until the receiver takes no more.
  pub peer_connector_lem :
      (my_id : ℕ) (attempts : List (Dial formats)) (c : Inbox (TcpStream Frame))
      → All SetsNodelay attempts
      → IsWithin c
      → (c' : Inbox (TcpStream Frame)) × (peer_connector formats my_id attempts c ≡ some c')
        × (c'.taken ≡ limit c.takes (c.taken ++ registered my_id attempts))
  peer_connector_lem my_id attempts c h within = (
    offer_all c (registered my_id attempts),
    peer_connector-offer_all my_id attempts c h,
    taken-offer_all c.taken c.takes (registered my_id attempts) within,
  )

  -- A stream that does not break before the registration is sent.
  abbrev pub IsUp : Dial formats → Type 0
  IsUp refused = ⊥
  IsUp (opened stream nodelay up) = up ≡ true

  registered-nonempty :
      (my_id : ℕ) (attempts : List (Dial formats)) (f : Frame)
      → formats.registration.serialize (node_register my_id) ≡ some f
      → Some IsUp attempts
      → 0 < length (registered my_id attempts)
  registered-nonempty my_id [] f e h = absurd h
  registered-nonempty my_id (refused ∷ attempts) f e (inl h) = absurd h
  registered-nonempty my_id (refused ∷ attempts) f e (inr h) =
      registered-nonempty my_id attempts f e h
  registered-nonempty my_id (opened stream nodelay up ∷ attempts) f e (inl h) =
      rw (e, registered) (rw h (omega arith))
  registered-nonempty my_id (opened stream nodelay up ∷ attempts) f e (inr h) =
      let later = registered-nonempty my_id attempts f e h in
      elim (Bool-cases up) [
        | inl live ↦ rw (e, registered) (rw live (omega arith))
        | inr broken ↦ rw (e, registered) (rw broken later)
      ]

  -- The loop that dials a peer hands on a connection as soon as one of its attempts opens a stream
  -- that does not break before the registration is sent, when set_nodelay never fails, the
  -- registration can be serialised and the receiver of connections stays.
  pub peer_connector-connects :
      (my_id : ℕ) (attempts : List (Dial formats)) (taken : List (TcpStream Frame)) (f : Frame)
      → formats.registration.serialize (node_register my_id) ≡ some f
      → All SetsNodelay attempts
      → Some IsUp attempts
      → (c' : Inbox (TcpStream Frame)) × (peer_connector formats my_id attempts
            (record { taken = taken; takes = none })
          ≡ some c')
        × (length taken < length c'.taken)
  peer_connector-connects my_id attempts taken f e h up =
      let c : Inbox (TcpStream Frame) = record { taken = taken; takes = none } in
      let (c', returned, all) = peer_connector_lem my_id attempts c h tt in
      (
        c',
        returned,
        omega (
          arith,
          ap length all,
          length-append taken (registered my_id attempts),
          registered-nonempty my_id attempts f e up,
        ),
      )
