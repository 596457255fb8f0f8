-- ===== src/Common/Framing.antt =====
-- common.rs, module utils: how a TCP stream is framed into messages. Bincode and the length-delimited
-- frames are parameters: a frame is what one message is written as. A stream is the reads that it
-- yields, each with the frames that it completes, and the frames that were written to it.
pub mod Ends
use id2203_project.Base.{Bool, if◌then◌else◌, Option, none, some, List, [], ◌∷◌, ◌++◌, map}
use id2203_project.Common.Messages.{
  RegistrationMessage, ClusterMessage, ClientMessage, ServerMessage,
}

-- A message too large for a frame is not serialised.
pub record Bincode (Frame M : Type 0) : Type 0 where
  pub serialize : M → Option Frame
  pub deserialize : Frame → Option M

-- The message types of the four kinds of connections.
pub record Formats (Frame Message : Type 0) : Type 0 where
  pub registration : Bincode Frame RegistrationMessage
  pub cluster : Bincode Frame (ClusterMessage Message)
  pub client : Bincode Frame ClientMessage
  pub server : Bincode Frame ServerMessage

abbrev pub concat {ℓ} : {A : Type ℓ} → List (List A) → List A
concat [] = []
concat (xs ∷ xss) = xs ++ concat xss

module _ (Frame : Type 0) where
  pub record TcpStream : Type 0 where
    pub incoming : List (List Frame)
    pub outgoing : List Frame

  -- The reading and the writing half of a split stream, each with the type of its messages.
  pub record FramedRead (M : Type 0) : Type 0 where
    pub reads : List (List Frame)
    pub format : Bincode Frame M

  pub record FramedWrite (M : Type 0) : Type 0 where
    pub written : List Frame
    pub format : Bincode Frame M

  -- Both directions of one stream. Frames that have been read and not asked for stand in a buffer.
  pub record FramedBoth (M : Type 0) : Type 0 where
    pub stream : TcpStream
    pub buffer : List Frame
    pub format : Bincode Frame M

  abbrev pub RegistrationConnection : Type 0
  RegistrationConnection = FramedBoth RegistrationMessage

  abbrev pub FromServerConnection : Type 0
  FromServerConnection = FramedRead ServerMessage

  abbrev pub ToServerConnection : Type 0
  ToServerConnection = FramedWrite ClientMessage

  abbrev pub FromClientConnection : Type 0
  FromClientConnection = FramedRead ClientMessage

  abbrev pub ToClientConnection : Type 0
  ToClientConnection = FramedWrite ServerMessage

  module _ (Message : Type 0) where
    abbrev pub FromNodeConnection : Type 0
    FromNodeConnection = FramedRead (ClusterMessage Message)

    abbrev pub ToNodeConnection : Type 0
    ToNodeConnection = FramedWrite (ClusterMessage Message)

module _ {Frame : Type 0} where
  -- What reading to the end yields: nothing for a frame that is not deserialised.
  abbrev pub items : {M : Type 0} → FramedRead Frame M → List (Option M)
  items r = map r.format.deserialize (concat r.reads)

  -- A message that is not serialised is an error.
  unfoldable pub feed : {M : Type 0} → FramedWrite Frame M → M → Option (FramedWrite Frame M)
  feed w m = elim (w.format.serialize m) [
    | none ↦ none
    | some f ↦ some (record w { written = w.written ++ f ∷ [] })
  ]

  -- The first frame of the buffer; if it is empty, of the next read that brings one.
  unfoldable pub next_frame :
      List Frame → List (List Frame) → Option (Frame × List Frame × List (List Frame))
  next_frame (f ∷ buffer) reads = some (f, buffer, reads)
  next_frame [] [] = none
  next_frame [] (read ∷ reads) = next_frame read reads

  -- `next`: nothing at the end of the stream, else the message, or an error.
  unfoldable pub next : {M : Type 0} → FramedBoth Frame M → Option (Option M) × FramedBoth Frame M
  unfolding next_frame
  next c = elim (next_frame c.buffer c.stream.incoming) [
    | none ↦ (none, record c { stream = record c.stream { incoming = [] } })
    | some (f, buffer, reads) ↦ (
      some (c.format.deserialize f),
      record c { buffer = buffer; stream = record c.stream { incoming = reads } },
    )
  ]

  -- `send`: an error if the message is not serialised, or the stream is broken.
  unfoldable pub send_both :
      {M : Type 0} → FramedBoth Frame M → M → Bool → Option (FramedBoth Frame M)
  send_both c m up = elim (c.format.serialize m) [
    | none ↦ none
    | some f ↦
        if up
        then some (record c { stream = record c.stream { outgoing = c.stream.outgoing ++ f ∷ [] } })
        else none
  ]

  -- The stream alone: the buffer is dropped.
  abbrev pub into_inner : {M : Type 0} → FramedBoth Frame M → TcpStream Frame
  into_inner c = c.stream

  module _ {Message : Type 0} (formats : Formats Frame Message) where
    unfoldable pub frame_registration_connection : TcpStream Frame → RegistrationConnection Frame
    frame_registration_connection stream = record {
      stream = stream;
      buffer = [];
      format = formats.registration;
    }

    unfoldable pub frame_cluster_connection :
        TcpStream Frame → FromNodeConnection Frame Message × ToNodeConnection Frame Message
    frame_cluster_connection stream = (
      record { reads = stream.incoming; format = formats.cluster },
      record { written = stream.outgoing; format = formats.cluster },
    )

    -- The client's side of a connection between a client and a server.
    unfoldable pub frame_clients_connection :
        TcpStream Frame → FromServerConnection Frame × ToServerConnection Frame
    frame_clients_connection stream = (
      record { reads = stream.incoming; format = formats.server },
      record { written = stream.outgoing; format = formats.client },
    )

    -- The server's side of it.
    unfoldable pub frame_servers_connection :
        TcpStream Frame → FromClientConnection Frame × ToClientConnection Frame
    frame_servers_connection stream = (
      record { reads = stream.incoming; format = formats.client },
      record { written = stream.outgoing; format = formats.server },
    )
