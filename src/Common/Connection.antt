-- ===== src/Common/Connection.antt =====
-- A connection of server/network.rs or client/network.rs with the two tasks that its constructor spawns:
-- the channel of its outgoing messages, the writer that drains it with `recv_many`, and the reader. The
-- connections differ in their rounds of the two tasks.
pub mod Life
pub mod Drains
use mathlib.Core.Option
use id2203_project.Base.{
  ℕ, ◌+◌, Bool, true, false, Option, none, some, List, [], ◌∷◌, take, drop, length, if◌then◌else◌,
}
use id2203_project.Common.Channel.{Outbox, fresh_outbox}
use id2203_project.Common.Channel
use id2203_project.Common.Tasks.{Wire}
use id2203_project.Common.Framing.{FramedRead, FramedWrite}

-- A round of the writer on a buffer, and of the reader on a chunk; each says whether its task goes on.
pub record Tasks (M Chunk Incoming : Type 0) : Type 0 where
  pub write_round : List M → Wire M → Wire M × Bool
  pub read_round : Chunk → Incoming → Incoming × Bool

-- `received` counts the messages that the writer has taken; `held` says whether the connection, and with
-- it the sender of the channel, is still there.
pub record Connection (M Incoming : Type 0) : Type 0 where
  pub outgoing_messages : Outbox M
  pub received : ℕ
  pub held : Bool
  pub reading : Bool
  pub wire : Wire M
  pub incoming : Incoming

-- The halves of the stream, the rounds of the tasks, and the connection.
pub record Spawned (Frame Out In Incoming : Type 0) : Type 0 where
  pub reader : FramedRead Frame In
  pub writer : FramedWrite Frame Out
  pub tasks : Tasks Out (List (Option In)) Incoming
  pub connection : Connection Out Incoming

-- What happens to a connection: a send, the turns of its tasks, that it is dropped, or closed.
pub data Turn (M Chunk : Type 0) : Type 0 where
  sending : M → Turn M Chunk
  writing : Turn M Chunk
  arriving : Chunk → Turn M Chunk
  dropping closing : Turn M Chunk

abbrev pub blank : {M : Type 0} → Wire M
blank = record { fed = []; feeds = 0; flushes = 0 }

module _ {M Incoming : Type 0} where
  abbrev pub new : Incoming → Connection M Incoming
  new incoming = record {
    outgoing_messages = fresh_outbox;
    received = 0;
    held = true;
    reading = true;
    wire = blank;
    incoming = incoming;
  }

  -- A send fails when the writer, which holds the receiver, has ended.
  unfoldable pub send : Connection M Incoming → M → Option (Connection M Incoming)
  send c msg =
      Option.map (λ o. record c { outgoing_messages = o }) (Channel.send c.outgoing_messages msg)

  -- Both tasks are aborted, and the connection is gone.
  unfoldable pub close : Connection M Incoming → Connection M Incoming
  close c = record c {
    outgoing_messages = record c.outgoing_messages { receiver_alive = false };
    held = false;
    reading = false;
  }

  -- What `recv_many` takes.
  abbrev pub buffer : ℕ → Connection M Incoming → List M
  buffer batch_size c = take batch_size (drop c.received c.outgoing_messages.sent)

  -- The writer waits while the channel is empty and has a sender, and ends when it has none.
  unfoldable pub write_turn :
      (List M → Wire M → Wire M × Bool) → ℕ → Connection M Incoming → Connection M Incoming
  write_turn write_round batch_size c = elim (buffer batch_size c) [
    | [] ↦
        if c.held
        then c
        else record c { outgoing_messages = record c.outgoing_messages { receiver_alive = false } }
    | m ∷ ms ↦
        let (wire, more) = write_round (m ∷ ms) c.wire in
        record c {
          outgoing_messages = record c.outgoing_messages { receiver_alive = more };
          received = c.received + length (m ∷ ms);
          wire = wire;
        }
  ]

module _ {M Chunk Incoming : Type 0} (tasks : Tasks M Chunk Incoming) (batch_size : ℕ) where
  unfoldable pub turn : Connection M Incoming → Turn M Chunk → Connection M Incoming
  turn c (sending msg) = if c.held then elim (send c msg) [ none ↦ c | some c' ↦ c' ] else c
  turn c writing =
      if c.outgoing_messages.receiver_alive then write_turn tasks.write_round batch_size c else c
  turn c (arriving chunk) =
      let (incoming, more) = tasks.read_round chunk c.incoming in
      if c.reading then record c { incoming = incoming; reading = more } else c
  turn c dropping = record c { held = false }
  turn c closing = if c.held then close c else c

  unfoldable pub turns : Connection M Incoming → List (Turn M Chunk) → Connection M Incoming
  turns c [] = c
  turns c (t ∷ ts) = turns (turn c t) ts
