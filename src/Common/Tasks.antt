-- ===== src/Common/Tasks.antt =====
-- What the reader and writer tasks of connections run on: the channel that a reader passes messages to,
-- and the wire of a writer.
pub mod Readers
pub mod Writers
use id2203_project.Base.{
  ℕ, suc, Bool, true, false, Option, none, some, List, [], ◌∷◌, ◌++◌, length, leb, if◌then◌else◌,
}

-- The receiver of a channel takes so many messages in all, or any number, and then it is dropped.
pub record Inbox (M : Type 0) : Type 0 where
  pub taken : List M
  pub takes : Option ℕ

abbrev pub is_closed : {M : Type 0} → Inbox M → Bool
is_closed i = elim i.takes [ none ↦ false | some n ↦ leb n (length i.taken) ]

-- `Sender::send`, which waits for room and fails when the receiver has been dropped.
unfoldable pub offer : {M : Type 0} → Inbox M → M → Option (Inbox M)
offer i m = if is_closed i then none else some (record i { taken = i.taken ++ m ∷ [] })

-- The messages that were fed to the stream, and the calls so far.
pub record Wire (M : Type 0) : Type 0 where
  pub fed : List M
  pub feeds : ℕ
  pub flushes : ℕ

-- How each call ends: a feed may depend on the message, which may be too large.
pub record WireFaults (M : Type 0) : Type 0 where
  pub feed_ok : ℕ → M → Bool
  pub flush_ok : ℕ → Bool

unfoldable pub feed_wire : {M : Type 0} → WireFaults M → Wire M → M → Wire M × Bool
feed_wire faults w m =
    if faults.feed_ok w.feeds m
    then (record w { fed = w.fed ++ m ∷ []; feeds = suc w.feeds }, true)
    else (record w { feeds = suc w.feeds }, false)

unfoldable pub flush_wire : {M : Type 0} → WireFaults M → Wire M → Wire M × Bool
flush_wire faults w = (record w { flushes = suc w.flushes }, faults.flush_ok w.flushes)

-- The writer of the connections between servers, and of a client's connection to its server. A feed
-- that fails ends the loop over a batch, and the rest of the batch is dropped.
unfoldable pub write_batch : {M : Type 0} → WireFaults M → List M → Wire M → Wire M
write_batch faults [] w = w
write_batch faults (msg ∷ buffer) w =
    let (w', ok) = feed_wire faults w msg in
    let rest = write_batch faults buffer w' in if ok then rest else w'

-- The task ends when a flush fails.
unfoldable pub write_batches : {M : Type 0} → WireFaults M → List (List M) → Wire M → Wire M
write_batches faults [] w = w
write_batches faults (buffer ∷ batches) w =
    let (w', ok) = flush_wire faults (write_batch faults buffer w) in
    let rest = write_batches faults batches w' in if ok then rest else w'
