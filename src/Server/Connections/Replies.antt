-- ===== src/Server/Connections/Replies.antt =====
-- What the writer task of a client's connection puts on the wire.
use id2203_project.Base.{
  ℕ, zero, suc, ◌+◌, ◌≡◌, refl, sym, ap, ◌∙◌, Bool, true, false, List, [], ◌∷◌, ◌++◌, append_assoc,
  append-nil, arith, inl, inr, Bool-cases, length, take, take-nil,
}
use id2203_project.Common.Messages.{ServerMessage}
use id2203_project.Common.Framing.{concat}
use id2203_project.Common.Tasks.{Wire, WireFaults, feed_wire, flush_wire}
use id2203_project.Common.Tasks.Readers.{take-front}
use id2203_project.Server.Connections.{client_write_batch, client_writer}

-- The wire holds the first messages of a list, past what it held; all of them if the task goes on.
abbrev pub WritesFirst :
    Wire ServerMessage → Wire ServerMessage × Bool → List ServerMessage → Type 0
WritesFirst w r ms = (k : ℕ) × (r.0.fed ≡ w.fed ++ take k ms) × (r.1 ≡ true → r.0.fed ≡ w.fed ++ ms)

take-longer :
    (xs ys : List ServerMessage) (k : ℕ) → take (length xs + k) (xs ++ ys) ≡ xs ++ take k ys
take-longer [] ys k = ap (λ n. take n ys) (omega arith)
take-longer (x ∷ xs) ys k =
    let e : length (x ∷ xs) + k ≡ suc (length xs + k) = omega arith in
    rw e (ap (λ r. x ∷ r) (take-longer xs ys k))

take-shorter : (xs ys : List ServerMessage) (k : ℕ) → (j : ℕ) × (take j (xs ++ ys) ≡ take k xs)
take-shorter [] ys k = (0, sym (take-nil k))
take-shorter (x ∷ xs) ys zero = (0, refl)
take-shorter (x ∷ xs) ys (suc k) = let (j, e) = take-shorter xs ys k in (suc j, ap (λ r. x ∷ r) e)

stops :
    (w w' : Wire ServerMessage) (ms : List ServerMessage)
    → w'.fed ≡ w.fed
    → WritesFirst w (w', false) ms
stops w w' ms e = (0, e ∙ sym (append-nil w.fed), λ more. absurd (ground (arith, more)))

client_write_batch-WritesFirst :
    (faults : WireFaults ServerMessage) (ms : List ServerMessage) (w : Wire ServerMessage)
    → WritesFirst w (client_write_batch faults ms w) ms
unfolding client_write_batch feed_wire
client_write_batch-WritesFirst faults [] w =
    (0, sym (append-nil w.fed), λ _. sym (append-nil w.fed))
client_write_batch-WritesFirst faults (m ∷ ms) w = elim (Bool-cases (faults.feed_ok w.feeds m)) [
  | inl ok ↦
      let w1 = record w { fed = w.fed ++ m ∷ []; feeds = suc w.feeds } in
      let (k, e, all) = client_write_batch-WritesFirst faults ms w1 in
      rw (ok, client_write_batch, feed_wire)
        (
          suc k,
          e ∙ append_assoc w.fed (m ∷ []) (take k ms),
          λ more. all more ∙ append_assoc w.fed (m ∷ []) ms,
        )
  | inr bad ↦
      rw (bad, client_write_batch, feed_wire)
        (stops w (record w { feeds = suc w.feeds }) (m ∷ ms) refl)
]

-- Whatever calls fail, the wire holds the first messages, and all of them if the task goes on.
pub client_writer-WritesFirst :
    (faults : WireFaults ServerMessage) (batches : List (List ServerMessage))
    (w : Wire ServerMessage)
    → WritesFirst w (client_writer faults batches w) (concat batches)
unfolding client_writer flush_wire
client_writer-WritesFirst faults [] w = (0, sym (append-nil w.fed), λ _. sym (append-nil w.fed))
client_writer-WritesFirst faults (ms ∷ batches) w =
    let r = client_write_batch faults ms w in
    let (k, e, all) = client_write_batch-WritesFirst faults ms w in
    let w2 = record r.0 { flushes = suc r.0.flushes } in
    let (k', e', all') = client_writer-WritesFirst faults batches w2 in
    elim (Bool-cases r.1) [
      | inl fed ↦ elim (Bool-cases (faults.flush_ok r.0.flushes)) [
        | inl ok ↦
            rw (fed, client_writer)
              (rw ok (
                length ms + k',
                e'
                    ∙ (ap (λ f. f ++ take k' (concat batches)) (all fed)
                        ∙ (append_assoc w.fed ms (take k' (concat batches))
                            ∙ ap (λ f. w.fed ++ f) (sym (take-longer ms (concat batches) k')))),
                λ more.
                    all' more
                    ∙ (ap (λ f. f ++ concat batches) (all fed)
                        ∙ append_assoc w.fed ms (concat batches)),
              ))
        | inr bad ↦
            rw (fed, client_writer)
              (rw bad (
                length ms,
                all fed ∙ ap (λ f. w.fed ++ f) (sym (take-front ms (concat batches))),
                λ more. absurd (ground (arith, more)),
              ))
      ]
      | inr bad ↦
          let (k2, same) = take-shorter ms (concat batches) k in
          rw (bad, client_writer)
            (k2, e ∙ ap (λ f. w.fed ++ f) (sym same), λ more. absurd (ground (arith, more)))
    ]
