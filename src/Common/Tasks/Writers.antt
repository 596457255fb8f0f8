-- ===== src/Common/Tasks/Writers.antt =====
-- What the writer tasks put on the wire.
use id2203_project.Base.{
  ℕ, suc, ◌+◌, ◌≡◌, refl, sym, ap, ◌∙◌, Bool, true, false, List, [], ◌∷◌, ◌++◌, append_assoc,
  append-nil, arith, inl, inr, Bool-cases, replicate, length, length-append, length-replicate,
  if◌then◌else◌,
}
use id2203_project.Common.Tasks.{
  Wire, WireFaults, feed_wire, flush_wire, write_batch, write_batches,
}
use id2203_project.Common.Framing.{concat}

-- The entries of a list that a mask keeps, in their order; past its end none.
abbrev pub kept : {M : Type 0} → List Bool → List M → List M
kept [] ms = []
kept (keep ∷ mask) [] = []
kept (keep ∷ mask) (m ∷ ms) = let rest = kept mask ms in if keep then m ∷ rest else rest

kept-append :
    {M : Type 0} (mask mask' : List Bool) (xs ys : List M)
    → length mask ≡ length xs
    → kept (mask ++ mask') (xs ++ ys) ≡ kept mask xs ++ kept mask' ys
kept-append [] mask' [] ys e = refl
kept-append [] mask' (x ∷ xs) ys e = absurd (omega arith)
kept-append (b ∷ mask) mask' [] ys e = absurd (omega arith)
kept-append (true ∷ mask) mask' (x ∷ xs) ys e =
    ap (λ r. x ∷ r) (kept-append mask mask' xs ys (omega arith))
kept-append (false ∷ mask) mask' (x ∷ xs) ys e = kept-append mask mask' xs ys (omega arith)

kept-none : {M : Type 0} (xs : List M) → kept (replicate (length xs) false) xs ≡ []
kept-none [] = refl
kept-none (x ∷ xs) = kept-none xs

module _ {M : Type 0} where
  -- The messages of a list that stand on a wire, past what stood there.
  abbrev pub Written : Wire M → Wire M → List M → Type 0
  Written w w' ms =
      (mask : List Bool) × (length mask ≡ length ms) × (w'.fed ≡ w.fed ++ kept mask ms)

  pub write_batch-Written :
      (faults : WireFaults M) (ms : List M) (w : Wire M) → Written w (write_batch faults ms w) ms
  unfolding write_batch feed_wire
  write_batch-Written faults [] w = ([], refl, sym (append-nil w.fed))
  write_batch-Written faults (m ∷ ms) w = elim (Bool-cases (faults.feed_ok w.feeds m)) [
    | inl ok ↦
        let w1 = record w { fed = w.fed ++ m ∷ []; feeds = suc w.feeds } in
        let (mask, len, e) = write_batch-Written faults ms w1 in
        (
          true ∷ mask,
          omega arith,
          rw (ok, write_batch, feed_wire) (e ∙ append_assoc w.fed (m ∷ []) (kept mask ms)),
        )
    | inr bad ↦ (
      replicate (length (m ∷ ms)) false,
      length-replicate (length (m ∷ ms)) false,
      rw (bad, write_batch, feed_wire)
          (sym (ap (λ r. w.fed ++ r) (kept-none ms) ∙ append-nil w.fed)),
    )
  ]

  -- When no feed fails.
  pub write_batch-all :
      (faults : WireFaults M) (ms : List M) (w : Wire M)
      → ((n : ℕ) (m : M) → faults.feed_ok n m ≡ true)
      → (write_batch faults ms w).fed ≡ w.fed ++ ms
  unfolding write_batch feed_wire
  write_batch-all faults [] w ok = sym (append-nil w.fed)
  write_batch-all faults (m ∷ ms) w ok =
      let w1 = record w { fed = w.fed ++ m ∷ []; feeds = suc w.feeds } in
      rw (ok w.feeds m, write_batch, feed_wire)
        (write_batch-all faults ms w1 ok ∙ append_assoc w.fed (m ∷ []) ms)

  pub Written-append :
      (w w1 w2 : Wire M) (xs ys : List M)
      → Written w w1 xs
      → Written w1 w2 ys
      → Written w w2 (xs ++ ys)
  Written-append w w1 w2 xs ys (mask, len, e) (mask', len', e') = (
    mask ++ mask',
    omega (arith, length-append mask mask', length-append xs ys),
    e'
        ∙ (ap (λ r. r ++ kept mask' ys) e
            ∙ (append_assoc w.fed (kept mask xs) (kept mask' ys)
                ∙ ap (λ r. w.fed ++ r) (sym (kept-append mask mask' xs ys len)))),
  )

  nothing-Written : (w w' : Wire M) (ms : List M) → w'.fed ≡ w.fed → Written w w' ms
  nothing-Written w w' ms e = (
    replicate (length ms) false,
    length-replicate (length ms) false,
    e ∙ sym (ap (λ r. w.fed ++ r) (kept-none ms) ∙ append-nil w.fed),
  )

  -- Whatever calls fail, the wire holds some of the messages, in their order.
  pub write_batches-Written :
      (faults : WireFaults M) (batches : List (List M)) (w : Wire M)
      → Written w (write_batches faults batches w) (concat batches)
  unfolding write_batches flush_wire
  write_batches-Written faults [] w = ([], refl, sym (append-nil w.fed))
  write_batches-Written faults (ms ∷ batches) w =
      let w1 = write_batch faults ms w in
      let w2 = record w1 { flushes = suc w1.flushes } in
      Written-append w w2 (write_batches faults (ms ∷ batches) w) ms (concat batches)
        (write_batch-Written faults ms w)
        (elim (Bool-cases (faults.flush_ok w1.flushes)) [
          | inl ok ↦ rw (ok, write_batches, flush_wire) (write_batches-Written faults batches w2)
          | inr bad ↦
              rw (bad, write_batches, flush_wire) (nothing-Written w2 w2 (concat batches) refl)
        ])

  -- No call fails: all that the writer is given is fed.
  pub write_batches-all :
      (faults : WireFaults M) (batches : List (List M)) (w : Wire M)
      → ((n : ℕ) (m : M) → faults.feed_ok n m ≡ true)
      → ((n : ℕ) → faults.flush_ok n ≡ true)
      → (write_batches faults batches w).fed ≡ w.fed ++ concat batches
  unfolding write_batches flush_wire
  write_batches-all faults [] w feeds flushes = sym (append-nil w.fed)
  write_batches-all faults (ms ∷ batches) w feeds flushes =
      let w1 = write_batch faults ms w in
      let w2 = record w1 { flushes = suc w1.flushes } in
      rw (flushes w1.flushes, write_batches, flush_wire)
        (write_batches-all faults batches w2 feeds flushes
          ∙ (ap (λ r. r ++ concat batches) (write_batch-all faults ms w feeds)
              ∙ append_assoc w.fed ms (concat batches)))

  -- The feeds of these messages succeed, from a number of feeds on.
  abbrev pub AllFed : WireFaults M → ℕ → List M → Type 0
  AllFed faults n [] = Unit
  AllFed faults n (m ∷ ms) = (faults.feed_ok n m ≡ true) × AllFed faults (suc n) ms

  -- A wire when some messages have been fed, then a feed has failed, and there was a flush.
  abbrev pub cut : Wire M → List M → Wire M
  cut w before = record {
    fed = w.fed ++ before;
    feeds = w.feeds + suc (length before);
    flushes = suc w.flushes;
  }

  write_batch-cut :
      (faults : WireFaults M) (before : List M) (m : M) (rest : List M) (w : Wire M)
      → AllFed faults w.feeds before
      → faults.feed_ok (w.feeds + length before) m ≡ false
      → write_batch faults (before ++ m ∷ rest) w ≡ record {
        fed = w.fed ++ before;
        feeds = w.feeds + suc (length before);
        flushes = w.flushes;
      }
  unfolding write_batch feed_wire
  write_batch-cut faults [] m rest w fine bad =
      let here : faults.feed_ok w.feeds m ≡ false =
        ap (λ n. faults.feed_ok n m) (omega arith) ∙ bad in
      rw (here, write_batch, feed_wire)
        (ap (λ fed. record w { fed = fed; feeds = suc w.feeds }) (sym (append-nil w.fed))
          ∙ ap (λ n. record w { fed = w.fed ++ []; feeds = n }) (omega arith))
  write_batch-cut faults (x ∷ before) m rest w fine bad =
      let w1 = record w { fed = w.fed ++ x ∷ []; feeds = suc w.feeds } in
      let there : faults.feed_ok (w1.feeds + length before) m ≡ false =
        ap (λ n. faults.feed_ok n m) (omega arith) ∙ bad in
      rw (fine.0, write_batch, feed_wire)
        (write_batch-cut faults before m rest w1 fine.1 there
          ∙ (ap (λ fed. record w { fed = fed; feeds = w1.feeds + suc (length before) })
                (append_assoc w.fed (x ∷ []) before)
              ∙ ap (λ n. record w { fed = w.fed ++ x ∷ before; feeds = n }) (omega arith)))

  -- When a writer of a connection between servers, or of a client to its server, feeds some
  -- messages of a batch (none, or any number) and then cannot feed one, that message and the rest
  -- of the batch are dropped: what is on the wire is what was there and the messages fed before,
  -- the writer goes on with the next batch exactly if the flush succeeds, and whatever calls fail
  -- later, only messages of later batches are added to the wire, each at most once and in their
  -- order.
  pub write_batches-drops :
      (faults : WireFaults M) (before : List M) (m : M) (rest : List M) (batches : List (List M))
      (w : Wire M)
      → AllFed faults w.feeds before
      → faults.feed_ok (w.feeds + length before) m ≡ false
      → (write_batches faults ((before ++ m ∷ rest) ∷ batches) w ≡ (
          if faults.flush_ok w.flushes
          then write_batches faults batches (cut w before)
          else cut w before))
        × ((mask : List Bool) × (length mask ≡ length (concat batches))
            × ((write_batches faults ((before ++ m ∷ rest) ∷ batches) w).fed
                ≡ (w.fed ++ before) ++ kept mask (concat batches)))
  unfolding write_batches flush_wire
  write_batches-drops faults before m rest batches w fine bad =
      let stops = write_batch-cut faults before m rest w fine bad in
      let goes : write_batches faults ((before ++ m ∷ rest) ∷ batches) w ≡ (
          if faults.flush_ok w.flushes
          then write_batches faults batches (cut w before)
          else cut w before) =
        rw (stops, write_batches, flush_wire) refl in
      (
        goes,
        elim (Bool-cases (faults.flush_ok w.flushes)) [
          | inl ok ↦ rw goes (rw ok (write_batches-Written faults batches (cut w before)))
          | inr bad ↦
              rw goes (rw bad (nothing-Written (cut w before) (cut w before) (concat batches) refl))
        ],
      )
