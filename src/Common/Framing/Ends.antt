-- ===== src/Common/Framing/Ends.antt =====
-- The two ends of a connection read each other's messages.
use mathlib.Core.Option.{some-injective}
use id2203_project.Base.{
  ◌≡◌, refl, sym, ap, ◌∙◌, Option, none, some, List, [], ◌∷◌, ◌++◌, map, append_assoc, append-nil,
  arith, Option-cases, inl, inr,
}
use id2203_project.Common.Messages.{ClusterMessage}
use id2203_project.Common.Framing.{
  Bincode, Formats, TcpStream, FramedRead, FramedWrite, concat, items, feed,
  frame_cluster_connection,
}

pub append-injective {ℓ} : {A : Type ℓ} (xs ys zs : List A) → xs ++ ys ≡ xs ++ zs → ys ≡ zs
append-injective [] ys zs e = e
append-injective (x ∷ xs) ys zs e = append-injective xs ys zs (ground (arith, e))

-- What was written is read back.
abbrev pub ReadsBack : {Frame M : Type 0} → Bincode Frame M → Type 0
ReadsBack {Frame} {M} b = (m : M) (f : Frame) → b.serialize m ≡ some f → b.deserialize f ≡ some m

module _ {Frame M : Type 0} where
  -- Messages one after the other, until one is not serialised.
  unfoldable pub feed_all : FramedWrite Frame M → List M → Option (FramedWrite Frame M)
  feed_all w [] = some w
  feed_all w (m ∷ ms) = elim (feed w m) [ none ↦ none | some w' ↦ feed_all w' ms ]

  -- The frames of messages, of those that have one.
  abbrev pub frames : Bincode Frame M → List M → List Frame
  frames b [] = []
  frames b (m ∷ ms) =
      let rest = frames b ms in elim (b.serialize m) [ none ↦ rest | some f ↦ f ∷ rest ]

  written-feed_all :
      (w w' : FramedWrite Frame M) (ms : List M)
      → ReadsBack w.format
      → feed_all w ms ≡ some w'
      → (w'.written ≡ w.written ++ frames w.format ms)
        × (map w.format.deserialize (frames w.format ms) ≡ map some ms)
  unfolding feed_all feed
  written-feed_all w w' [] b e =
      (ap (λ v. v.written) (sym (some-injective w w' e)) ∙ sym (append-nil w.written), refl)
  written-feed_all w w' (m ∷ ms) b e = elim (Option-cases (w.format.serialize m)) [
    | inl none_made ↦ absurd (ground (arith, none_made, e))
    | inr (f, made) ↦
        let w1 = record w { written = w.written ++ f ∷ [] } in
        let fed : feed_all w1 ms ≡ some w' = rw (made, feed_all, feed) at e in
        let (wrote, back) = written-feed_all w1 w' ms b fed in
        (
          wrote
              ∙ (append_assoc w.written (f ∷ []) (frames w.format ms)
                  ∙ ap (λ fs. w.written ++ fs) (ground (arith, made))),
          rw (made, frames) (rw (b m f made) (ap (λ rest. some m ∷ rest) back)),
        )
  ]

  -- A reader of the same format, on a stream that brings what was written after the frames that
  -- stood there before, in reads of any sizes.
  pub items-feed_all :
      (w w' : FramedWrite Frame M) (r : FramedRead Frame M) (ms : List M)
      → ReadsBack w.format
      → r.format ≡ w.format
      → feed_all w ms ≡ some w'
      → w.written ++ concat r.reads ≡ w'.written
      → items r ≡ map some ms
  items-feed_all w w' r ms b same e arrives =
      let (wrote, back) = written-feed_all w w' ms b e in
      let all : concat r.reads ≡ frames w.format ms =
        append-injective w.written (concat r.reads) (frames w.format ms) (arrives ∙ wrote) in
      rw (same, all) back

module _ {Frame Message : Type 0} (formats : Formats Frame Message) where
  -- What a server writes to another, framed and serialised, is what the other reads, in order,
  -- however the reads cut the stream, when the format reads back what it writes and the frames
  -- arrive as they were written.
  pub cluster_ends_agree :
      ReadsBack formats.cluster
      → (here there : TcpStream Frame) (ms : List (ClusterMessage Message))
        (w : FramedWrite Frame (ClusterMessage Message))
      → feed_all (frame_cluster_connection formats here).1 ms ≡ some w
      → here.outgoing ++ concat there.incoming ≡ w.written
      → items (frame_cluster_connection formats there).0 ≡ map some ms
  unfolding frame_cluster_connection
  cluster_ends_agree back here there ms w =
      items-feed_all (frame_cluster_connection formats here).1 w
        (frame_cluster_connection formats there).0 ms back refl
