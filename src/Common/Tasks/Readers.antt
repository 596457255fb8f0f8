-- ===== src/Common/Tasks/Readers.antt =====
-- Offering messages to a channel one after the other, which is what the reader tasks come to.
use id2203_project.Base.{
  ℕ, zero, suc, ◌≤◌, ◌≡◌, refl, sym, ap, ◌∙◌, true, Option, none, some, List, [], ◌∷◌, ◌++◌, map,
  append_assoc, append-nil, arith, inl, inr, Bool-cases, length, length-append, leb, take,
}
use id2203_project.Common.Tasks.{Inbox, is_closed, offer}

-- The messages among what a stream yields.
abbrev pub well_formed : {M : Type 0} → List (Option M) → List M
well_formed [] = []
well_formed (none ∷ ms) = well_formed ms
well_formed (some m ∷ ms) = m ∷ well_formed ms

abbrev pub limit : {M : Type 0} → Option ℕ → List M → List M
limit none ms = ms
limit (some n) ms = take n ms

take-all : {M : Type 0} (xs : List M) (n : ℕ) → length xs ≤ n → take n xs ≡ xs
take-all [] zero h = refl
take-all [] (suc n) h = refl
take-all (x ∷ xs) zero h = absurd (omega arith)
take-all (x ∷ xs) (suc n) h = ap (λ r. x ∷ r) (take-all xs n (omega arith))

pub take-front : {M : Type 0} (xs ys : List M) → take (length xs) (xs ++ ys) ≡ xs
take-front [] ys = refl
take-front (x ∷ xs) ys = ap (λ r. x ∷ r) (take-front xs ys)

module _ {M : Type 0} where
  -- A channel has not taken more than it takes.
  abbrev pub IsWithin : Inbox M → Type 0
  IsWithin i = elim i.takes [ none ↦ Unit | some n ↦ length i.taken ≤ n ]

  -- Until the first send that fails.
  unfoldable pub offer_all : Inbox M → List M → Inbox M
  offer_all i [] = i
  offer_all i (m ∷ ms) = elim (offer i m) [ none ↦ i | some i' ↦ offer_all i' ms ]

  pub taken-offer_all :
      (taken : List M) (takes : Option ℕ) (ms : List M)
      → IsWithin (record { taken = taken; takes = takes })
      → (offer_all (record { taken = taken; takes = takes }) ms).taken ≡ limit takes (taken ++ ms)
  unfolding offer_all offer
  taken-offer_all taken none [] h = sym (append-nil taken)
  taken-offer_all taken none (m ∷ ms) h =
      taken-offer_all (taken ++ m ∷ []) none ms tt ∙ append_assoc taken (m ∷ []) ms
  taken-offer_all taken (some n) [] h = sym (ap (take n) (append-nil taken) ∙ take-all taken n h)
  taken-offer_all taken (some n) (m ∷ ms) h = elim (Bool-cases (leb n (length taken))) [
    | inl full ↦
        let same : n ≡ length taken = ground arith in
        rw (full, offer_all, offer) (sym (rw same (take-front taken (m ∷ ms))))
    | inr room ↦
        let lt : length (taken ++ m ∷ []) ≤ n = ground (arith, length-append taken (m ∷ [])) in
        rw (room, offer_all, offer)
          (taken-offer_all (taken ++ m ∷ []) (some n) ms lt
            ∙ ap (take n) (append_assoc taken (m ∷ []) ms))
  ]

  pub offer_all-closed : (i : Inbox M) (ms : List M) → is_closed i ≡ true → offer_all i ms ≡ i
  unfolding offer_all offer
  offer_all-closed i [] h = refl
  offer_all-closed i (m ∷ ms) h = rw (h, offer_all, offer) refl

  -- A channel that has been closed stays closed, so what follows makes no difference.
  pub offer_all-append :
      (i : Inbox M) (ms ns : List M) → offer_all i (ms ++ ns) ≡ offer_all (offer_all i ms) ns
  unfolding offer_all offer
  offer_all-append i [] ns = refl
  offer_all-append i (m ∷ ms) ns = elim (Bool-cases (is_closed i)) [
    | inl full ↦ rw (full, offer_all, offer) (sym (offer_all-closed i ns full))
    | inr room ↦
        rw (room, offer_all, offer)
          (offer_all-append (record i { taken = i.taken ++ m ∷ [] }) ms ns)
  ]

  pub offer-none : (i : Inbox M) (m : M) → offer i m ≡ none → is_closed i ≡ true
  unfolding offer
  offer-none i m e = elim (Bool-cases (is_closed i)) [
    | inl full ↦ full
    | inr room ↦ absurd (ground (arith, room, e))
  ]

pub well_formed-append :
    {M : Type 0} (xs ys : List (Option M))
    → well_formed (xs ++ ys) ≡ well_formed xs ++ well_formed ys
well_formed-append [] ys = refl
well_formed-append (none ∷ xs) ys = well_formed-append xs ys
well_formed-append (some m ∷ xs) ys = ap (λ r. m ∷ r) (well_formed-append xs ys)

-- When every frame is deserialised.
pub well_formed-some : {M : Type 0} (ms : List M) → well_formed (map some ms) ≡ ms
well_formed-some [] = refl
well_formed-some (m ∷ ms) = ap (λ r. m ∷ r) (well_formed-some ms)
