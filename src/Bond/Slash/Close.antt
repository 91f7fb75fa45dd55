-- ===== src/Bond/Slash/Close.antt =====
-- The close of a range pays out exactly the bond (src/app/bond/slash.rs).
use mostro.Prelude.{
  ℕ, Bool, true, false, ◌≡◌, refl, ap, ◌∙◌, List, [], ◌∷◌, ◌++◌, Bool-cases, inl, inr, arith, ◌==◌,
}
use mostro.Prelude.Int.{ℤ, pos, ◌+ℤ◌, ◌-ℤ◌, ◌≤ℤ◌, leb_ℤ, int_laws}
use mostro.Bond.Types.{locked, slashed}
use mostro.Bond.Model.{Bond}
use mostro.Bond.Env.{Order}
use mostro.Bond.Table.{World, M, pure, execute, cas, in_state, update_rows, is_faulty}
use mostro.Bond.Payout.{ignore, set_state}
use mostro.Bond.Effects.{Writes, execute-Writes}
use mostro.Bond.Queries.{insert_where, is_slice_of}
use mostro.Bond.Slash.Ends.{Ends, bind-Ends, map-Ends, Answer-Ends}
use mostro.Bond.Slash.Sums.{
  slice_total, child_total, is_child_of, sum-update_rows, sum-append_counted,
}
use mostro.Bond.Slash.Range.{
  any, always, reanchor, reanchors, reanchor_children, insert_refund, refund_row,
}

-- No row of that id is locked any more, and the rows below it come to the amount.
pub record Distributed (parent : Bond) (bs : List Bond) : Type 0 where
  pub closed : any (cas parent.id locked) bs ≡ false
  pub whole : child_total parent.id bs ≡ parent.amount_sats

not_locked : (id : ℕ) (b : Bond) → in_state locked b ≡ false → cas id locked b ≡ false
not_locked id b out = elim (Bool-cases (b.id == id)) [
  | inl hit ↦ rw hit out
  | inr other ↦ rw other refl
]

filled : (t r a : ℤ) → r ≡ (a -ℤ t) → (t +ℤ r) ≡ a
filled t r a h = grind int_laws

nothing_left : (t r a : ℤ) → r ≡ (a -ℤ t) → t ≤ℤ a → leb_ℤ r (pos 0) ≡ true → t ≡ a
nothing_left t r a h high none_left = grind int_laws

pub none_locked :
    (id : ℕ) (bs : List Bond)
    → any (cas id locked) (update_rows (cas id locked) (set_state slashed) bs) ≡ false
unfolding update_rows
none_locked id [] = refl
none_locked id (b ∷ bs) = elim (Bool-cases (cas id locked b)) [
  | inl hit ↦ rw (hit, not_locked id (set_state slashed b) refl) (none_locked id bs)
  | inr other ↦ rw (other, other) (none_locked id bs)
]

module _ (p : Bond → Bool) where
  any-update_rows :
      (fits : Bond → Bool) (change : Bond → Bond) (bs : List Bond)
      → ((b : Bond) → p (change b) ≡ p b)
      → any p (update_rows fits change bs) ≡ any p bs
  unfolding update_rows
  any-update_rows fits change [] same = refl
  any-update_rows fits change (b ∷ bs) same = elim (Bool-cases (fits b)) [
    | inl fit ↦ rw (fit, same b, any-update_rows fits change bs same) refl
    | inr other ↦ rw (other, any-update_rows fits change bs same) refl
  ]

  any-append : (row : Bond) (bs : List Bond) → p row ≡ false → any p (bs ++ (row ∷ [])) ≡ any p bs
  any-append row [] out = rw out refl
  any-append row (b ∷ bs) out = rw (any-append row bs out) refl

-- Between the parent's change and the refund's row.
pub record Settling (parent : Bond) (total : ℤ) (bs : List Bond) : Type 0 where
  pub closed : any (cas parent.id locked) bs ≡ false
  pub slices : slice_total parent.id bs ≡ total
  pub children : child_total parent.id bs ≡ total

ignored :
    {A : Type 0} (Q : World → Type 0) (m : M A) (w : World)
    → Ends (λ _ w'. Q w') (m w)
    → Ends (λ _ w'. Q w') (ignore m w)
unfolding pure
ignored Q m w h = bind-Ends (λ _ w'. Q w') (λ _ w'. Q w') m _ w h (λ _ w' k. k)

inserted :
    (row : Bond) (w : World)
    → Ends (λ _ w'. w'.bonds ≡ (w.bonds ++ (row ∷ []))) (insert_where always row w)
unfolding insert_where
inserted row w = elim (Bool-cases (is_faulty w.faults)) [
  | inl fault ↦ rw fault tt
  | inr fine ↦ rw fine refl
]

updated :
    (Q : List Bond → Type 0) (fits : Bond → Bool) (change : Bond → Bond) (w : World)
    → Q (update_rows fits change w.bonds)
    → Ends (λ _ w'. Q w'.bonds) (ignore (execute fits change) w)
updated Q fits change w h =
    ignored (λ w'. Q w'.bonds) (execute fits change) w
      (Answer-Ends w.bonds (Writes fits change w) (λ _ w'. Q w'.bonds) (execute fits change w)
        (λ rows w' k. rw (k.written) h) (execute-Writes fits change w))

self : (n : ℕ) → (n == n) ≡ true
self n = ground arith

module _ (parent : Bond) (total : ℤ) where
  pub reanchored :
      (now : ℤ) (children : List Bond) (w : World)
      → Settling parent total w.bonds
      → Ends (λ _ w'. Settling parent total w'.bonds) (reanchor_children parent.id now children w)
  unfolding reanchor_children pure
  reanchored now [] w h = h
  reanchored now (_ ∷ _) w h =
      updated (Settling parent total) (reanchors parent.id) (reanchor now) w (record {
        closed =
            any-update_rows (cas parent.id locked) (reanchors parent.id) (reanchor now) w.bonds
              (λ _. refl)
            ∙ h.closed;
        slices =
            sum-update_rows (is_slice_of parent.id) (reanchors parent.id) (reanchor now) w.bonds
              (λ _. refl) (λ _. refl)
            ∙ h.slices;
        children =
            sum-update_rows (is_child_of parent.id) (reanchors parent.id) (reanchor now) w.bonds
              (λ _. refl) (λ _. refl)
            ∙ h.children;
      })

  pub refunded :
      (fresh : ℕ) (now : ℤ) (root : Order) (children : List Bond) (refund : ℤ) (w : World)
      → refund ≡ (parent.amount_sats -ℤ total)
      → total ≤ℤ parent.amount_sats
      → Settling parent total w.bonds
      → Ends
          (λ _ w'. Distributed parent w'.bonds)
          (insert_refund fresh now parent root children refund w)
  unfolding insert_refund pure
  refunded fresh now root children refund w is_rest high h =
      elim (Bool-cases (leb_ℤ refund (pos 0))) [
        | inl nothing ↦ rw nothing (record {
          closed = h.closed;
          whole = h.children ∙ nothing_left total refund parent.amount_sats is_rest high nothing;
        })
        | inr something ↦ rw something (
            map-Ends
              (λ _ w'.
                w'.bonds ≡ (w.bonds ++ (refund_row fresh now parent root children refund ∷ [])))
              (λ _ w'. Distributed parent w'.bonds) _
              (λ _ w' k. rw k (record {
                closed =
                    any-append (cas parent.id locked) _ w.bonds
                      (not_locked parent.id (refund_row fresh now parent root children refund) refl)
                    ∙ h.closed;
                whole =
                    sum-append_counted (is_child_of parent.id) _ w.bonds (self parent.id)
                    ∙ ap (λ t. t +ℤ refund) h.children
                    ∙ filled total refund parent.amount_sats is_rest;
              }))
              (ignored
                (λ w'.
                  w'.bonds ≡ (w.bonds ++ (refund_row fresh now parent root children refund ∷ [])))
                _ w (inserted (refund_row fresh now parent root children refund) w)))
      ]
