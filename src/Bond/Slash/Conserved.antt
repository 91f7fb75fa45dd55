-- ===== src/Bond/Slash/Conserved.antt =====
-- The close of a range bond as a whole (src/app/bond/slash.rs).
use mostro.Prelude.{
  ℕ, Bool, true, false, ◌≡◌, refl, ◌∙◌, sym, List, Bool-cases, inl, inr, if◌then◌else◌, arith, ◌==◌,
}
use mostro.Prelude.Int.{ℤ, pos, ◌-ℤ◌, ◌≤ℤ◌, max_ℤ, i64, i64_max}
use mostro.Result.{ok, err, Error}
use mostro.Bond.Types.{locked, slashed}
use mostro.Bond.Model.{Bond}
use mostro.Bond.Env.{Order}
use mostro.Bond.Table.{World, ◌>>◌, pure, lift, fetch, execute, cas, update_rows}
use mostro.Bond.Payout.{set_state}
use mostro.Bond.Effects.{Writes, execute-Writes}
use mostro.Bond.Queries.{sum_slices, is_slice_of}
use mostro.Bond.Slash.Ends.{Ends, bind-Ends, map-Ends, Answer-Ends, fetch-Ends, lift-Ends}
use mostro.Bond.Slash.Sums.{remainder, slice_total, child_total, is_child_of, sum-update_rows}
use mostro.Bond.Slash.Close.{Distributed, Settling, none_locked, reanchored, refunded}
use mostro.Bond.Slash.Range.{reanchor_children, insert_refund, distribute, close_rows}

guarded : (test : Bool) (x t : ℤ) (e : Error) → (if test then ok x else err e) ≡ ok t → t ≡ x
guarded true x t e h = cc
guarded false x t e h = absurd (ground arith)

pub summed : (id : ℕ) (bs : List Bond) (t : ℤ) → sum_slices id bs ≡ ok t → t ≡ slice_total id bs
unfolding sum_slices
summed id bs t h = guarded _ _ _ _ h

-- What the bond's slices came to before the close, within the bond.
pub record InAccount (parent : Bond) (bs : List Bond) : Type 0 where
  pub unrefunded : child_total parent.id bs ≡ slice_total parent.id bs
  pub low : pos 0 ≤ℤ slice_total parent.id bs
  pub high : slice_total parent.id bs ≤ℤ parent.amount_sats
  pub fits : parent.amount_sats ≤ℤ i64_max

settling :
    (parent : Bond) (bs : List Bond)
    → InAccount parent bs
    → Settling parent
        (slice_total parent.id bs)
        (update_rows (cas parent.id locked) (set_state slashed) bs)
settling parent bs sound = record {
  closed = none_locked parent.id bs;
  slices =
      sum-update_rows (is_slice_of parent.id) (cas parent.id locked) (set_state slashed) bs
        (λ _. refl) (λ _. refl);
  children =
      sum-update_rows (is_child_of parent.id) (cas parent.id locked) (set_state slashed) bs
        (λ _. refl) (λ _. refl)
      ∙ sound.unrefunded;
}

module _ (fresh : ℕ) (now : ℤ) (parent : Bond) (root : Order) (children : List Bond) where
  distributed :
      (total : ℤ) (w : World)
      → pos 0 ≤ℤ total
      → total ≤ℤ parent.amount_sats
      → parent.amount_sats ≤ℤ i64_max
      → Settling parent total w.bonds
      → Ends (λ _ w'. Distributed parent w'.bonds) (distribute fresh now parent root children w)
  unfolding distribute pure
  distributed total w low high fits h =
      bind-Ends (λ s w'. (w'.bonds ≡ w.bonds) × (s ≡ sum_slices parent.id w.bonds)) _
        (fetch (sum_slices parent.id)) _ w (fetch-Ends (sum_slices parent.id) w)
        (λ s w1 fetched.
          bind-Ends (λ t w'. (w'.bonds ≡ w1.bonds) × (s ≡ ok t)) _ (lift s) _ w1 (lift-Ends s w1)
            (λ t w2 found.
              let same : w2.bonds ≡ w.bonds = found.0 ∙ fetched.0 in
              let is_total : t ≡ total =
                summed parent.id w.bonds t (sym fetched.1 ∙ found.1) ∙ h.slices in
              bind-Ends (λ _ w'. Distributed parent w'.bonds) _
                (reanchor_children parent.id now children
                  >> insert_refund fresh now parent root children
                      (max_ℤ (i64 (parent.amount_sats -ℤ t)) (pos 0)))
                (λ _. pure true) w2
                (bind-Ends (λ _ w'. Settling parent total w'.bonds) _
                  (reanchor_children parent.id now children) _ w2
                  (reanchored parent total now children w2 (rw same h))
                  (λ _ w3 settling.
                    refunded parent total fresh now root children _ w3
                      (rw is_total (remainder parent.amount_sats total low high fits)) high
                      settling))
                (λ _ w4 done. done)))

  pub closed :
      (w : World)
      → InAccount parent w.bonds
      → Ends
          (λ commits w'. commits ≡ true → Distributed parent w'.bonds)
          (close_rows fresh now parent root children w)
  unfolding close_rows pure
  closed w sound =
      let total = slice_total parent.id w.bonds in
      bind-Ends (λ _ w'. Settling parent total w'.bonds) _
        (execute (cas parent.id locked) (set_state slashed)) _ w
        (Answer-Ends w.bonds (Writes (cas parent.id locked) (set_state slashed) w) _ _
          (λ rows w' h. rw (h.written) (settling parent w.bonds sound))
          (execute-Writes (cas parent.id locked) (set_state slashed) w))
        (λ rows w' h. elim (Bool-cases (rows == 1)) [
          | inl hit ↦ rw hit (
              map-Ends (λ _ w''. Distributed parent w''.bonds) _ _ (λ _ _ done _. done)
                (distributed total w' sound.low sound.high sound.fits h))
          | inr lost ↦ rw lost (λ no. absurd (ground arith))
        ])
