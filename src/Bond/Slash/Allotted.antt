-- ===== src/Bond/Slash/Allotted.antt =====
-- The slashes of a range's slices stay within the bond (src/app/bond/slash.rs).
use mostro.Prelude.{
  ℕ, suc, String, Bool, true, false, ◌≡◌, refl, ap, ◌∙◌, Option, none, some, List, [], ◌∷◌, ◌++◌,
  Bool-cases, inl, inr, ◌⊎◌, arith, ◌==◌, ◌&&◌, not,
}
use mostro.Prelude.Int.{ℤ, pos, ◌+ℤ◌, ◌-ℤ◌, ◌≤ℤ◌, leb_ℤ, max_ℤ, min_ℤ, i64, i64_max, int_laws}
use mostro.Prelude.Float.{Float64}
use mostro.Result.{Result, ok, err}
use mostro.Bond.Types.{BondSlashReason, locked}
use mostro.Bond.Model.{Bond}
use mostro.Bond.Env.{Order, Kind}
use mostro.Bond.Table.{World, ◌>>=◌, pure, lift, execute, cas, update_rows, count_rows}
use mostro.Bond.Payout.{or_err}
use mostro.Bond.Queries.{is_slice_of, is_slice_child, insert_where, stating, sum_slices}
use mostro.Bond.Slash.Sums.{slice_total, sum-update_rows, sum-append_counted, remainder}
use mostro.Bond.Slash.Range.{
  any, may_slash, set_slashed_share, update_slashed_share, insert_child, slice_share, record_share,
  slash_slice, record_maker_slice_slash, maker_key, positive,
}
use mostro.Bond.Slash.Ends.{Ends}
use mostro.Bond.Slash.Resynced.{Recorded, record_maker_slice_slash-InStep}
use mostro.Bond.Slash.Slices.{
  count-update_rows, count-append, count-any, bind-rows, insert-rows, execute-rows,
}

-- The parent as it was loaded knows what its slices' rows come to, within its amount.
pub record InSync (parent : Bond) (bs : List Bond) : Type 0 where
  pub synced : parent.slashed_share_sats ≡ slice_total parent.id bs
  pub low : pos 0 ≤ℤ slice_total parent.id bs
  pub high : slice_total parent.id bs ≤ℤ parent.amount_sats
  pub fits : parent.amount_sats ≤ℤ i64_max

-- Afterwards the slices' rows still come to no less than nothing and no more than the bond, and no
-- second row for the slice was added.
pub record Bounded (parent : Bond) (slice_id : ℕ) (bs cs : List Bond) : Type 0 where
  pub low : pos 0 ≤ℤ slice_total parent.id cs
  pub high : slice_total parent.id cs ≤ℤ parent.amount_sats
  pub once :
      (count_rows (is_slice_child parent.id slice_id) cs
        ≡ count_rows (is_slice_child parent.id slice_id) bs)
      ⊎ ((count_rows (is_slice_child parent.id slice_id) bs ≡ 0)
          × (count_rows (is_slice_child parent.id slice_id) cs ≡ 1))

within : (t x a : ℤ) → x ≤ℤ (a -ℤ t) → (t +ℤ x) ≤ℤ a
within t x a h = grind int_laws

new_slice : (found open_still : Bool) → not found && open_still ≡ true → found ≡ false
new_slice true open_still h = absurd (ground arith)
new_slice false open_still h = refl

clamped :
    (raw remaining : ℤ) → pos 0 ≤ℤ remaining → max_ℤ (pos 0) (min_ℤ raw remaining) ≤ℤ remaining
clamped raw remaining h = ground arith

not_negative : (x : ℤ) → pos 0 ≤ℤ max_ℤ (pos 0) x
not_negative x = ground arith

module _ (parent : Bond) (slice_id : ℕ) (bs : List Bond) where
  unchanged : InSync parent bs → Bounded parent slice_id bs bs
  unchanged sound = record { low = sound.low; high = sound.high; once = inl refl }

  retotalled :
      (fits : Bond → Bool) (total : ℤ) (cs : List Bond)
      → Bounded parent slice_id bs cs
      → Bounded parent slice_id bs (update_rows fits (set_slashed_share total) cs)
  retotalled fits total cs h =
      let same =
        sum-update_rows (is_slice_of parent.id) fits (set_slashed_share total) cs (λ _. refl)
          (λ _. refl) in
      record {
        low = rw same (h.low);
        high = rw same (h.high);
        once = rw (count-update_rows parent.id slice_id fits total cs) (h.once);
      }

  added :
      (row : Bond)
      → InSync parent bs
      → is_slice_child parent.id slice_id row ≡ true
      → is_slice_of parent.id row ≡ true
      → pos 0 ≤ℤ row.amount_sats
      → row.amount_sats ≤ℤ (parent.amount_sats -ℤ slice_total parent.id bs)
      → any (is_slice_child parent.id slice_id) bs ≡ false
      → Bounded parent slice_id bs (bs ++ (row ∷ []))
  added row sound is_child is_slice low high is_new =
      let sums = sum-append_counted (is_slice_of parent.id) row bs is_slice in
      let fresh = count-any parent.id slice_id bs is_new in
      record {
        low = rw sums (grind int_laws);
        high = rw sums (within (slice_total parent.id bs) row.amount_sats parent.amount_sats high);
        once = inr (fresh, count-append parent.id slice_id row bs is_child ∙ ap (λ n. suc n) fresh);
      }

  updated :
      (w : World)
      → Bounded parent slice_id bs w.bonds
      → Bounded parent slice_id bs (update_slashed_share parent.id w).1.bonds
  unfolding update_slashed_share stating lift pure
  updated w h =
      bind-rows (Bounded parent slice_id bs) (lift (sum_slices parent.id w.bonds)) _ w h
        (λ total w' k.
          bind-rows (Bounded parent slice_id bs)
            (execute (cas parent.id locked) (set_slashed_share total)) _ w'
            (execute-rows (Bounded parent slice_id bs) (cas parent.id locked)
              (set_slashed_share total) w' k (retotalled (cas parent.id locked) total w'.bonds k))
            (λ _ w'' done. done))

  inserted :
      (child : Bond) (w : World)
      → w.bonds ≡ bs
      → InSync parent bs
      → is_slice_child parent.id slice_id child ≡ true
      → is_slice_of parent.id child ≡ true
      → pos 0 ≤ℤ child.amount_sats
      → child.amount_sats ≤ℤ (parent.amount_sats -ℤ slice_total parent.id bs)
      → Bounded parent slice_id bs (insert_child parent.id slice_id child w).1.bonds
  unfolding insert_child pure
  inserted child w same sound is_child is_slice low high =
      bind-rows (Bounded parent slice_id bs) (insert_where (may_slash parent.id slice_id) child) _ w
        (insert-rows (Bounded parent slice_id bs) (may_slash parent.id slice_id) child w
          (rw same (unchanged sound))
          (λ allowed.
            rw same
              (added child sound is_child is_slice low high (new_slice _ _ (rw same at allowed)))))
        (λ rows w' h. elim (Bool-cases (rows == 0)) [
          | inl none_added ↦ rw none_added h
          | inr one_added ↦ rw one_added (
              bind-rows (Bounded parent slice_id bs) (update_slashed_share parent.id) _ w'
                (updated w' h) (λ _ w'' k. k))
        ])

self : (n : ℕ) → (n == n) ≡ true
self n = ground arith

-- What is left of the bond.
remains :
    (parent : Bond) (bs : List Bond)
    → InSync parent bs
    → max_ℤ (i64 (parent.amount_sats -ℤ parent.slashed_share_sats)) (pos 0)
      ≡ (parent.amount_sats -ℤ slice_total parent.id bs)
remains parent bs sound =
    rw (sound.synced) (remainder parent.amount_sats _ sound.low sound.high sound.fits)

room : (a t : ℤ) → t ≤ℤ a → pos 0 ≤ℤ (a -ℤ t)
room a t h = grind int_laws

module _ (f : Float64) (pct : f.F) where
  share_bounds :
      (parent : Bond) (fiat max_fiat : ℤ) (bs : List Bond)
      → InSync parent bs
      → (pos 0 ≤ℤ slice_share f pct parent fiat max_fiat)
        × (slice_share f pct parent fiat max_fiat
            ≤ℤ (parent.amount_sats -ℤ slice_total parent.id bs))
  unfolding slice_share
  share_bounds parent fiat max_fiat bs sound =
      let left = parent.amount_sats -ℤ slice_total parent.id bs in
      let raw = f.to_i64 (
        f.round
          (f.div (f.mul (f.of_i64 parent.amount_sats) (f.of_i64 fiat)) (f.of_i64 max_fiat))) in
      rw (remains parent bs sound)
        (not_negative (min_ℤ raw left), clamped raw left (room _ _ sound.high))

  record_share-Bounded :
      (fresh : ℕ) (now : ℤ) (slice : Order) (parent : Bond) (reason : BondSlashReason)
      (key : String) (share : ℤ) (w : World)
      → InSync parent w.bonds
      → pos 0 ≤ℤ share
      → share ≤ℤ (parent.amount_sats -ℤ slice_total parent.id w.bonds)
      → Bounded parent slice.id w.bonds
          (record_share f pct fresh now slice parent reason key share w).1.bonds
  unfolding record_share pure
  record_share-Bounded fresh now slice parent reason key share w sound low high =
      elim (Bool-cases (leb_ℤ share (pos 0))) [
        | inl nothing ↦ rw nothing (unchanged parent slice.id w.bonds sound)
        | inr something ↦ rw something (
            inserted parent slice.id w.bonds _ w refl sound
              (rw (self parent.id, self slice.id) refl) (rw (self parent.id) refl) low high)
      ]

  slash_slice-Bounded :
      (fresh : ℕ) (now : ℤ) (slice : Order) (parent : Bond) (reason : BondSlashReason)
      (key : Option String) (max_fiat : Option ℤ) (w : World)
      → InSync parent w.bonds
      → Bounded parent slice.id w.bonds
          (slash_slice f pct fresh now slice parent reason key max_fiat w).1.bonds
  unfolding pure
  slash_slice-Bounded fresh now slice parent reason none max_fiat w sound =
      unchanged parent slice.id w.bonds sound
  slash_slice-Bounded fresh now slice parent reason (some key) none w sound =
      unchanged parent slice.id w.bonds sound
  slash_slice-Bounded fresh now slice parent reason (some key) (some max_fiat) w sound =
      let bounds = share_bounds parent slice.fiat_amount max_fiat w.bonds sound in
      record_share-Bounded fresh now slice parent reason key _ w sound bounds.0 bounds.1

  kind_read :
      (kind : Result Kind) (fresh : ℕ) (now : ℤ) (slice root : Order) (parent : Bond)
      (reason : BondSlashReason) (w : World)
      → InSync parent w.bonds
      → Bounded parent slice.id w.bonds
          ((lift kind >>= λ k.
              slash_slice f pct fresh now slice parent reason
                (maker_key slice k)
                (positive root.max_amount))
            w).1.bonds
  unfolding lift ◌>>=◌
  kind_read (err e) fresh now slice root parent reason w sound =
      unchanged parent slice.id w.bonds sound
  kind_read (ok k) fresh now slice root parent reason w sound =
      slash_slice-Bounded fresh now slice parent reason _ _ w sound

  -- Let the parent bond, as the caller loaded it, carry the sum of its slices' rows, from 0 to the
  -- bond's amount. Then, whatever the floats round to and whichever statements of this call fail, the
  -- slices' rows afterwards still come to a sum from 0 to the bond's amount, and either there are as
  -- many rows for this slice as before, or there was none and is one. Where the call answers that a row
  -- was added, each locked row of the bond's id carries the sum of the slices' rows again; after an
  -- error it may not.
  pub record_maker_slice_slash-Bounded :
      (fresh : ℕ) (now : ℤ) (slice root : Order) (parent : Bond) (reason : BondSlashReason)
      (w : World)
      → InSync parent w.bonds
      → Bounded parent slice.id w.bonds
          (record_maker_slice_slash f pct fresh now slice root parent reason w).1.bonds
        × Ends
            (Recorded parent.id)
            (record_maker_slice_slash f pct fresh now slice root parent reason w)
  record_maker_slice_slash-Bounded fresh now slice root parent reason w sound = (
    unfold record_maker_slice_slash in
        kind_read (or_err slice.kind) fresh now slice root parent reason w sound,
    record_maker_slice_slash-InStep f pct fresh now slice parent reason root w,
  )
