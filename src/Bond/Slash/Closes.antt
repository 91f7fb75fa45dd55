-- ===== src/Bond/Slash/Closes.antt =====
-- What the close of a maker's bond may do to the table (src/app/bond/slash.rs).
use mostro.Prelude.{
  ℕ, String, true, ◌≡◌, refl, ap, ◌∙◌, sym, Option, none, some, List, Bool-cases, inl, inr, ◌⊎◌,
  if◌then◌else◌, keep, is_some,
}
use mostro.Prelude.Int.{ℤ, i64}
use mostro.Result.{ok}
use mostro.Bond.Types.{locked, maker}
use mostro.Bond.Model.{Bond}
use mostro.Bond.Env.{Env, Order}
use mostro.Bond.Table.{
  World, ◌>>=◌, pure, lift, fetch, in_state, update_rows, first, order_by, older,
}
use mostro.Bond.Lightning.{Lightning, is_settled, settle_hold_invoice, call}
use mostro.Bond.Answers.{Answer, bind-Answer, map-Answer, fetch-Reads}
use mostro.Bond.Effects.{same_id}
use mostro.Bond.Queries.{
  overwrite, find_range_root_order, is_parent_of_order, find_maker_bond_for_order, sum_sats,
  find_bond_by_order_and_role, find_child_slashes_for_parent, transaction,
}
use mostro.Bond.Release.{release_bond, set_released}
use mostro.Bond.Release.Gone.{Released, was_over, is_released, release_bond-Released}
use mostro.Bond.Slash.Ends.{transaction-Answer}
use mostro.Bond.Slash.Sums.{slice_total, is_child_of, sum-order_by, keep-keep}
use mostro.Bond.Slash.Close.{Distributed}
use mostro.Bond.Slash.Conserved.{InAccount, closed}
use mostro.Bond.Slash.Range.{
  slice_children, close_rows, settle_parent, close_parent, close_found, is_zero,
  resolve_range_maker_bond_at_close,
}

-- The handler's outcome on the rows; `root` is the order that the bond was posted for.
pub data Closes (lnd : Lightning) (root : Order) (parent : Bond) (bs cs : List Bond) : Type 0 where
  left_open : cs ≡ bs → Closes lnd root parent bs cs
  returned :
      (root.max_amount ≡ none) ⊎ (is_zero (i64 (slice_total parent.id bs)) ≡ true)
      → cs ≡ update_rows (same_id parent) (overwrite (set_released (lnd.clock parent.id) parent)) bs
      → Closes lnd root parent bs cs
  paid_out :
      (preimage : String)
      → parent.preimage ≡ some preimage
      → is_settled (lnd.settle_answer preimage) ≡ true
      → Distributed parent cs
      → Closes lnd root parent bs cs

module _ (fresh : ℕ) (env : Env) (lnd : Lightning) (order root : Order) (parent : Bond)
    (bs : List Bond) where
  abbrev Closing : Unit {0} → World → Type 0
  Closing _ w = Closes lnd root parent bs w.bonds

  ended :
      (w w' : World)
      → w.bonds ≡ bs
      → ((root.max_amount ≡ none) ⊎ (is_zero (i64 (slice_total parent.id bs)) ≡ true))
      → Released lnd parent w w'
      → Closes lnd root parent bs w'.bonds
  ended w w' same unslashed (was_over _ _ _ idle) = left_open (ap (λ x. x.bonds) idle ∙ same)
  ended w w' same unslashed (is_released _ written) =
      returned unslashed (written ∙ ap (update_rows _ _) same)

  transacted :
      (children : List Bond) (preimage : String) (w : World)
      → w.bonds ≡ bs
      → InAccount parent bs
      → parent.preimage ≡ some preimage
      → is_settled (lnd.settle_answer preimage) ≡ true
      → Answer bs Closing
          (transaction (close_rows fresh (lnd.clock parent.id) parent root children) w)
  transacted children preimage w same sound has done =
      let body = close_rows fresh (lnd.clock parent.id) parent root children in
      map-Answer bs w.bonds (λ _ w'. (w'.bonds ≡ w.bonds) ⊎ Distributed parent w'.bonds) Closing
        (transaction body w) same
        (λ _ w' h. elim h [
          | inl kept ↦ left_open (kept ∙ same)
          | inr paid ↦ paid_out preimage has done paid
        ])
        (transaction-Answer (Distributed parent) body w (λ w' again.
          closed fresh (lnd.clock parent.id) parent root children w' (rw (again ∙ same) sound)))

  settled :
      (children : List Bond) (preimage : Option String) (w : World)
      → w.bonds ≡ bs
      → InAccount parent bs
      → parent.preimage ≡ preimage
      → Answer bs Closing (settle_parent fresh lnd parent root children preimage w)
  unfolding settle_parent settle_hold_invoice call ◌>>=◌ pure
  settled children none w same sound has = left_open same
  settled children (some preimage) w same sound has =
      elim (Bool-cases (is_settled (lnd.settle_answer preimage))) [
        | inl done ↦ rw done (transacted children preimage _ same sound has done)
        | inr failed ↦ rw failed (left_open same)
      ]

  -- The slices' rows, as far as the sum goes.
  abbrev Summed : Option ℤ → List Bond → World → Type 0
  Summed max_amount children w =
      (w.bonds ≡ bs) × ((max_amount ≡ none) ⊎ (sum_sats children ≡ slice_total parent.id bs))

  children_read :
      (max_amount : Option ℤ) (w : World)
      → w.bonds ≡ bs
      → Answer bs (Summed max_amount) (slice_children parent max_amount w)
  unfolding find_child_slashes_for_parent pure
  children_read none w same = (same, inl refl)
  children_read (some m) w same =
      let own = keep (is_child_of parent.id) in
      bind-Answer bs (λ cs w'. (w'.bonds ≡ bs) × (cs ≡ order_by older (own bs))) (Summed (some m))
        (fetch (λ rows. order_by older (own rows))) _ w
        (fetch-Reads bs (λ rows. order_by older (own rows)) w same)
        (λ cs w' (kept, read). (
          kept,
          inr (
              ap (λ x. sum_sats (keep (λ c. is_some c.child_order_id) x)) read
              ∙ sum-order_by (λ c. is_some c.child_order_id) older (own bs)
              ∙ ap sum_sats (keep-keep (λ c. is_some c.child_order_id) (is_child_of parent.id) bs)),
        ))

  unslashed :
      (children : List Bond)
      → is_zero (i64 (sum_sats children)) ≡ true
      → (root.max_amount ≡ none) ⊎ (sum_sats children ≡ slice_total parent.id bs)
      → (root.max_amount ≡ none) ⊎ (is_zero (i64 (slice_total parent.id bs)) ≡ true)
  unslashed children nothing (inl fixed) = inl fixed
  unslashed children nothing (inr sums) = inr (ap (λ x. is_zero (i64 x)) (sym sums) ∙ nothing)

  resolved :
      (children : List Bond) (w : World)
      → InAccount parent bs
      → Summed root.max_amount children w
      → Answer bs Closing (
          (if is_zero (i64 (sum_sats children))
              then release_bond lnd parent
              else settle_parent fresh lnd parent root children parent.preimage)
            w)
  resolved children w sound (same, sums) = elim (Bool-cases (is_zero (i64 (sum_sats children)))) [
    | inl nothing ↦ rw nothing (
        map-Answer bs w.bonds (λ _. Released lnd parent w) Closing (release_bond lnd parent w) same
          (λ _ w' h. ended w w' same (unslashed children nothing sums) h)
          (release_bond-Released lnd parent w))
    | inr something ↦ rw something (settled children parent.preimage w same sound refl)
  ]

  abbrev Root : Order → World → Type 0
  Root found w = (w.bonds ≡ bs) × (found ≡ root)

  Root-read :
      (w : World)
      → w.bonds ≡ bs
      → find_range_root_order env order ≡ ok root
      → Answer bs Root (lift (find_range_root_order env order) w)
  unfolding lift
  Root-read w same is_root = rw is_root (same, refl)

  close_parent-Closing :
      (w : World)
      → w.bonds ≡ bs
      → find_range_root_order env order ≡ ok root
      → InAccount parent bs
      → Answer bs Closing (close_parent fresh env lnd order parent w)
  unfolding close_parent
  close_parent-Closing w same is_root sound =
      bind-Answer bs Root Closing (lift (find_range_root_order env order)) _ w
        (Root-read w same is_root)
        (λ found w1 read. rw (read.1) (
          bind-Answer bs (Summed root.max_amount) Closing (slice_children parent root.max_amount) _
            w1 (children_read root.max_amount w1 read.0)
            (λ children w2 summed. resolved children w2 sound summed)))

  abbrev Found : Option Bond → World → Type 0
  Found found w = (w.bonds ≡ bs) × (found ≡ some parent)

  parent_read :
      (w : World)
      → w.bonds ≡ bs
      → find_range_root_order env order ≡ ok root
      → first (keep (is_parent_of_order root.id maker) bs) ≡ some parent
      → Answer bs Found (find_maker_bond_for_order env order w)
  unfolding find_maker_bond_for_order find_bond_by_order_and_role
  parent_read w same is_root is_parent =
      bind-Answer bs Root Found (lift (find_range_root_order env order)) _ w
        (Root-read w same is_root)
        (λ found w1 read. rw (read.1) (
          map-Answer bs bs
            (λ o w'. (w'.bonds ≡ bs) × (o ≡ first (keep (is_parent_of_order root.id maker) bs)))
            Found _ refl (λ o w' h. (h.0, h.1 ∙ is_parent))
            (fetch-Reads bs (λ rows. first (keep (is_parent_of_order root.id maker) rows)) w1
              read.0)))

  decided :
      (found : Option Bond) (w : World)
      → find_range_root_order env order ≡ ok root
      → InAccount parent bs
      → Found found w
      → Answer bs Closing (close_found fresh env lnd order found w)
  unfolding pure
  decided found w is_root sound (same, is_parent) =
      rw is_parent (elim (Bool-cases (in_state locked parent)) [
        | inl open_still ↦ rw open_still (close_parent-Closing w same is_root sound)
        | inr over ↦ rw over (left_open same)
      ])

-- Let `parent` be the maker's bond of the range, in account: its slices' rows come to no more than
-- its amount, and there is no refund row yet. Whatever fails on the way, an error of the close leaves every
-- row as it was. Without one, either nothing is changed; or the bond is given back, which happens
-- only where the order has no range or the slices' rows come to nothing; or the node has settled
-- the hold invoice, the bond is no longer locked, and the rows below it, the slices' and the
-- refund, come to exactly the bond's amount.
pub resolve_range_maker_bond_at_close-Closes :
    (fresh : ℕ) (env : Env) (lnd : Lightning) (order root : Order) (parent : Bond) (w : World)
    → find_range_root_order env order ≡ ok root
    → first (keep (is_parent_of_order root.id maker) w.bonds) ≡ some parent
    → InAccount parent w.bonds
    → Answer w.bonds
        (λ _ w'. Closes lnd root parent w.bonds w'.bonds)
        (resolve_range_maker_bond_at_close fresh env lnd order w)
unfolding resolve_range_maker_bond_at_close
resolve_range_maker_bond_at_close-Closes fresh env lnd order root parent w is_root is_parent sound =
    bind-Answer w.bonds (Found fresh env lnd order root parent w.bonds)
      (Closing fresh env lnd order root parent w.bonds) (find_maker_bond_for_order env order) _ w
      (parent_read fresh env lnd order root parent w.bonds w refl is_root is_parent)
      (λ found w' h. decided fresh env lnd order root parent w.bonds found w' is_root sound h)
