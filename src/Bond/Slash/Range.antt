-- ===== src/Bond/Slash/Range.antt =====
-- The maker's bond of a range order (src/app/bond/slash.rs): one hold invoice for the whole range, a
-- row for the slash of each slice, and the settlement when the range is closed.
use mostro.Prelude.{
  ℕ, String, Bool, true, false, ◌&&◌, not, Option, none, some, List, [], ◌∷◌, if◌then◌else◌, keep,
  ◌==◌, is_some,
}
use mostro.Prelude.Int.{ℤ, pos, ◌-ℤ◌, leb_ℤ, max_ℤ, min_ℤ, i64}
use mostro.Prelude.Float.{Float64}
use mostro.Bond.Types.{
  BondSlashReason, lost_dispute, maker, locked, slashed, pending_payout, show_reason, show_state,
}
use mostro.Bond.Model.{Bond, new_requested}
use mostro.Bond.Env.{Env, Order, Kind, buy, sell}
use mostro.Bond.Table.{M, ◌>>=◌, ◌>>◌, pure, lift, fetch, execute, in_state, cas}
use mostro.Bond.Math.{compute_node_share}
use mostro.Bond.Payout.{or_err, ignore, set_state}
use mostro.Bond.Lightning.{Lightning, settle_hold_invoice, is_settled}
use mostro.Bond.Queries.{
  find_range_root_order, find_maker_bond_for_order, find_child_slashes_for_parent, is_slice_child,
  is_slice_of, insert_where, stating, sum_sats, sum_slices, transaction, or_warn,
}
use mostro.Bond.Release.{release_bond}

abbrev pub maker_key : Order → Kind → Option String
maker_key slice sell = slice.seller_pubkey
maker_key slice buy = slice.buyer_pubkey

abbrev pub positive : Option ℤ → Option ℤ
positive none = none
positive (some m) = if leb_ℤ m (pos 0) then none else some m

-- The row of a slash, less what tells a slice's from the refund's. It shares the parent's hold
-- invoice, and the other columns have the defaults of the schema.
abbrev pub payout_row : ℕ → ℕ → ℕ → String → ℤ → String → ℤ → ℤ → Bond
payout_row id order_id parent_id key amount reason node_share now =
    record (new_requested id now order_id key maker amount) {
      parent_bond_id = some parent_id;
      state = show_state pending_payout;
      slashed_reason = some reason;
      node_share_sats = some node_share;
      slashed_at = some now;
    }

abbrev pub any : (Bond → Bool) → List Bond → Bool
any p [] = false
any p (b ∷ bs) = let rest = any p bs in if p b then true else rest

-- No row for this slice yet, and the parent is locked.
abbrev pub may_slash : ℕ → ℕ → List Bond → Bool
may_slash parent_id slice_id bs =
    not (any (is_slice_child parent_id slice_id) bs) && any (cas parent_id locked) bs

abbrev pub set_slashed_share : ℤ → Bond → Bond
set_slashed_share total b = record b { slashed_share_sats = total }

-- The parent's running total, summed over its slices' rows.
unfoldable pub update_slashed_share : ℕ → M (Unit {0})
update_slashed_share parent_id = stating (λ bs. lift (sum_slices parent_id bs) >>= λ total.
    ignore (execute (cas parent_id locked) (set_slashed_share total)))

unfoldable pub insert_child : ℕ → ℕ → Bond → M Bool
insert_child parent_id slice_id child =
    insert_where (may_slash parent_id slice_id) child >>= λ rows.
    if rows == 0 then pure false else (update_slashed_share parent_id >> pure true)

module _ (f : Float64) (pct : f.F) where
  -- The slice's part of the bond, at most what is left of it.
  unfoldable pub slice_share : Bond → ℤ → ℤ → ℤ
  slice_share parent fiat max_fiat =
      let raw = f.to_i64 (
        f.round
          (f.div (f.mul (f.of_i64 parent.amount_sats) (f.of_i64 fiat)) (f.of_i64 max_fiat))) in
      let remaining = max_ℤ (i64 (parent.amount_sats -ℤ parent.slashed_share_sats)) (pos 0) in
      max_ℤ (pos 0) (min_ℤ raw remaining)

  -- `fresh` is the new row's id, `now` the clock's reading.
  unfoldable pub record_share : ℕ → ℤ → Order → Bond → BondSlashReason → String → ℤ → M Bool
  record_share fresh now slice parent reason key share =
      if leb_ℤ share (pos 0)
      then pure false
      else insert_child parent.id slice.id
          (record (payout_row fresh slice.id parent.id key share (show_reason reason)
            (compute_node_share f share pct) now) { child_order_id = some slice.id })

  abbrev pub slash_slice :
      ℕ → ℤ → Order → Bond → BondSlashReason → Option String → Option ℤ → M Bool
  slash_slice fresh now slice parent reason none max_fiat = pure false
  slash_slice fresh now slice parent reason (some key) none = pure false
  slash_slice fresh now slice parent reason (some key) (some max_fiat) =
      record_share fresh now slice parent reason key (slice_share parent slice.fiat_amount max_fiat)

  unfoldable pub record_maker_slice_slash : ℕ → ℤ → Order → Order → Bond → BondSlashReason → M Bool
  record_maker_slice_slash fresh now slice root parent reason = lift (or_err slice.kind) >>= λ kind.
      slash_slice fresh now slice parent reason (maker_key slice kind) (positive root.max_amount)

abbrev pub reanchor : ℤ → Bond → Bond
reanchor now b = record b { slashed_at = some now }

-- A slice's row that waits for its payout: its claim window starts anew.
abbrev pub reanchors : ℕ → Bond → Bool
reanchors parent_id b = is_slice_of parent_id b && in_state pending_payout b

unfoldable pub reanchor_children : ℕ → ℤ → List Bond → M (Unit {0})
reanchor_children parent_id now [] = pure tt
reanchor_children parent_id now (_ ∷ _) = ignore (execute (reanchors parent_id) (reanchor now))

abbrev pub or_lost_dispute : Option String → String
or_lost_dispute none = show_reason lost_dispute
or_lost_dispute (some reason) = reason

abbrev pub reason_of : List Bond → String
reason_of [] = show_reason lost_dispute
reason_of (c ∷ _) = or_lost_dispute c.slashed_reason

abbrev pub refund_row : ℕ → ℤ → Bond → Order → List Bond → ℤ → Bond
refund_row fresh now parent root children refund =
    payout_row fresh root.id parent.id parent.pubkey refund (reason_of children) (pos 0) now

abbrev pub always : List Bond → Bool
always _ = true

unfoldable pub insert_refund : ℕ → ℤ → Bond → Order → List Bond → ℤ → M (Unit {0})
insert_refund fresh now parent root children refund =
    if leb_ℤ refund (pos 0)
    then pure tt
    else ignore (insert_where always (refund_row fresh now parent root children refund))

-- Once the parent is slashed.
unfoldable pub distribute : ℕ → ℤ → Bond → Order → List Bond → M Bool
distribute fresh now parent root children = fetch (sum_slices parent.id) >>= λ sum.
    lift sum >>= λ total.
    reanchor_children parent.id now children
    >> insert_refund fresh now parent root children
        (max_ℤ (i64 (parent.amount_sats -ℤ total)) (pos 0))
    >> pure true

-- The transaction's statements; `false` rolls them back.
unfoldable pub close_rows : ℕ → ℤ → Bond → Order → List Bond → M Bool
close_rows fresh now parent root children =
    execute (cas parent.id locked) (set_state slashed) >>= λ rows.
    if rows == 1 then distribute fresh now parent root children else pure false

abbrev pub close_settled : ℕ → Lightning → Bond → Order → List Bond → Option String → M (Unit {0})
close_settled fresh lnd parent root children answer =
    if is_settled answer
    then transaction (close_rows fresh (lnd.clock parent.id) parent root children)
    else pure tt

unfoldable pub settle_parent :
    ℕ → Lightning → Bond → Order → List Bond → Option String → M (Unit {0})
settle_parent fresh lnd parent root children none = pure tt
settle_parent fresh lnd parent root children (some preimage) =
    settle_hold_invoice lnd preimage >>= close_settled fresh lnd parent root children

abbrev pub is_zero : ℤ → Bool
is_zero z = leb_ℤ z (pos 0) && leb_ℤ (pos 0) z

-- The rows of the slices, which a bond that is not a range's has none of.
abbrev pub slice_children : Bond → Option ℤ → M (List Bond)
slice_children parent none = pure []
slice_children parent (some _) = find_child_slashes_for_parent parent.id >>= λ children.
    pure (keep (λ c. is_some c.child_order_id) children)

unfoldable pub close_parent : ℕ → Env → Lightning → Order → Bond → M (Unit {0})
close_parent fresh env lnd order parent = lift (find_range_root_order env order) >>= λ root.
    slice_children parent root.max_amount >>= λ children.
    if is_zero (i64 (sum_sats children))
    then release_bond lnd parent
    else settle_parent fresh lnd parent root children parent.preimage

abbrev pub close_found : ℕ → Env → Lightning → Order → Option Bond → M (Unit {0})
close_found fresh env lnd order none = pure tt
close_found fresh env lnd order (some parent) =
    if in_state locked parent then close_parent fresh env lnd order parent else pure tt

unfoldable pub resolve_range_maker_bond_at_close : ℕ → Env → Lightning → Order → M (Unit {0})
resolve_range_maker_bond_at_close fresh env lnd order =
    find_maker_bond_for_order env order >>= close_found fresh env lnd order

-- Nothing is opened where there is no locked bond.
abbrev pub close_if_locked : ℕ → Env → Lightning → Order → Option Bond → M (Unit {0})
close_if_locked fresh env lnd order none = pure tt
close_if_locked fresh env lnd order (some b) =
    if in_state locked b
    then (if lnd.connects b.id
        then resolve_range_maker_bond_at_close fresh env lnd order
        else pure tt)
    else pure tt

unfoldable pub resolve_range_maker_bond_at_close_or_warn :
    ℕ → Env → Lightning → Order → M (Unit {0})
resolve_range_maker_bond_at_close_or_warn fresh env lnd order =
    or_warn (find_maker_bond_for_order env order >>= close_if_locked fresh env lnd order)
