-- ===== src/Bond/Slash/Resolved.antt =====
-- The slashes, the close of a range, a dispute's resolution and the timeouts keep the rows sound
-- (src/app/bond/slash.rs).
use mostro.Prelude.{ℕ, String, true, false, Option, none, some, List, [], ◌∷◌, All, ◌==◌, ◌≡◌}
use mostro.Prelude.Int.{ℤ, pos, i64, leb_ℤ}
use mostro.Prelude.Float.{Float64}
use mostro.Result.{ok}
use mostro.Bond.Types.{BondSlashReason, locked, slashed}
use mostro.Bond.Model.{Bond}
use mostro.Bond.Env.{Env, Order}
use mostro.Bond.Table.{M, ◌>>=◌, pure, in_state, older}
use mostro.Bond.Payout.{set_state}
use mostro.Bond.Math.{compute_node_share}
use mostro.Bond.Invoice.Debts.{IfSome, keep-All, order_by-All, first-All}
use mostro.Bond.Lightning.{Lightning, settle_hold_invoice, is_settled}
use mostro.Bond.Queries.{
  find_bond_by_order_and_role, find_child_slashes_for_parent, find_range_root_order,
  find_maker_bond_for_order, sum_sats,
}
use mostro.Bond.Keeps.{
  Keeps, >>=-Keeps, >>-Keeps, pure-Keeps, lift-Keeps, fetch-Keeps, call-Keeps, if-Keeps,
  execute-Keeps, insert-Keeps, ignore-Keeps, or_warn-Keeps, stating-Keeps, transaction-Keeps,
  bind_read-Keeps,
}
use mostro.Bond.Sound.{
  Sound, struck-Sound, totalled-Sound, slashed-Sound, reanchor-Sound, child-Sound, refund-Sound,
}
use mostro.Bond.Slash.{slash_one, slash_with, set_slashed}
use mostro.Bond.Slash.Ends.{bind-Ends, map-Ends, lift-Ends}
use mostro.Bond.Slash.Kept.{found, release_bond-Keeps}
use mostro.Bond.Slash.Range.{
  insert_child, update_slashed_share, set_slashed_share, record_share, slash_slice,
  record_maker_slice_slash, maker_key, reanchor, reanchor_children, insert_refund, distribute,
  close_rows, settle_parent, slice_children, is_zero, close_parent, close_found,
  resolve_range_maker_bond_at_close,
}

update_share-Keeps : (parent_id : ℕ) → Keeps Sound (update_slashed_share parent_id)
unfolding update_slashed_share
update_share-Keeps parent_id = stating-Keeps Sound _ (λ bs.
    >>=-Keeps Sound _ _ (lift-Keeps Sound _) (λ total.
      ignore-Keeps Sound _
        (execute-Keeps Sound _ (set_slashed_share total) (totalled-Sound total))))

insert_child-Keeps :
    (parent_id slice_id : ℕ) (child : Bond)
    → Sound child
    → Keeps Sound (insert_child parent_id slice_id child)
unfolding insert_child
insert_child-Keeps parent_id slice_id child h =
    >>=-Keeps Sound _ _ (insert-Keeps Sound _ child h) (λ rows.
      if-Keeps Sound (rows == 0) _ _ (pure-Keeps Sound false)
        (>>-Keeps Sound _ _ (update_share-Keeps parent_id) (pure-Keeps Sound true)))

module _ (f : Float64) (pct : f.F) where
  slash_with-Keeps :
      (lnd : Lightning) (bond : Bond) (reason : BondSlashReason) (preimage : Option String)
      → Keeps Sound (slash_with f pct lnd bond reason preimage)
  unfolding settle_hold_invoice
  slash_with-Keeps lnd bond reason none = pure-Keeps Sound tt
  slash_with-Keeps lnd bond reason (some preimage) =
      >>=-Keeps Sound _ _ (>>=-Keeps Sound _ _ (call-Keeps Sound _) (λ _. pure-Keeps Sound _))
        (λ answer.
          if-Keeps Sound (is_settled answer) _ _
            (or_warn-Keeps Sound _ (
              ignore-Keeps Sound _ (
                execute-Keeps Sound _
                  (set_slashed reason (lnd.clock bond.id)
                    (compute_node_share f bond.amount_sats pct))
                  (λ b _. struck-Sound reason (lnd.clock bond.id) _ b))))
            (pure-Keeps Sound tt))

  pub slash_one-Keeps :
      (lnd : Lightning) (bond : Bond) (reason : BondSlashReason)
      → Keeps Sound (slash_one f pct lnd bond reason)
  unfolding slash_one
  slash_one-Keeps lnd bond reason = slash_with-Keeps lnd bond reason bond.preimage

  record_share-Keeps :
      (fresh : ℕ) (now : ℤ) (slice : Order) (parent : Bond) (reason : BondSlashReason)
      (key : String) (share : ℤ)
      → Keeps Sound (record_share f pct fresh now slice parent reason key share)
  unfolding record_share
  record_share-Keeps fresh now slice parent reason key share =
      if-Keeps Sound (leb_ℤ share (pos 0)) _ _ (pure-Keeps Sound false) (
        insert_child-Keeps parent.id slice.id _ (
          child-Sound fresh now slice.id parent.id slice.id key share
            (compute_node_share f share pct) reason))

  slash_slice-Keeps :
      (fresh : ℕ) (now : ℤ) (slice : Order) (parent : Bond) (reason : BondSlashReason)
      (key : Option String) (max_fiat : Option ℤ)
      → Keeps Sound (slash_slice f pct fresh now slice parent reason key max_fiat)
  slash_slice-Keeps fresh now slice parent reason none max_fiat = pure-Keeps Sound false
  slash_slice-Keeps fresh now slice parent reason (some key) none = pure-Keeps Sound false
  slash_slice-Keeps fresh now slice parent reason (some key) (some m) =
      record_share-Keeps fresh now slice parent reason key _

  pub record_slice-Keeps :
      (fresh : ℕ) (now : ℤ) (slice root : Order) (parent : Bond) (reason : BondSlashReason)
      → Keeps Sound (record_maker_slice_slash f pct fresh now slice root parent reason)
  unfolding record_maker_slice_slash
  record_slice-Keeps fresh now slice root parent reason =
      >>=-Keeps Sound _ _ (lift-Keeps Sound _)
        (λ kind. slash_slice-Keeps fresh now slice parent reason (maker_key slice kind) _)

reanchor-Keeps :
    (parent_id : ℕ) (now : ℤ) (children : List Bond)
    → Keeps Sound (reanchor_children parent_id now children)
unfolding reanchor_children
reanchor-Keeps parent_id now [] = pure-Keeps Sound tt
reanchor-Keeps parent_id now (_ ∷ _) =
    ignore-Keeps Sound _ (execute-Keeps Sound _ (reanchor now) (reanchor-Sound now))

module _ (fresh : ℕ) (parent : Bond) (root : Order) (children : List Bond)
    (sound : All Sound children) where
  refund-Keeps :
      (now refund : ℤ) → Keeps Sound (insert_refund fresh now parent root children refund)
  unfolding insert_refund
  refund-Keeps now refund = if-Keeps Sound (leb_ℤ refund (pos 0)) _ _ (pure-Keeps Sound tt) (
      ignore-Keeps Sound _
        (insert-Keeps Sound _ _ (refund-Sound fresh now parent root children refund sound)))

  close_rows-Keeps : (now : ℤ) → Keeps Sound (close_rows fresh now parent root children)
  unfolding close_rows distribute
  close_rows-Keeps now =
      >>=-Keeps Sound _ _ (execute-Keeps Sound _ (set_state slashed) slashed-Sound) (λ rows.
        if-Keeps Sound (rows == 1) _ _
          (>>=-Keeps Sound _ _ (fetch-Keeps Sound _) (λ sum.
            >>=-Keeps Sound _ _ (lift-Keeps Sound sum) (λ total.
              >>-Keeps Sound _ _
                (>>-Keeps Sound _ _ (reanchor-Keeps parent.id now children) (refund-Keeps now _))
                (pure-Keeps Sound true))))
          (pure-Keeps Sound false))

  settle_parent-Keeps :
      (lnd : Lightning) (preimage : Option String)
      → Keeps Sound (settle_parent fresh lnd parent root children preimage)
  unfolding settle_parent settle_hold_invoice
  settle_parent-Keeps lnd none = pure-Keeps Sound tt
  settle_parent-Keeps lnd (some preimage) =
      >>=-Keeps Sound _ _ (>>=-Keeps Sound _ _ (call-Keeps Sound _) (λ _. pure-Keeps Sound _))
        (λ answer.
          if-Keeps Sound (is_settled answer) _ _
            (transaction-Keeps Sound _ (close_rows-Keeps (lnd.clock parent.id)))
            (pure-Keeps Sound tt))

bind_children-Keeps :
    (parent : Bond) (max_amount : Option ℤ) (f : List Bond → M (Unit {0}))
    → ((children : List Bond) → All Sound children → Keeps Sound (f children))
    → Keeps Sound (slice_children parent max_amount >>= f)
unfolding find_child_slashes_for_parent pure
bind_children-Keeps parent none f h =
    bind_read-Keeps Sound (All Sound) _ f (pure-Keeps Sound []) (λ w _. tt) h
bind_children-Keeps parent (some m) f h =
    bind_read-Keeps Sound (All Sound) _ f
      (>>=-Keeps Sound _ _ (fetch-Keeps Sound _) (λ _. pure-Keeps Sound _))
      (λ w sound.
        bind-Ends (λ cs _. All Sound cs) (λ cs _. All Sound cs) _ _ w
          (found (All Sound) _ (λ bs s. order_by-All Sound older _ (keep-All Sound _ bs s)) w sound)
          (λ cs _ s. keep-All Sound _ cs s))
      h

module _ (fresh : ℕ) (env : Env) (lnd : Lightning) (order : Order) where
  close_found-Keeps :
      (parent : Option Bond)
      → IfSome Sound parent
      → Keeps Sound (close_found fresh env lnd order parent)
  unfolding close_parent
  close_found-Keeps none h = pure-Keeps Sound tt
  close_found-Keeps (some parent) h =
      if-Keeps Sound (in_state locked parent) _ _
        (>>=-Keeps Sound _ _ (lift-Keeps Sound _) (λ root.
          bind_children-Keeps parent root.max_amount _ (λ children sound.
            if-Keeps Sound (is_zero (i64 (sum_sats children))) _ _ (release_bond-Keeps lnd parent h)
              (settle_parent-Keeps fresh parent root children sound lnd parent.preimage))))
        (pure-Keeps Sound tt)

  pub close-Keeps : Keeps Sound (resolve_range_maker_bond_at_close fresh env lnd order)
  unfolding resolve_range_maker_bond_at_close find_maker_bond_for_order find_bond_by_order_and_role
  close-Keeps =
      bind_read-Keeps Sound (IfSome Sound) _ _
        (>>=-Keeps Sound _ _ (lift-Keeps Sound _) (λ _. fetch-Keeps Sound _))
        (λ w sound.
          bind-Ends (λ _ w'. All Sound w'.bonds) (λ o _. IfSome Sound o) _ _ w
            (map-Ends
              (λ root w'. (w'.bonds ≡ w.bonds) × (find_range_root_order env order ≡ ok root))
              (λ _ w'. All Sound w'.bonds) _ (λ _ w' read. rw (read.0) sound)
              (lift-Ends (find_range_root_order env order) w))
            (λ root w' s.
              found (IfSome Sound) _ (λ bs t. first-All Sound _ (keep-All Sound _ bs t)) w' s))
        close_found-Keeps
