-- ===== src/Bond/Lock/Kept.antt =====
-- The handlers of a hold invoice's events keep the rows sound (src/app/bond/flow.rs).
use mostro.Prelude.{
  ℕ, String, ◌&&◌, not, ◌⊎◌, inl, inr, Option, none, some, List, [], ◌∷◌, All, ◌==◌,
}
use mostro.Result.{Result, ok, err}
use mostro.Bond.Types.{BondState, BondParseError, parse_state, is_terminal}
use mostro.Bond.Model.{Bond}
use mostro.Bond.Env.{Env}
use mostro.Bond.Table.{World, M, ◌>>=◌, notify}
use mostro.Bond.Invoice.Debts.{IfSome, keep-All, first-All}
use mostro.Bond.Lightning.{Lightning}
use mostro.Bond.Queries.{find_active_bonds_for_order, update, overwrite}
use mostro.Bond.Release.{set_released, is_maker}
use mostro.Bond.Keeps.{
  Keeps, >>=-Keeps, >>-Keeps, pure-Keeps, raise-Keeps, lift-Keeps, fetch-Keeps, if-Keeps,
  execute-Keeps, or_warn-Keeps, stating-Keeps, bind_read-Keeps,
}
use mostro.Bond.Sound.{Sound, locked-Sound, released-Sound}
use mostro.Bond.Slash.Ends.{Ends}
use mostro.Bond.Slash.Kept.{found, release_bond-Keeps, active-Ends}
use mostro.Bond.Lock.{
  find_bond_by_hash, set_locked, lock_taker, tell_key, notify_loser, is_locked, is_loser,
  release_losers, rows_or_none, or_no_rows, give_back, resume_take, cancel_losers, lost_race,
  after_lock, after_lock_found, on_taker_bond_accepted, resume_publication, after_maker_lock,
  on_maker_bond_accepted, accepted, on_bond_invoice_accepted, after_cancel, is_over, is_canceled,
  is_pre_trade, on_bond_invoice_canceled,
}

tell-Keeps : (bond : Bond) (key : Option String) → Keeps Sound (tell_key bond key)
unfolding notify
tell-Keeps bond none = pure-Keeps Sound tt
tell-Keeps bond (some key) = record { rows = λ w sound. sound }

loser-Keeps : (env : Env) (bond : Bond) → Keeps Sound (notify_loser env bond)
unfolding notify_loser
loser-Keeps env bond = tell-Keeps bond (env.parse_key bond.pubkey)

hash-Keeps : (hash : String) → Keeps Sound (find_bond_by_hash hash)
unfolding find_bond_by_hash
hash-Keeps hash = fetch-Keeps Sound _

bind_hash-Keeps :
    {A : Type 0} (hash : String) (f : Option Bond → M A)
    → ((o : Option Bond) → IfSome Sound o → Keeps Sound (f o))
    → Keeps Sound (find_bond_by_hash hash >>= f)
unfolding find_bond_by_hash
bind_hash-Keeps hash f h =
    bind_read-Keeps Sound (IfSome Sound) _ f (fetch-Keeps Sound _)
      (found (IfSome Sound) _ (λ bs sound. first-All Sound _ (keep-All Sound _ bs sound))) h

rows-Ends :
    (p : Result (List Bond) × World)
    → Ends (λ bs _. All Sound bs) p
    → Ends (λ bs _. All Sound bs) (rows_or_none p)
rows-Ends (ok bs, w) h = h
rows-Ends (err _, w) h = tt

rows-All :
    (p : Result (List Bond) × World) → All Sound p.1.bonds → All Sound (rows_or_none p).1.bonds
rows-All (ok bs, w) h = h
rows-All (err _, w) h = h

module _ (env : Env) (lnd : Lightning) where
  losers-Keeps : (bs : List Bond) → All Sound bs → Keeps Sound (release_losers env lnd bs)
  unfolding release_losers
  losers-Keeps [] h = pure-Keeps Sound tt
  losers-Keeps (b ∷ bs) h =
      >>-Keeps Sound _ _
        (>>-Keeps Sound _ _ (or_warn-Keeps Sound _ (release_bond-Keeps lnd b h.0))
          (loser-Keeps env b))
        (losers-Keeps bs h.1)

  cancel-Keeps : (winner : Bond) → Keeps Sound (cancel_losers env lnd winner)
  unfolding cancel_losers or_no_rows find_active_bonds_for_order
  cancel-Keeps winner =
      bind_read-Keeps Sound (All Sound) _ _
        (record { rows = λ w sound. rows-All _ ((fetch-Keeps Sound _).rows w sound) })
        (λ w sound. rows-Ends _ (active-Ends lnd winner.order_id w sound))
        (λ rows sound. losers-Keeps _ (keep-All Sound (is_loser winner) rows sound))

  give_back-Keeps : (bond : Bond) → Sound bond → Keeps Sound (give_back env lnd bond)
  unfolding give_back
  give_back-Keeps bond h =
      >>-Keeps Sound _ _ (or_warn-Keeps Sound _ (release_bond-Keeps lnd bond h))
        (loser-Keeps env bond)

  resume-Keeps : (current : Bond) → Sound current → Keeps Sound (resume_take env lnd current)
  unfolding resume_take
  resume-Keeps current h = >>=-Keeps Sound _ _ (lift-Keeps Sound _) (λ loaded.
      >>=-Keeps Sound _ _ (lift-Keeps Sound _) (λ order.
        if-Keeps Sound (is_pre_trade order.status) _ _ (pure-Keeps Sound _) (
          >>-Keeps Sound _ _
            (if-Keeps Sound (is_canceled order.status) _ _ (give_back-Keeps current h)
              (pure-Keeps Sound tt))
            (pure-Keeps Sound _))))

  lost-Keeps :
      (current : Bond) (state : BondState)
      → Sound current
      → Keeps Sound (lost_race env lnd current state)
  unfolding lost_race
  lost-Keeps current state h =
      >>-Keeps Sound _ _
        (>>-Keeps Sound _ _
          (if-Keeps Sound (is_terminal state) _ _ (pure-Keeps Sound tt)
            (or_warn-Keeps Sound _ (release_bond-Keeps lnd current h)))
          (loser-Keeps env current))
        (pure-Keeps Sound _)

  after-Keeps :
      (rows : ℕ) (current : Bond) (state : BondState ⊎ BondParseError)
      → Sound current
      → Keeps Sound (after_lock env lnd rows current state)
  after-Keeps rows current (inr _) h = pure-Keeps Sound _
  after-Keeps rows current (inl state) h =
      if-Keeps Sound (rows == 0 && not (is_locked state)) _ _ (lost-Keeps current state h) (
        >>-Keeps Sound _ _
          (if-Keeps Sound (rows == 1) _ _ (cancel-Keeps current) (pure-Keeps Sound tt))
          (if-Keeps Sound (is_locked state) _ _ (resume-Keeps current h) (pure-Keeps Sound _)))

  found_again-Keeps :
      (rows : ℕ) (o : Option Bond) → IfSome Sound o → Keeps Sound (after_lock_found env lnd rows o)
  found_again-Keeps rows none h = pure-Keeps Sound _
  found_again-Keeps rows (some current) h = after-Keeps rows current (parse_state current.state) h

  publication-Keeps :
      (current : Bond) (state : BondState ⊎ BondParseError)
      → Keeps Sound (resume_publication env lnd current state)
  publication-Keeps current (inr _) = pure-Keeps Sound _
  publication-Keeps current (inl state) =
      if-Keeps Sound (is_locked state) _ _
        (>>=-Keeps Sound _ _ (lift-Keeps Sound _)
          (λ loaded. >>=-Keeps Sound _ _ (lift-Keeps Sound _) (λ order. pure-Keeps Sound _)))
        (pure-Keeps Sound _)

  maker-Keeps : (o : Option Bond) → Keeps Sound (after_maker_lock env lnd o)
  maker-Keeps none = pure-Keeps Sound _
  maker-Keeps (some current) = publication-Keeps current (parse_state current.state)

  accepted-Keeps :
      (hash : String) (o : Option Bond) → IfSome Sound o → Keeps Sound (accepted env lnd hash o)
  unfolding on_taker_bond_accepted on_maker_bond_accepted lock_taker
  accepted-Keeps hash none h = pure-Keeps Sound _
  accepted-Keeps hash (some bond) h =
      if-Keeps Sound (is_maker bond) _ _
        (>>=-Keeps Sound _ _
          (>>-Keeps Sound _ _
            (execute-Keeps Sound _ (set_locked (lnd.clock bond.id))
              (locked-Sound (lnd.clock bond.id)))
            (hash-Keeps hash))
          maker-Keeps)
        (>>=-Keeps Sound _ _
          (stating-Keeps Sound _ (λ bs.
            execute-Keeps Sound _ (set_locked (lnd.clock bond.id))
              (locked-Sound (lnd.clock bond.id))))
          (λ rows. bind_hash-Keeps hash _ (found_again-Keeps rows)))

  pub on_accepted-Keeps : (hash : String) → Keeps Sound (on_bond_invoice_accepted env lnd hash)
  unfolding on_bond_invoice_accepted
  on_accepted-Keeps hash = bind_hash-Keeps hash _ (accepted-Keeps hash)

canceled-Keeps :
    (lnd : Lightning) (o : Option Bond) → IfSome Sound o → Keeps Sound (after_cancel lnd o)
unfolding update
canceled-Keeps lnd none h = pure-Keeps Sound tt
canceled-Keeps lnd (some bond) h =
    if-Keeps Sound (is_over (parse_state bond.state)) _ _ (pure-Keeps Sound tt) (
      >>=-Keeps Sound _ _
        (execute-Keeps Sound _ (overwrite (set_released (lnd.clock bond.id) bond))
          (λ b _. released-Sound (lnd.clock bond.id) bond b h))
        (λ rows. if-Keeps Sound (rows == 0) _ _ (raise-Keeps Sound _) (pure-Keeps Sound tt)))

pub on_canceled-Keeps :
    (lnd : Lightning) (hash : String) → Keeps Sound (on_bond_invoice_canceled lnd hash)
unfolding on_bond_invoice_canceled
on_canceled-Keeps lnd hash = bind_hash-Keeps hash _ (canceled-Keeps lnd)
