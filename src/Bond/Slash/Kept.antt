-- ===== src/Bond/Slash/Kept.antt =====
-- The slashing and release handlers keep the rows sound (src/app/bond/slash.rs,
-- src/app/bond/flow.rs).
use mostro.Prelude.{
  ℕ, String, Bool, false, ◌&&◌, Option, none, some, List, [], ◌∷◌, All, Bool-cases, inl, inr, ◌==◌,
}
use mostro.Bond.Types.{is_terminal}
use mostro.Bond.Model.{Bond}
use mostro.Bond.Table.{World, M, ◌>>=◌, fetch, is_faulty, older}
use mostro.Bond.Invoice.Debts.{keep-All, order_by-All}
use mostro.Bond.Lightning.{
  Lightning, CancelOutcome, already_done, transient, if_gone, cancel_hold_invoice, outcome_of,
}
use mostro.Bond.Queries.{find_active_bonds_for_order, update, overwrite}
use mostro.Bond.Release.{
  release_bond, cancel_htlc, set_released, release_all, release_active_bonds,
  release_bonds_for_order, is_maker,
}
use mostro.Bond.Keeps.{
  Keeps, >>=-Keeps, >>-Keeps, pure-Keeps, raise-Keeps, lift-Keeps, fetch-Keeps, call-Keeps,
  if-Keeps, execute-Keeps, or_warn-Keeps, bind_read-Keeps,
}
use mostro.Bond.Sound.{Sound, released-Sound}
use mostro.Bond.Slash.Ends.{Ends}

-- What a query finds is sound.
pub found :
    {A : Type 0} (Q : A → Type 0) (read : List Bond → A)
    → ((bs : List Bond) → All Sound bs → Q (read bs))
    → (w : World) → All Sound w.bonds
    → Ends (λ a _. Q a) (fetch read w)
unfolding fetch
found Q read h w sound = elim (Bool-cases (is_faulty w.faults)) [
  | inl fault ↦ rw fault tt
  | inr fine ↦ rw fine (h w.bonds sound)
]

if_gone-Keeps : (outcome : CancelOutcome) → Keeps Sound (if_gone outcome)
if_gone-Keeps already_done = pure-Keeps Sound tt
if_gone-Keeps transient = raise-Keeps Sound _

cancel_htlc-Keeps :
    (lnd : Lightning) (id : ℕ) (hash : Option String) → Keeps Sound (cancel_htlc lnd id hash)
unfolding cancel_hold_invoice
cancel_htlc-Keeps lnd id none = pure-Keeps Sound tt
cancel_htlc-Keeps lnd id (some hash) =
    if-Keeps Sound (lnd.connects id) _ _
      (>>=-Keeps Sound _ _ (call-Keeps Sound _)
        (λ _. if_gone-Keeps (outcome_of (lnd.cancel_answer hash))))
      (raise-Keeps Sound _)

module _ (lnd : Lightning) where
  pub release_bond-Keeps : (bond : Bond) → Sound bond → Keeps Sound (release_bond lnd bond)
  unfolding release_bond update
  release_bond-Keeps bond h = >>=-Keeps Sound _ _ (lift-Keeps Sound _) (λ state.
      if-Keeps Sound (is_terminal state) _ _ (pure-Keeps Sound tt) (
        >>-Keeps Sound _ _ (cancel_htlc-Keeps lnd bond.id bond.hash) (
          >>=-Keeps Sound _ _
            (execute-Keeps Sound _ (overwrite (set_released (lnd.clock bond.id) bond))
              (λ b _. released-Sound (lnd.clock bond.id) bond b h))
            (λ rows. if-Keeps Sound (rows == 0) _ _ (raise-Keeps Sound _) (pure-Keeps Sound tt)))))

  pub release_all-Keeps :
      (skips : Bond → Bool) (bs : List Bond) → All Sound bs → Keeps Sound (release_all lnd skips bs)
  unfolding release_all
  release_all-Keeps skips [] h = pure-Keeps Sound tt
  release_all-Keeps skips (b ∷ bs) h =
      if-Keeps Sound (skips b) _ _ (release_all-Keeps skips bs h.1) (
        >>-Keeps Sound _ _ (or_warn-Keeps Sound _ (release_bond-Keeps b h.0))
          (release_all-Keeps skips bs h.1))

  pub active-Ends :
      (order_id : ℕ) (w : World)
      → All Sound w.bonds
      → Ends (λ bs _. All Sound bs) (find_active_bonds_for_order order_id w)
  unfolding find_active_bonds_for_order
  active-Ends order_id =
      found (All Sound) _ (λ bs sound. order_by-All Sound older _ (keep-All Sound _ bs sound))

  pub bind_active-Keeps :
      {A : Type 0} (order_id : ℕ) (f : List Bond → M A)
      → ((bs : List Bond) → All Sound bs → Keeps Sound (f bs))
      → Keeps Sound (find_active_bonds_for_order order_id >>= f)
  unfolding find_active_bonds_for_order
  bind_active-Keeps order_id f h =
      bind_read-Keeps Sound (All Sound) _ f (fetch-Keeps Sound _)
        (found (All Sound) _ (λ bs sound. order_by-All Sound older _ (keep-All Sound _ bs sound))) h

  pub release_active-Keeps :
      (order_id : ℕ) (retain : Bool) → Keeps Sound (release_active_bonds lnd order_id retain)
  unfolding release_active_bonds
  release_active-Keeps order_id retain =
      bind_active-Keeps order_id _ (λ bs h. release_all-Keeps (λ b. retain && is_maker b) bs h)

  pub release_bonds-Keeps : (order_id : ℕ) → Keeps Sound (release_bonds_for_order lnd order_id)
  unfolding release_bonds_for_order
  release_bonds-Keeps order_id = release_active-Keeps order_id false
