-- ===== src/Bond/Release/Gone.antt =====
-- When a bond counts as released (src/app/bond/flow.rs).
use mostro.Prelude.{
  String, true, ◌≡◌, refl, ◌∙◌, ap, inl, inr, Option, none, some, List, ◌∷◌, Bool-cases,
  if◌then◌else◌,
}
use mostro.Result.{Result, ok, err}
use mostro.Bond.Types.{BondState, is_terminal, parse_state}
use mostro.Bond.Model.{Bond}
use mostro.Bond.Table.{World, ◌>>=◌, ◌>>◌, pure, raise, lift, update_rows, HtlcCall, cancel}
use mostro.Bond.Answers.{Answer, bind-Answer, map-Answer}
use mostro.Bond.Effects.{Updates, update-Updates, same_id}
use mostro.Bond.Lightning.{
  Lightning, CancelOutcome, already_done, transient, call, cancel_hold_invoice, outcome_of, if_gone,
}
use mostro.Bond.Queries.{update, overwrite}
use mostro.Bond.Release.{release_bond, cancel_htlc, set_released, state_or_err}

-- No hold invoice is left: there was none, or its cancellation went through or was one already.
-- The calls are those before and those after.
pub data Gone (lnd : Lightning) (bond : Bond) (before after : List HtlcCall) : Type 0 where
  unfunded : bond.hash ≡ none → after ≡ before → Gone lnd bond before after
  cancelled :
      (hash : String)
      → bond.hash ≡ some hash
      → lnd.connects bond.id ≡ true
      → outcome_of (lnd.cancel_answer hash) ≡ already_done
      → after ≡ (cancel hash ∷ before)
      → Gone lnd bond before after

-- The row as the caller read it, released now.
pub data Released (lnd : Lightning) (bond : Bond) (w w' : World) : Type 0 where
  was_over :
      (state : BondState)
      → state_or_err (parse_state bond.state) ≡ ok state
      → is_terminal state ≡ true
      → w' ≡ w
      → Released lnd bond w w'
  is_released :
      Gone lnd bond w.htlc_calls w'.htlc_calls
      → w'.bonds
        ≡ update_rows (same_id bond) (overwrite (set_released (lnd.clock bond.id) bond)) w.bonds
      → Released lnd bond w w'

-- Before the row is written.
abbrev Cleared : Lightning → Bond → World → Unit {0} → World → Type 0
Cleared lnd bond w _ w' = Gone lnd bond w.htlc_calls w'.htlc_calls × (w'.bonds ≡ w.bonds)

module _ (lnd : Lightning) (bond : Bond) (w : World) where
  judged :
      (hash : String) (outcome : CancelOutcome)
      → bond.hash ≡ some hash
      → lnd.connects bond.id ≡ true
      → outcome_of (lnd.cancel_answer hash) ≡ outcome
      → Answer w.bonds
          (Cleared lnd bond w)
          (if_gone outcome (record w { htlc_calls = cancel hash ∷ w.htlc_calls }))
  unfolding pure raise
  judged hash already_done has connects answer = (cancelled hash has connects answer refl, refl)
  judged hash transient has connects answer = refl

  cleared :
      (hash : Option String)
      → bond.hash ≡ hash
      → Answer w.bonds (Cleared lnd bond w) (cancel_htlc lnd bond.id hash w)
  unfolding cancel_hold_invoice call ◌>>=◌ pure raise
  cleared none has = (unfunded has refl, refl)
  cleared (some hash) has = elim (Bool-cases (lnd.connects bond.id)) [
    | inl connects ↦ rw connects (judged hash _ has connects refl)
    | inr cut_off ↦ rw cut_off refl
  ]

  moved :
      (w' w'' : World)
      → Cleared lnd bond w tt w'
      → Updates (set_released (lnd.clock bond.id) bond) w' tt w''
      → Released lnd bond w w''
  moved w' w'' h k = is_released (rw (k.1) h.0) (k.0 ∙ ap (update_rows _ _) h.1)

  parsed :
      (state : Result BondState)
      → state_or_err (parse_state bond.state) ≡ state
      → Answer w.bonds
          (λ _. Released lnd bond w)
          ((lift state >>= λ s.
              if is_terminal s
              then pure tt
              else (cancel_htlc lnd bond.id bond.hash
                  >> update (set_released (lnd.clock bond.id) bond)))
            w)
  unfolding lift ◌>>=◌ pure
  parsed (err e) h = refl
  parsed (ok state) h = elim (Bool-cases (is_terminal state)) [
    | inl over ↦ rw over (was_over state h over refl)
    | inr open_still ↦ rw open_still (
        bind-Answer w.bonds (Cleared lnd bond w) (λ _. Released lnd bond w)
          (cancel_htlc lnd bond.id bond.hash) (λ _. update (set_released (lnd.clock bond.id) bond))
          w (cleared bond.hash refl)
          (λ _ w' h.
            map-Answer w.bonds w'.bonds (Updates (set_released (lnd.clock bond.id) bond) w')
              (λ _. Released lnd bond w) (update (set_released (lnd.clock bond.id) bond) w') h.1
              (λ _ w''. moved w' w'' h)
              (update-Updates (set_released (lnd.clock bond.id) bond) w')))
  ]

-- Whatever the table and the Lightning node answer: an error leaves every row as it was. Without
-- one, either the bond was over as the caller read it and nothing happens, or no hold invoice of it
-- is left, and the rows of its id, and no other, become the row that the caller read, released now.
pub release_bond-Released :
    (lnd : Lightning) (bond : Bond) (w : World)
    → Answer w.bonds (λ _. Released lnd bond w) (release_bond lnd bond w)
unfolding release_bond
release_bond-Released lnd bond w = parsed lnd bond w _ refl
