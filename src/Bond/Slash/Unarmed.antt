-- ===== src/Bond/Slash/Unarmed.antt =====
-- A timeout slashes no one where the configuration does not cover the party that is responsible
-- (src/app/bond/slash.rs).
use mostro.Prelude.{
  ℕ, String, Bool, true, false, ◌≡◌, refl, sym, ◌∙◌, ◌&&◌, ◌⊎◌, inl, inr, Option, none, some, List,
  [], ◌∷◌, Bool-cases, ◌==◌, arith,
}
use mostro.Prelude.Float.{Float64}
use mostro.Result.{Result, ok, err, unexpected}
use mostro.Bond.Types.{is_terminal}
use mostro.Bond.Model.{Bond}
use mostro.Bond.Env.{
  Env, Order, Kind, buy, sell, Status, pending, waiting_taker_bond, waiting_maker_bond,
  waiting_buyer_invoice, waiting_payment, canceled, cooperatively_canceled, canceled_by_admin,
  other_status, BondConfig, applies_to_maker, applies_to_taker,
}
use mostro.Bond.Table.{World, M, ◌>>=◌, raise, lift}
use mostro.Bond.Rows.{
  Rows, Rows-refl, Preserves, execute-Preserves, fetch-Preserves, pure-Preserves, lift-Preserves,
  >>=-Preserves, if-Preserves,
}
use mostro.Bond.Lightning.{
  Lightning, CancelOutcome, already_done, transient, call, cancel_hold_invoice, if_gone, outcome_of,
}
use mostro.Bond.Queries.{find_active_bonds_for_order, update, overwrite, or_warn}
use mostro.Bond.Release.{
  release_bond, cancel_htlc, set_released, release_all, release_active_bonds,
  release_bonds_for_order, release_bonds_for_order_or_warn, release_taker_bonds_for_order_or_warn,
  is_maker,
}
use mostro.Bond.Slash.{Side, seller, buyer, makes, side_is_maker}
use mostro.Bond.Slash.Timeout.{
  order_republishes_on_timeout, responsible_side, slash_armed, release_on_timeout,
  slash_or_release_side, slash_or_release_on_timeout,
}

-- The table of the documentation: who is responsible, and whether the node slashes that party.
abbrev pub arms : Option BondConfig → Option Status → Option Kind → Bool
arms (some c) (some waiting_buyer_invoice) (some sell) =
    c.enabled && c.slash_on_waiting_timeout && applies_to_taker c.apply_to
arms (some c) (some waiting_buyer_invoice) (some buy) =
    c.enabled && c.slash_on_waiting_timeout && applies_to_maker c.apply_to
arms (some c) (some waiting_payment) (some sell) =
    c.enabled && c.slash_on_waiting_timeout && applies_to_maker c.apply_to
arms (some c) (some waiting_payment) (some buy) =
    c.enabled && c.slash_on_waiting_timeout && applies_to_taker c.apply_to
arms _ _ _ = false

-- The row stays, or it is released; the maker's is not where the order goes back to the book.
abbrev pub Lets : Bool → Bond → Bond → Type 0
Lets stays b c = (c ≡ b) ⊎ ((c.state ≡ "released") × ((stays && is_maker c) ≡ false))

chained : (stays : Bool) (b c d : Bond) → Lets stays b c → Lets stays c d → Lets stays b d
chained stays b c d (inl same) (inl again) = inl (again ∙ same)
chained stays b c d (inr freed) (inl again) = inr (rw again freed)
chained stays b c d h (inr freed) = inr freed

module _ (stays : Bool) where
  abbrev R : Bond → Bond → Type 0
  R = Lets stays

  kept : (b : Bond) → R b b
  kept b = inl refl

  then-Lets :
      {A B : Type 0} (m : M A) (k : A → M B)
      → Preserves R m
      → ((a : A) → Preserves R (k a))
      → Preserves R (m >>= k)
  then-Lets m k hm hk = >>=-Preserves R (chained stays) m k hm hk

  gone-Lets : (outcome : CancelOutcome) → Preserves R (if_gone outcome)
  unfolding raise
  gone-Lets already_done = pure-Preserves R kept tt
  gone-Lets transient = record { rows = λ w. Rows-refl R kept w.bonds }

  cancel-Lets :
      (lnd : Lightning) (id : ℕ) (hash : Option String) → Preserves R (cancel_htlc lnd id hash)
  unfolding cancel_hold_invoice call raise
  cancel-Lets lnd id none = pure-Preserves R kept tt
  cancel-Lets lnd id (some hash) =
      if-Preserves R (lnd.connects id) _ _
        (then-Lets _ _ (record { rows = λ w. Rows-refl R kept w.bonds })
          (λ _. gone-Lets (outcome_of (lnd.cancel_answer hash))))
        (record { rows = λ w. Rows-refl R kept w.bonds })

  module _ (lnd : Lightning) where
    release-Lets :
        (bond : Bond) → (stays && is_maker bond) ≡ false → Preserves R (release_bond lnd bond)
    unfolding release_bond update raise
    release-Lets bond taken = then-Lets _ _ (lift-Preserves R kept _) (λ state.
        if-Preserves R (is_terminal state) _ _ (pure-Preserves R kept tt) (
          then-Lets _ _ (cancel-Lets lnd bond.id bond.hash) (λ _.
            then-Lets _ _
              (execute-Preserves R kept _ (overwrite (set_released (lnd.clock bond.id) bond))
                (λ b _. inr (refl, taken)))
              (λ rows.
                if-Preserves R (rows == 0) _ _ (record { rows = λ w. Rows-refl R kept w.bonds })
                  (pure-Preserves R kept tt)))))

    all-Lets : (bs : List Bond) → Preserves R (release_all lnd (λ b. stays && is_maker b) bs)
    unfolding release_all or_warn
    all-Lets [] = pure-Preserves R kept tt
    all-Lets (b ∷ bs) = elim (Bool-cases (stays && is_maker b)) [
      | inl retained ↦ rw retained (all-Lets bs)
      | inr taken ↦
          rw taken
            (then-Lets _ _ (record { rows = (release-Lets b taken).rows }) (λ _. all-Lets bs))
    ]

    active-Lets : (order_id : ℕ) → Preserves R (release_active_bonds lnd order_id stays)
    unfolding release_active_bonds find_active_bonds_for_order
    active-Lets order_id = then-Lets _ _ (fetch-Preserves R kept _) all-Lets

on_timeout-Lets :
    (stays : Bool) (lnd : Lightning) (order_id : ℕ)
    → Preserves (Lets stays) (release_on_timeout lnd order_id stays)
unfolding release_on_timeout release_bonds_for_order release_bonds_for_order_or_warn
    release_taker_bonds_for_order_or_warn or_warn
on_timeout-Lets true lnd order_id = record { rows = (active-Lets true lnd order_id).rows }
on_timeout-Lets false lnd order_id = record { rows = (active-Lets false lnd order_id).rows }

-- Whether the node is to slash is asked of the side that the order's kind makes the maker.
agrees :
    (config : Option BondConfig) (kind : Kind)
    → (arms config (some waiting_buyer_invoice) (some kind) ≡ slash_armed config (makes kind buyer))
      × (arms config (some waiting_payment) (some kind) ≡ slash_armed config (makes kind seller))
agrees none buy = (refl, refl)
agrees none sell = (refl, refl)
agrees (some c) buy = (refl, refl)
agrees (some c) sell = (refl, refl)

lifted :
    {A B : Type 0} (stays : Bool) (r : Result A) (k : A → M B)
    → ((a : A) → r ≡ ok a → Preserves (Lets stays) (k a))
    → Preserves (Lets stays) (lift r >>= k)
unfolding lift ◌>>=◌
lifted stays (ok a) k h = record { rows = (h a refl).rows }
lifted stays (err e) k h = record { rows = λ w. Rows-refl (Lets stays) (kept stays) w.bonds }

no_kind : {a : Bool} → err unexpected ≡ ok a → ⊥
no_kind h = absurd (ground arith)

same_answer : (a b : Bool) → ok a ≡ ok b → a ≡ b
same_answer a b h = cc

module _ (f : Float64) (pct : f.F) (env : Env) (lnd : Lightning) (fresh : ℕ) (order : Order)
    (config : Option BondConfig) where
  abbrev stays : Bool
  stays = order_republishes_on_timeout order

  abbrev Leaves : Option Side → Type 0
  Leaves side = Preserves (Lets stays) (slash_or_release_side f pct env lnd fresh order config side)

  -- The side's answer, and the configuration that it meets.
  abbrev Unarmed : Side → Type 0
  Unarmed side = (a : Bool) → side_is_maker order side ≡ ok a → slash_armed config a ≡ false

  judged : (side : Side) → Unarmed side → Leaves (some side)
  judged side unarmed = lifted stays (side_is_maker order side) _ (λ a answered.
      rw (unarmed a answered) (
        then-Lets stays _ _ (on_timeout-Lets stays lnd order.id)
          (λ _. pure-Preserves (Lets stays) (kept stays) none)))

  buyer-Unarmed :
      (kind : Option Kind)
      → order.kind ≡ kind
      → arms config (some waiting_buyer_invoice) kind ≡ false
      → Unarmed buyer
  buyer-Unarmed none is_kind h a answered = absurd (no_kind (rw is_kind at answered))
  buyer-Unarmed (some k) is_kind h a answered =
      rw (sym (same_answer (makes k buyer) a (rw is_kind at answered)))
        (sym (agrees config k).0 ∙ h)

  seller-Unarmed :
      (kind : Option Kind)
      → order.kind ≡ kind
      → arms config (some waiting_payment) kind ≡ false
      → Unarmed seller
  seller-Unarmed none is_kind h a answered = absurd (no_kind (rw is_kind at answered))
  seller-Unarmed (some k) is_kind h a answered =
      rw (sym (same_answer (makes k seller) a (rw is_kind at answered)))
        (sym (agrees config k).1 ∙ h)

  no_side : stays ≡ false → Leaves none
  unfolding release_bonds_for_order release_bonds_for_order_or_warn or_warn
  no_side out =
      then-Lets stays _ _ (record { rows = rw out ((active-Lets false lnd order.id).rows) })
        (λ _. pure-Preserves (Lets stays) (kept stays) none)

  decided :
      (status : Option Status)
      → order.status ≡ status
      → arms config status order.kind ≡ false
      → Leaves (responsible_side status)
  decided (some waiting_buyer_invoice) is_status h = judged buyer (buyer-Unarmed order.kind refl h)
  decided (some waiting_payment) is_status h = judged seller (seller-Unarmed order.kind refl h)
  decided none is_status h = no_side (rw is_status refl)
  decided (some pending) is_status h = no_side (rw is_status refl)
  decided (some waiting_taker_bond) is_status h = no_side (rw is_status refl)
  decided (some waiting_maker_bond) is_status h = no_side (rw is_status refl)
  decided (some canceled) is_status h = no_side (rw is_status refl)
  decided (some cooperatively_canceled) is_status h = no_side (rw is_status refl)
  decided (some canceled_by_admin) is_status h = no_side (rw is_status refl)
  decided (some other_status) is_status h = no_side (rw is_status refl)

  -- Where the documented table says that the responsible party is not slashed, for the order does
  -- not wait, or the configuration is off or does not cover that party, a timeout only releases:
  -- every row stays as it is or is released, and where the order goes back to the book no row of a
  -- maker is.
  pub slash_or_release_on_timeout-Lets :
      (w : World)
      → arms config order.status order.kind ≡ false
      → Rows
          (Lets (order_republishes_on_timeout order))
          w.bonds
          (slash_or_release_on_timeout f pct env lnd fresh order config w).1.bonds
  unfolding slash_or_release_on_timeout
  slash_or_release_on_timeout-Lets w h = (decided order.status refl h).rows w
