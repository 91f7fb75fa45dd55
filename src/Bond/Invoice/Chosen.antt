-- ===== src/Bond/Invoice/Chosen.antt =====
-- Which of several debts an invoice is applied to (src/app/bond/payout.rs).
use mostro.Prelude.{
  ℕ, String, ◌≡◌, refl, Option, none, some, List, [], ◌∷◌, true, Bool-cases, inl, inr, ◌⊎◌, keep,
  All, leb, length, not, ◌||◌,
}
use mostro.Prelude.Int.{ℤ}
use mostro.Result.{Result, ok, err}
use mostro.Bond.Model.{Bond}
use mostro.Bond.Table.{World, M, ◌>>=◌, pure, lift, fetch, first}
use mostro.Bond.Env.{Env, Order}
use mostro.Bond.Answers.{Reads, bind-Answer, lift-Reads, fetch-Reads}
use mostro.Bond.Invoice.{
  open_debts, is_open, later_slash, matches, has_share, exact_or_first, pick, find_among,
  find_recoverable_bond_for_recipient,
}
use mostro.Bond.Invoice.Debts.{IfSome}
use mostro.Bond.Invoice.Latest.{
  order-Ranked, from_order, is_mine, IfFirst, Leads, NotAhead, matches-Leads,
}

-- The row is no open debt of the order to the sender, or was not slashed later than `b`.
abbrev pub NoLater : Env → Order → ℕ → String → Bond → Bond → Type 0
NoLater env order order_id sender b c =
    (not (is_open order_id c) || (not (is_mine env order sender c) || not (later_slash c b))) ≡ true

abbrev pub ByAmount : Option ℤ → Bond → Type 0
ByAmount expected b = (target : ℤ) × (expected ≡ some target) × (has_share target b ≡ true)

-- The invoice names the amount of the bond's counterparty's share, or no other open debt of the
-- order to the sender was slashed later.
pub record Chosen (env : Env) (order_id : ℕ) (sender : String) (expected : Option ℤ)
    (bs : List Bond) (b : Bond) : Type 0 where
  pub order : Order
  pub loaded : env.order_by_id order_id ≡ ok (some order)
  pub choice : ByAmount expected b ⊎ All (NoLater env order order_id sender b) bs

fitting :
    (target : ℤ) (bs : List Bond)
    → IfSome (λ b. has_share target b ≡ true) (first (keep (has_share target) bs))
fitting target [] = tt
fitting target (b ∷ bs) = elim (Bool-cases (has_share target b)) [
  | inl fits ↦ rw fits fits
  | inr other ↦ rw other (fitting target bs)
]

module _ (P : Bond → Type 0) (expected : Option ℤ) where
  first-Chosen :
      (ms : List Bond) → IfFirst P (ok ms) → IfSome (λ b. ByAmount expected b ⊎ P b) (first ms)
  first-Chosen [] h = tt
  first-Chosen (b ∷ ms) h = inr h

  exact-Chosen :
      (target : ℤ) (o : Option Bond) (ms : List Bond)
      → expected ≡ some target
      → IfSome (λ b. has_share target b ≡ true) o
      → IfFirst P (ok ms)
      → IfSome (λ b. ByAmount expected b ⊎ P b) (exact_or_first o ms)
  exact-Chosen target none ms e h k = first-Chosen ms k
  exact-Chosen target (some b) ms e h k = inl (target, e, h)

pick-Chosen :
    (P : Bond → Type 0) (expected : Option ℤ) (ms : List Bond)
    → IfFirst P (ok ms)
    → IfSome (λ b. ByAmount expected b ⊎ P b) (pick expected ms)
unfolding pick
pick-Chosen P none ms h = first-Chosen P none ms h
pick-Chosen P (some target) ms h = elim (Bool-cases (leb 2 (length ms))) [
  | inl many ↦ rw many (
      exact-Chosen P (some target) target (first (keep (has_share target) ms)) ms refl
        (fitting target ms) h)
  | inr one ↦ rw one (first-Chosen P (some target) ms h)
]

module _ (env : Env) (order_id : ℕ) (sender : String) (expected : Option ℤ) (bs : List Bond) where
  uncovered :
      (order : Order) (b : Bond) (cs : List Bond)
      → All (NotAhead env order sender b) (keep (is_open order_id) cs)
      → All (NoLater env order order_id sender b) cs
  uncovered order b [] h = tt
  uncovered order b (c ∷ cs) h = elim (Bool-cases (is_open order_id c)) [
    | inl open_c ↦ let h' = rw open_c at h in (rw open_c (h'.0), uncovered order b cs h'.1)
    | inr closed_c ↦ let h' = rw closed_c at h in (rw closed_c refl, uncovered order b cs h')
  ]

  found-Chosen :
      (order : Order) (o : Option Bond)
      → env.order_by_id order_id ≡ ok (some order)
      → IfSome (λ b. ByAmount expected b ⊎ Leads env order sender (open_debts order_id bs) b) o
      → IfSome (Chosen env order_id sender expected bs) o
  found-Chosen order none l h = tt
  found-Chosen order (some b) l (inl named) = record {
    order = order;
    loaded = l;
    choice = inl named;
  }
  found-Chosen order (some b) l (inr leads) = record {
    order = order;
    loaded = l;
    choice = inr (
        uncovered order b bs
          (from_order (NotAhead env order sender b) (keep (is_open order_id) bs) leads));
  }

  picked :
      (order : Order) (r : Result (List Bond)) (w : World)
      → env.order_by_id order_id ≡ ok (some order)
      → w.bonds ≡ bs
      → IfFirst (Leads env order sender (open_debts order_id bs)) r
      → Reads bs
          (λ x. IfSome (Chosen env order_id sender expected bs) x)
          ((lift r >>= λ ms. pure (pick expected ms)) w)
  unfolding ◌>>=◌ lift pure
  picked order (ok ms) w l h k =
      (h, found-Chosen order (pick expected ms) l (pick-Chosen _ expected ms k))
  picked order (err e) w l h k = h

  with_order :
      (b : Bond) (found : List Bond) (o : Option Order) (w : World)
      → w.bonds ≡ bs
      → env.order_by_id order_id ≡ ok o
      → (b ∷ found) ≡ open_debts order_id bs
      → Reads bs
          (λ x. IfSome (Chosen env order_id sender expected bs) x)
          ((elim o as (λ _. M (Option Bond)) [
            | none ↦ pure none
            | some order ↦
                lift (matches env order sender (b ∷ found)) >>= λ ms. pure (pick expected ms)
          ])
            w)
  unfolding pure
  with_order b found none w h l same = (h, tt)
  with_order b found (some order) w h l same =
      picked order (matches env order sender (b ∷ found)) w l h (
        rw same (
          matches-Leads env order sender (open_debts order_id bs)
            (order-Ranked (keep (is_open order_id) bs))))

  find_among-Chosen :
      (found : List Bond) (w : World)
      → w.bonds ≡ bs
      → found ≡ open_debts order_id bs
      → Reads bs
          (λ x. IfSome (Chosen env order_id sender expected bs) x)
          (find_among env order_id sender expected found w)
  unfolding find_among pure
  find_among-Chosen [] w h same = (h, tt)
  find_among-Chosen (b ∷ found) w h same =
      bind-Answer bs (λ r w'. (w'.bonds ≡ bs) × (env.order_by_id order_id ≡ ok r)) _
        (lift (env.order_by_id order_id)) _ w (lift-Reads bs _ w h)
        (λ r w' got. with_order b found r w' got.0 got.1 same)

  pub find_recoverable-Chosen :
      (w : World)
      → w.bonds ≡ bs
      → Reads bs
          (λ x. IfSome (Chosen env order_id sender expected bs) x)
          (find_recoverable_bond_for_recipient env order_id sender expected w)
  unfolding find_recoverable_bond_for_recipient
  find_recoverable-Chosen w h =
      bind-Answer bs (λ r w'. (w'.bonds ≡ bs) × (r ≡ open_debts order_id bs)) _
        (fetch (open_debts order_id)) _ w (fetch-Reads bs _ w h)
        (λ r w' got. find_among-Chosen r w' got.0 got.1)
