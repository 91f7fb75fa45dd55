-- ===== src/Bond/Invoice/Debts.antt =====
-- The open debts of an order to a sender (src/app/bond/payout.rs).
use mostro.Prelude.{
  ℕ, String, ◌≡◌, refl, Option, none, some, List, [], ◌∷◌, Bool, true, false, Bool-cases, inl, inr,
  ◌⊎◌, keep, All, leb, length,
}
use mostro.Prelude.Int.{ℤ}
use mostro.Result.{Result, ok, err}
use mostro.Bond.Model.{Bond}
use mostro.Bond.Table.{World, M, ◌>>=◌, pure, lift, fetch, insert_by, order_by, first}
use mostro.Bond.Env.{Env, Order}
use mostro.Bond.Answers.{Reads, bind-Answer, lift-Reads, fetch-Reads}
use mostro.Bond.Invoice.{
  open_debts, is_open, later_slash, is_sender, recipient_of, add_match, matches, has_share,
  exact_or_first, pick, find_among, find_recoverable_bond_for_recipient,
}

-- The row is in the table.
abbrev pub Has : Bond → List Bond → Type 0
Has b [] = ⊥
Has b (c ∷ cs) = (b ≡ c) ⊎ Has b cs

-- The bond is the order's open debt to the sender.
pub record Owed (env : Env) (order_id : ℕ) (sender : String) (bs : List Bond) (b : Bond)
    : Type 0 where
  pub listed : Has b bs
  pub debt : is_open order_id b ≡ true
  pub order : Order
  pub loaded : env.order_by_id order_id ≡ ok (some order)
  pub recipient : Option String
  pub resolved : recipient_of env order b ≡ ok recipient
  pub same_key : is_sender sender recipient ≡ true

module _ (Q : Bond → Type 0) where
  pub keep-All : (p : Bond → Bool) (bs : List Bond) → All Q bs → All Q (keep p bs)
  keep-All p [] h = tt
  keep-All p (b ∷ bs) h = elim (Bool-cases (p b)) [
    | inl yes_p ↦ rw yes_p (h.0, keep-All p bs h.1)
    | inr no_p ↦ rw no_p (keep-All p bs h.1)
  ]

  keep-fits :
      (p : Bond → Bool) (bs : List Bond) → All Q bs → All (λ b. Q b × (p b ≡ true)) (keep p bs)
  keep-fits p [] h = tt
  keep-fits p (b ∷ bs) h = elim (Bool-cases (p b)) [
    | inl yes_p ↦ rw yes_p ((h.0, yes_p), keep-fits p bs h.1)
    | inr no_p ↦ rw no_p (keep-fits p bs h.1)
  ]

  insert_by-All :
      (before : Bond → Bond → Bool) (b : Bond) (bs : List Bond)
      → Q b
      → All Q bs
      → All Q (insert_by before b bs)
  unfolding insert_by
  insert_by-All before b [] q h = (q, tt)
  insert_by-All before b (c ∷ cs) q h = elim (Bool-cases (before c b)) [
    | inl yes_p ↦ rw yes_p (h.0, insert_by-All before b cs q h.1)
    | inr no_p ↦ rw no_p (q, h)
  ]

  pub order_by-All :
      (before : Bond → Bond → Bool) (bs : List Bond) → All Q bs → All Q (order_by before bs)
  unfolding order_by
  order_by-All before [] h = tt
  order_by-All before (b ∷ bs) h =
      insert_by-All before b (order_by before bs) h.0 (order_by-All before bs h.1)

  abbrev pub IfSome : Option Bond → Type 0
  IfSome none = Unit
  IfSome (some b) = Q b

  pub first-All : (bs : List Bond) → All Q bs → IfSome (first bs)
  first-All [] h = tt
  first-All (b ∷ bs) h = h.0

  exact_or_first-All :
      (o : Option Bond) (bs : List Bond) → IfSome o → All Q bs → IfSome (exact_or_first o bs)
  exact_or_first-All none bs q h = first-All bs h
  exact_or_first-All (some b) bs q h = q

  pick-All : (expected : Option ℤ) (bs : List Bond) → All Q bs → IfSome (pick expected bs)
  unfolding pick
  pick-All none bs h = first-All bs h
  pick-All (some target) bs h = elim (Bool-cases (leb 2 (length bs))) [
    | inl many ↦ rw many (
        exact_or_first-All (first (keep (has_share target) bs)) bs
          (first-All _ (keep-All (has_share target) bs h)) h)
    | inr one ↦ rw one (first-All bs h)
  ]

listed-All : (Q : Bond → Type 0) (bs : List Bond) → ((b : Bond) → Has b bs → Q b) → All Q bs
listed-All Q [] h = tt
listed-All Q (b ∷ bs) h = (h b (inl refl), listed-All Q bs (λ c m. h c (inr m)))

abbrev IfOk : {A : Type 0} → (A → Type 0) → Result A → Type 0
IfOk P (ok a) = P a
IfOk P (err e) = Unit

-- Listed, and an open debt of the order.
abbrev Open : ℕ → List Bond → Bond → Type 0
Open order_id bs b = Has b bs × (is_open order_id b ≡ true)

module _ (env : Env) (order_id : ℕ) (sender : String) (bs : List Bond) (order : Order)
    (loaded : env.order_by_id order_id ≡ ok (some order)) where
  added :
      (b : Bond) (mine : Bool) (rest : Result (List Bond))
      → (mine ≡ true → Owed env order_id sender bs b)
      → IfOk (All (Owed env order_id sender bs)) rest
      → IfOk (All (Owed env order_id sender bs)) (add_match b mine rest)
  added b true (ok ms) h k = (h refl, k)
  added b false (ok ms) h k = k
  added b true (err e) h k = tt
  added b false (err e) h k = tt

  matched :
      (b : Bond) (key : Result (Option String)) (rest : Result (List Bond))
      → recipient_of env order b ≡ key
      → Open order_id bs b
      → IfOk (All (Owed env order_id sender bs)) rest
      → IfOk (All (Owed env order_id sender bs)) (elim key as (λ _. Result (List Bond)) [
        | err e ↦ err e
        | ok k ↦ add_match b (is_sender sender k) rest
      ])
  matched b (err e) rest r o k = tt
  matched b (ok key) rest r o k =
      added b (is_sender sender key) rest
        (λ same. record {
          listed = o.0;
          debt = o.1;
          order = order;
          loaded = loaded;
          recipient = key;
          resolved = r;
          same_key = same;
        })
        k

  matches-All :
      (found : List Bond)
      → All (Open order_id bs) found
      → IfOk (All (Owed env order_id sender bs)) (matches env order sender found)
  unfolding matches
  matches-All [] h = tt
  matches-All (b ∷ found) h =
      matched b (recipient_of env order b) (matches env order sender found) refl h.0
        (matches-All found h.1)

  abbrev MaybeOwed : Option Bond → Type 0
  MaybeOwed o = IfSome (Owed env order_id sender bs) o

  matches_picked :
      (expected : Option ℤ) (r : Result (List Bond)) (w : World)
      → w.bonds ≡ bs
      → IfOk (All (Owed env order_id sender bs)) r
      → Reads bs MaybeOwed ((lift r >>= λ ms. pure (pick expected ms)) w)
  unfolding ◌>>=◌ lift pure
  matches_picked expected (ok ms) w h k = (h, pick-All _ expected ms k)
  matches_picked expected (err e) w h k = h

open_debts-All : (order_id : ℕ) (bs : List Bond) → All (Open order_id bs) (open_debts order_id bs)
open_debts-All order_id bs =
    order_by-All (Open order_id bs) later_slash _
      (keep-fits (λ b. Has b bs) (is_open order_id) bs (listed-All (λ b. Has b bs) bs (λ b m. m)))

module _ (env : Env) (order_id : ℕ) (sender : String) (expected : Option ℤ) (bs : List Bond) where
  with_order :
      (b : Bond) (found : List Bond) (o : Option Order) (w : World)
      → w.bonds ≡ bs
      → env.order_by_id order_id ≡ ok o
      → All (Open order_id bs) (b ∷ found)
      → Reads bs
          (λ x. IfSome (Owed env order_id sender bs) x)
          ((elim o as (λ _. M (Option Bond)) [
            | none ↦ pure none
            | some order ↦
                lift (matches env order sender (b ∷ found)) >>= λ ms. pure (pick expected ms)
          ])
            w)
  unfolding pure
  with_order b found none w h l o = (h, tt)
  with_order b found (some order) w h l o =
      matches_picked env order_id sender bs order l expected _ w h
        (matches-All env order_id sender bs order l (b ∷ found) o)

  find_among-Owed :
      (found : List Bond) (w : World)
      → w.bonds ≡ bs
      → All (Open order_id bs) found
      → Reads bs
          (λ x. IfSome (Owed env order_id sender bs) x)
          (find_among env order_id sender expected found w)
  unfolding find_among pure
  find_among-Owed [] w h o = (h, tt)
  find_among-Owed (b ∷ found) w h o =
      bind-Answer bs (λ r w'. (w'.bonds ≡ bs) × (env.order_by_id order_id ≡ ok r)) _
        (lift (env.order_by_id order_id)) _ w (lift-Reads bs _ w h)
        (λ r w' got. with_order b found r w' got.0 got.1 o)

  -- The finder reads the table, and what it finds is owed.
  pub find_recoverable-Owed :
      (w : World)
      → w.bonds ≡ bs
      → Reads bs
          (λ x. IfSome (Owed env order_id sender bs) x)
          (find_recoverable_bond_for_recipient env order_id sender expected w)
  unfolding find_recoverable_bond_for_recipient
  find_recoverable-Owed w h =
      bind-Answer bs (λ r w'. (w'.bonds ≡ bs) × (r ≡ open_debts order_id bs)) _
        (fetch (open_debts order_id)) _ w (fetch-Reads bs _ w h)
        (λ r w' got. find_among-Owed r w' got.0 (rw got.1 (open_debts-All order_id bs)))
