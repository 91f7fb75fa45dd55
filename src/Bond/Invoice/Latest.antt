-- ===== src/Bond/Invoice/Latest.antt =====
-- The order in which the open debts are tried: the latest slash first (src/app/bond/payout.rs).
use mostro.Prelude.{
  String, ◌≡◌, refl, sym, ◌∙◌, Option, none, some, List, [], ◌∷◌, Bool, true, false, Bool-cases,
  inl, inr, All, not, ◌||◌, arith,
}
use mostro.Prelude.Int.{ℤ, ltb_ℤ}
use mostro.Result.{Result, ok, err}
use mostro.Bond.Model.{Bond}
use mostro.Bond.Table.{insert_by, order_by}
use mostro.Bond.Env.{Env, Order}
use mostro.Bond.Invoice.{later_slash, is_sender, recipient_of, add_match, matches}

abbrev later_at : Option ℤ → Option ℤ → Bool
later_at none y = false
later_at (some x) none = true
later_at (some x) (some y) = ltb_ℤ y x

later_is : (a b : Bond) → later_slash a b ≡ later_at a.slashed_at b.slashed_at
later_is a b = by_time a.slashed_at b.slashed_at
  where
    by_time :
        (x y : Option ℤ)
        → (elim x [ none ↦ false | some s ↦ elim y [ none ↦ true | some t ↦ ltb_ℤ t s ] ])
          ≡ later_at x y
    by_time none y = refl
    by_time (some x) none = refl
    by_time (some x) (some y) = refl

at_trans : (x y z : Option ℤ) → later_at x y ≡ false → later_at y z ≡ false → later_at x z ≡ false
at_trans none y z h k = refl
at_trans (some x) none z h k = absurd (cc)
at_trans (some x) (some y) none h k = absurd (cc)
at_trans (some x) (some y) (some z) h k = ground arith

at_asym : (x y : Option ℤ) → later_at x y ≡ true → later_at y x ≡ false
at_asym none y h = absurd (cc)
at_asym (some x) none h = refl
at_asym (some x) (some y) h = ground arith

at_irrefl : (x : Option ℤ) → later_at x x ≡ false
at_irrefl none = refl
at_irrefl (some x) = ground arith

-- No row of the rest was slashed later than an earlier row.
abbrev pub Ranked : List Bond → Type 0
Ranked [] = Unit
Ranked (b ∷ bs) = All (λ c. later_slash c b ≡ false) bs × Ranked bs

all_map : (P Q : Bond → Type 0) (bs : List Bond) → ((b : Bond) → P b → Q b) → All P bs → All Q bs
all_map P Q [] f h = tt
all_map P Q (b ∷ bs) f h = (f b h.0, all_map P Q bs f h.1)

module _ (P : Bond → Type 0) where
  inserted : (b : Bond) (cs : List Bond) → P b → All P cs → All P (insert_by later_slash b cs)
  unfolding insert_by
  inserted b [] p h = (p, tt)
  inserted b (c ∷ cs) p h = elim (Bool-cases (later_slash c b)) [
    | inl first_c ↦ rw first_c (h.0, inserted b cs p h.1)
    | inr first_b ↦ rw first_b (p, h)
  ]

  from_insert : (b : Bond) (cs : List Bond) → All P (insert_by later_slash b cs) → P b × All P cs
  unfolding insert_by
  from_insert b [] h = h
  from_insert b (c ∷ cs) h = elim (Bool-cases (later_slash c b)) [
    | inl first_c ↦
        let h' = rw first_c at h in let rest = from_insert b cs h'.1 in (rest.0, (h'.0, rest.1))
    | inr first_b ↦ let h' = rw first_b at h in (h'.0, h'.1)
  ]

  pub from_order : (bs : List Bond) → All P (order_by later_slash bs) → All P bs
  unfolding order_by
  from_order [] h = tt
  from_order (b ∷ bs) h =
      let parts = from_insert b (order_by later_slash bs) h in (parts.0, from_order bs parts.1)

insert-Ranked : (b : Bond) (cs : List Bond) → Ranked cs → Ranked (insert_by later_slash b cs)
unfolding insert_by
insert-Ranked b [] h = (tt, tt)
insert-Ranked b (c ∷ cs) h = elim (Bool-cases (later_slash c b)) [
  | inl first_c ↦
      let not_first = at_asym c.slashed_at b.slashed_at (sym (later_is c b) ∙ first_c) in
      rw first_c (
        inserted (λ d. later_slash d c ≡ false) b cs (later_is b c ∙ not_first) h.0,
        insert-Ranked b cs h.1,
      )
  | inr first_b ↦
      let below : (d : Bond) → later_slash d c ≡ false → later_slash d b ≡ false = λ d k.
        later_is d b
        ∙ at_trans d.slashed_at c.slashed_at b.slashed_at (sym (later_is d c) ∙ k)
            (sym (later_is c b) ∙ first_b) in
      rw first_b (
        (
          first_b,
          all_map (λ d. later_slash d c ≡ false) (λ d. later_slash d b ≡ false) cs below h.0,
        ),
        h,
      )
]

pub order-Ranked : (bs : List Bond) → Ranked (order_by later_slash bs)
unfolding order_by
order-Ranked [] = tt
order-Ranked (b ∷ bs) = insert-Ranked b (order_by later_slash bs) (order-Ranked bs)

-- Whether the sender is the recipient of the row's debt.
abbrev pub is_mine : Env → Order → String → Bond → Bool
is_mine env order sender b = elim (recipient_of env order b) [
  | err _ ↦ false
  | ok key ↦ is_sender sender key
]

-- The row is not the sender's, or was not slashed later than `b`.
abbrev pub NotAhead : Env → Order → String → Bond → Bond → Type 0
NotAhead env order sender b c = (not (is_mine env order sender c) || not (later_slash c b)) ≡ true

abbrev pub IfFirst : (Bond → Type 0) → Result (List Bond) → Type 0
IfFirst P (ok []) = Unit
IfFirst P (ok (b ∷ _)) = P b
IfFirst P (err e) = Unit

module _ (env : Env) (order : Order) (sender : String) where
  behind : (b c : Bond) → later_slash c b ≡ false → NotAhead env order sender b c
  behind b c h = rw h (ground arith)

  foreign : (b c : Bond) → is_mine env order sender c ≡ false → NotAhead env order sender b c
  foreign b c h = rw h refl

  abbrev pub Leads : List Bond → Bond → Type 0
  Leads ds b = All (NotAhead env order sender b) ds

  extended :
      (b : Bond) (ds : List Bond) (r : Result (List Bond))
      → is_mine env order sender b ≡ false
      → IfFirst (Leads ds) r
      → IfFirst (Leads (b ∷ ds)) r
  extended b ds (ok []) h k = tt
  extended b ds (ok (c ∷ _)) h k = (foreign c b h, k)
  extended b ds (err e) h k = tt

  headed :
      (b : Bond) (mine : Bool) (ds : List Bond) (r : Result (List Bond))
      → (mine ≡ false → is_mine env order sender b ≡ false)
      → Leads (b ∷ ds) b
      → IfFirst (Leads ds) r
      → IfFirst (Leads (b ∷ ds)) (add_match b mine r)
  headed b true ds (ok ms) f h k = h
  headed b false ds (ok ms) f h k = extended b ds (ok ms) (f refl) k
  headed b true ds (err e) f h k = tt
  headed b false ds (err e) f h k = tt

  decided :
      (b : Bond) (key : Result (Option String)) (ds : List Bond) (r : Result (List Bond))
      → recipient_of env order b ≡ key
      → Leads (b ∷ ds) b
      → IfFirst (Leads ds) r
      → IfFirst (Leads (b ∷ ds)) (elim key as (λ _. Result (List Bond)) [
        | err e ↦ err e
        | ok k ↦ add_match b (is_sender sender k) r
      ])
  decided b (err e) ds r same h k = tt
  decided b (ok key) ds r same h k =
      headed b (is_sender sender key) ds r (λ no. rw (is_mine, same) no) h k

  -- The first match was slashed last among the sender's.
  pub matches-Leads :
      (ds : List Bond) → Ranked ds → IfFirst (Leads ds) (matches env order sender ds)
  unfolding matches
  matches-Leads [] h = tt
  matches-Leads (b ∷ ds) h =
      decided b (recipient_of env order b) ds (matches env order sender ds) refl
        (
          behind b b (later_is b b ∙ at_irrefl b.slashed_at),
          all_map (λ c. later_slash c b ≡ false) (NotAhead env order sender b) ds (behind b) h.0,
        )
        (matches-Leads ds h.1)
