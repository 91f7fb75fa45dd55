-- ===== src/DevFee/Stored.antt =====
-- The hash of an invoice is stored before its payment is start_unless-Sound (src/app/dev_fee.rs).
use text.Mathlib.TextPositions.{eq_refl}
use mostro.Prelude.{
  ℕ, String, Bool, true, false, ◌≡◌, refl, sym, ap, ◌∙◌, Option, none, some, List, [], ◌∷◌, ◌==◌,
  All, Bool-cases, inl, inr, arith,
}
use mathlib.Core.Path.{subst}
use mostro.Prelude.Rows.{affects-key-rewrite, affects, rewrite, affects-row}
use mostro.PaymentLog.{Entry}
use mostro.DevFee.Table.{FeeOrder, Fault, fine, refused, crash, Ledger, fate, modify, modify_at}
use mostro.DevFee.Payment.{is_pending, start_send, start_unless}
use mostro.DevFee.Columns.{hash_is, is_order, awaits, with_hash}
use mostro.DevFee.Programs.{Ensures, Holds}
use mostro.DevFee.Sound.{
  IsHash, Hashes, AllFailed, RowOk, IsKeyed, Sound, rewrite-Sound, sent-Sound,
}
use mostro.DevFee.Changes.{marked-over, over-RowOk}
use mostro.DevFee.Phases.{awaits-parts}

-- Every row of the order holds the hash.
abbrev pub Stored : ℕ → String → List FeeOrder → Type 0
Stored id hash os = All (λ o. is_order id o ≡ true → hash_is hash o.dev_fee_payment_hash ≡ true) os

-- A payment of the order with the hash may be start_unless-Sound.
abbrev pub Ready : ℕ → String → List FeeOrder → List Entry → Type 0
Ready id hash os log = Sound os log × Stored id hash os × AllFailed id log log

others-Stored :
    (id : ℕ) (hash : String) (os : List FeeOrder)
    → affects (is_order id) os ≡ false
    → Stored id hash os
unfolding affects
others-Stored id hash [] n = tt
others-Stored id hash (o ∷ os) n =
    (λ this. absurd (ground arith), others-Stored id hash os (ground arith))

awaited_row :
    (id : ℕ) (marker : String) (os : List FeeOrder)
    → affects (awaits id marker) os ≡ true
    → affects (is_order id) os ≡ true
unfolding affects
awaited_row id marker [] h = h
awaited_row id marker (o ∷ os) h = elim (Bool-cases (awaits id marker o)) [
  | inl here ↦ rw ((awaits-parts id marker o here).0) refl
  | inr later ↦ ground (arith, awaited_row id marker os (ground arith))
]

-- The ids are a key, so the one row of the order holds what was stored.
rewrite-Stored :
    (id : ℕ) (marker hash : String) (os : List FeeOrder)
    → IsKeyed os
    → affects (awaits id marker) os ≡ true
    → Stored id hash (rewrite (awaits id marker) (with_hash hash) os)
unfolding affects rewrite
rewrite-Stored id marker hash [] k h = tt
rewrite-Stored id marker hash (o ∷ os) k h = elim (Bool-cases (awaits id marker o)) [
  | inl here ↦
      let alone : affects (is_order id) os ≡ false =
        ap (λ n. affects (is_order n) os) (sym (id_of (awaits-parts id marker o here).0)) ∙ k.0 in
      rw here (
        λ _. eq_refl hash,
        others-Stored id hash (rewrite (awaits id marker) (with_hash hash) os) (
            affects-key-rewrite (λ (o : FeeOrder). o.id) (awaits id marker) (with_hash hash)
              (λ _. refl) id os
            ∙ alone),
      )
  | inr other ↦
      let later : affects (awaits id marker) os ≡ true = ground arith in
      rw other (λ this. absurd (clash this later), rewrite-Stored id marker hash os k.1 later)
]
  where
    id_of : (o.id == id) ≡ true → o.id ≡ id
    id_of e = ground arith

    clash : (o.id == id) ≡ true → affects (awaits id marker) os ≡ true → ⊥
    clash e later =
        cc (ap (λ n. affects (is_order n) os) (id_of e), k.0, awaited_row id marker os later)

-- What the answer of the statement that stores the hash says.
abbrev pub Storing : ℕ → String → Option Bool → Ledger → Type 0
Storing id hash none w = Holds Sound w
Storing id hash (some false) w = Holds Sound w
Storing id hash (some true) w = Holds (Ready id hash) w

module _ (id : ℕ) (marker hash : String) (m : is_pending marker ≡ true) where
  marked-RowOk :
      (log : List Entry) (o : FeeOrder)
      → Hashes log
      → awaits id marker o ≡ true
      → RowOk log o
      → RowOk log (with_hash hash o)
  marked-RowOk log o hashes fits ok =
      let (_, fresh, held) = awaits-parts id marker o fits in
      over-RowOk log o.id (with_hash hash o) refl (marked-over log hashes o ok marker held m)
        (rw fresh refl)

  marked-AllFailed :
      (os : List FeeOrder) (log : List Entry)
      → Sound os log
      → affects (awaits id marker) os ≡ true
      → AllFailed id log log
  marked-AllFailed os log s h =
      let (o, fits, ok) = affects-row (RowOk log) (awaits id marker) os s.rows h in
      let (same, fresh, held) = awaits-parts id marker o fits in
      subst (λ n. AllFailed n log log) (ground arith) (marked-over log s.hashes o ok marker held m)

  fine-Storing :
      (b : Bool) (w w' : Ledger)
      → affects (awaits id marker) w.orders ≡ b
      → w'.orders ≡ rewrite (awaits id marker) (with_hash hash) w.orders
      → w'.log ≡ w.log
      → Holds Sound w
      → Storing id hash (some b) w'
  fine-Storing false w w' e f g s = rw (f, g) (written s)
    where
      written : Holds Sound w → Sound (rewrite (awaits id marker) (with_hash hash) w.orders) w.log
      written s =
          rewrite-Sound (awaits id marker) (with_hash hash) (λ _. refl) w.orders w.log
            (λ o fits ok. marked-RowOk w.log o s.hashes fits ok) s
  fine-Storing true w w' e f g s =
      rw (f, g)
        (
          rewrite-Sound (awaits id marker) (with_hash hash) (λ _. refl) w.orders w.log
              (λ o fits ok. marked-RowOk w.log o s.hashes fits ok) s,
          rewrite-Stored id marker hash w.orders s.keyed e,
          marked-AllFailed w.orders w.log s e,
        )

  modify_at-Storing :
      (f : Fault) (w : Ledger)
      → Holds Sound w
      → Storing id hash
          (modify_at f (awaits id marker) (with_hash hash) w).0
          (modify_at f (awaits id marker) (with_hash hash) w).1
  modify_at-Storing fine w s =
      fine-Storing (affects (awaits id marker) w.orders) w
        (modify_at fine (awaits id marker) (with_hash hash) w).1 refl refl refl s
  modify_at-Storing refused w s = s
  modify_at-Storing crash w s = s

  pub modify-Storing :
      Ensures (Holds Sound) (modify (awaits id marker) (with_hash hash)) (Storing id hash)
  unfolding modify
  modify-Storing w s = modify_at-Storing (fate w) w s

start_unless-Sound :
    (down : Bool) (id : ℕ) (hash : String) (w : Ledger)
    → IsHash hash
    → Holds (Ready id hash) w
    → Holds Sound (start_unless down id hash w).1
start_unless-Sound true id hash w h r = r.0
start_unless-Sound false id hash w h r = sent-Sound id hash w.orders w.log h r.1 r.2 r.0

pub start_send-Sound :
    (id : ℕ) (hash : String)
    → IsHash hash
    → Ensures (Holds (Ready id hash)) (start_send id hash) (λ _. Holds Sound)
unfolding start_send
start_send-Sound id hash h w r = start_unless-Sound w.down id hash w h r
