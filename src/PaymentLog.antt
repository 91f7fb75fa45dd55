-- ===== src/PaymentLog.antt =====
-- The log of the payments of one kind, newest first: those that were started (src/app/dev_fee.rs,
-- src/app/release.rs), and the hashes whose payment the node reported as lost.
use text.Mathlib.Text.{◌==◌ as str_eq}
use mostro.Prelude.{ℕ, String, Bool, false, ◌||◌, List, [], ◌∷◌}

pub data Entry : Type 0 where
  sent : ℕ → String → Entry
  failed : String → Entry

-- The node answered that the payment of the hash has failed.
unfoldable pub has_failed : String → List Entry → Bool
has_failed hash [] = false
has_failed hash (sent _ _ ∷ l) = has_failed hash l
has_failed hash (failed h ∷ l) = str_eq h hash || has_failed hash l

-- A predicate on the payments that were started.
abbrev pub Sends : (ℕ → String → Type 0) → List Entry → Type 0
Sends P [] = Unit
Sends P (failed _ ∷ l) = Sends P l
Sends P (sent id h ∷ l) = P id h × Sends P l

pub Sends-map :
    (P Q : ℕ → String → Type 0)
    → ((id : ℕ) (h : String) → P id h → Q id h)
    → (l : List Entry) → Sends P l
    → Sends Q l
Sends-map P Q f [] p = tt
Sends-map P Q f (failed _ ∷ l) p = Sends-map P Q f l p
Sends-map P Q f (sent id h ∷ l) p = (f id h p.0, Sends-map P Q f l p.1)

pub Sends-both :
    (P Q : ℕ → String → Type 0) (l : List Entry)
    → Sends P l
    → Sends Q l
    → Sends (λ id h. P id h × Q id h) l
Sends-both P Q [] p q = tt
Sends-both P Q (failed _ ∷ l) p q = Sends-both P Q l p q
Sends-both P Q (sent id h ∷ l) p q = ((p.0, q.0), Sends-both P Q l p.1 q.1)
