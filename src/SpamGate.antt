-- ===== src/SpamGate.antt =====
-- The anti-spam gate (src/spam_gate.rs): the cache of known trade keys and the guard against
-- replayed events. A lock is poisoned or not, for good; an event id is its text.
pub mod Replay
mod Tests
use mostro.Prelude.{
  String, ℕ, Bool, true, false, Option, none, some, is_some, List, [], ◌∷◌, if◌then◌else◌, length,
}
use mostro.Prelude.Int.{ℤ, ◌-ℤ◌, leb_ℤ, i64}
use mostro.Prelude.Equality.{string_eq}
use mostro.Prelude.Map.{Map, lookup, insert, retain}

pub record ReplayGuard : Type 0 where
  pub seen : Map String ℤ
  pub window_secs : ℤ

abbrev pub new_guard : ℤ → ReplayGuard
new_guard window = record { seen = []; window_secs = window }

abbrev pub cutoff : ℤ → ℤ → ℤ
cutoff window now = i64 (now -ℤ window)

unfoldable pub check_and_record : ReplayGuard → String → ℤ → Bool × ReplayGuard
check_and_record self id now =
    let seen = retain (λ _ seen_at. leb_ℤ (cutoff self.window_secs now) seen_at) self.seen in
    (is_some (lookup id seen), record self { seen = insert id now seen })

pub record SpamGate : Type 0 where
  pub known : Map String (Unit {0})
  pub known_poisoned : Bool
  pub replay : ReplayGuard
  pub replay_poisoned : Bool

abbrev pub new_gate : ℤ → SpamGate
new_gate window = record {
  known = [];
  known_poisoned = false;
  replay = new_guard window;
  replay_poisoned = false;
}

-- The process-wide gate; `false` is `AlreadyInstalled`.
abbrev pub install_global : SpamGate → Option SpamGate → Bool × Option SpamGate
install_global self none = (true, some self)
install_global self (some installed) = (false, some installed)

-- `collect` into a hash set.
unfoldable pub collect : List String → Map String (Unit {0}) → Map String (Unit {0})
collect [] set = set
collect (k ∷ ks) set = collect ks (insert k tt set)

unfoldable pub set_known : SpamGate → List String → SpamGate
set_known self keys = if self.known_poisoned then self else record self { known = collect keys [] }

unfoldable pub is_known : SpamGate → String → Bool
is_known self pubkey = if self.known_poisoned then false else is_some (lookup pubkey self.known)

unfoldable pub known_count : SpamGate → ℕ
known_count self = if self.known_poisoned then 0 else length self.known

unfoldable pub is_replay : SpamGate → String → ℤ → Bool × SpamGate
is_replay self id now =
    if self.replay_poisoned
    then (false, self)
    else (let (replayed, replay) = check_and_record self.replay id now in
        (replayed, record self { replay = replay }))
