-- ===== src/SpamGate/Replay.antt =====
-- The replay guard against its specification (src/spam_gate.rs, `ReplayGuard`).
use mostro.Prelude.{
  String, ◌≡◌, refl, ◌∙◌, ap, true, Bool-cases, Option, none, some, is_some, List, [], ◌∷◌, arith,
  inl, inr, if◌then◌else◌,
}
use mostro.Prelude.Int.{ℤ, leb_ℤ}
use mostro.Prelude.Equality.{string_eq}
use mostro.Prelude.Map.{
  Distinct, retained, lookup, retain, lookup-insert, lookup-retain, insert-Distinct,
  retain-Distinct,
}
use mostro.SpamGate.{ReplayGuard, new_guard, cutoff, check_and_record}

-- A call: the event and the clock. Histories are newest first.
abbrev pub Sighting : Type 0
Sighting = String × ℤ

unfoldable pub watched : ℤ → List Sighting → ReplayGuard
watched window [] = new_guard window
watched window ((id, now) ∷ older) = (check_and_record (watched window older) id now).1

-- When the event was last seen, whether or not that is within the window.
unfoldable pub last_seen : String → List Sighting → Option ℤ
last_seen id [] = none
last_seen id ((key, now) ∷ older) = if string_eq.beq id key then some now else last_seen id older

abbrev pub since : ℤ → Option ℤ → Option ℤ
since c none = none
since c (some t) = if leb_ℤ c t then some t else none

-- The clock less the window does not go back, up to `c`.
abbrev pub InOrder : ℤ → ℤ → List Sighting → Type 0
InOrder window c [] = Unit
InOrder window c ((id, now) ∷ older) =
    (leb_ℤ (cutoff window now) c ≡ true) × InOrder window (cutoff window now) older

leb_trans : (a b c : ℤ) → leb_ℤ a b ≡ true → leb_ℤ b c ≡ true → leb_ℤ a c ≡ true
leb_trans a b c h k = ground arith

since_twice : (c d : ℤ) (o : Option ℤ) → leb_ℤ c d ≡ true → since d (since c o) ≡ since d o
since_twice c d none h = refl
since_twice c d (some t) h = elim (Bool-cases (leb_ℤ c t)) [
  | inl recent ↦ rw recent refl
  | inr old ↦ elim (Bool-cases (leb_ℤ d t)) [
    | inl newer ↦ absurd (ground (arith, leb_trans c d t h newer))
    | inr older ↦ rw (old, older) refl
  ]
]

retained-since :
    (c : ℤ) (id : String) (o : Option ℤ) → retained (λ (_ : String) t. leb_ℤ c t) id o ≡ since c o
retained-since c id none = refl
retained-since c id (some t) = refl

module _ (window : ℤ) where
  watched-window : (h : List Sighting) → (watched window h).window_secs ≡ window
  unfolding watched check_and_record
  watched-window [] = refl
  watched-window ((id, now) ∷ older) = watched-window older

  watched-Distinct : (h : List Sighting) → Distinct (watched window h).seen
  unfolding watched check_and_record
  watched-Distinct [] = tt
  watched-Distinct ((id, now) ∷ older) =
      insert-Distinct id now _ (retain-Distinct _ _ (watched-Distinct older))

  -- What is left of the entry of an event once the old ones are pruned.
  pruned-entry :
      (id : String) (c : ℤ) (h : List Sighting)
      → lookup id (retain (λ _ t. leb_ℤ c t) (watched window h).seen)
        ≡ since c (lookup id (watched window h).seen)
  pruned-entry id c h =
      lookup-retain (λ _ t. leb_ℤ c t) id (watched window h).seen (watched-Distinct h)
      ∙ retained-since c id (lookup id (watched window h).seen)

  later : (b c : ℤ) (h : List Sighting) → leb_ℤ b c ≡ true → InOrder window b h → InOrder window c h
  later b c [] l o = tt
  later b c ((id, now) ∷ older) l o = (leb_trans (cutoff window now) b c o.0 l, o.1)

  watched-since :
      (id : String) (c : ℤ) (h : List Sighting)
      → InOrder window c h
      → since c (lookup id (watched window h).seen) ≡ since c (last_seen id h)
  unfolding watched check_and_record last_seen
  watched-since id c [] o = unfold lookup in refl
  watched-since id c ((key, now) ∷ older) o =
      let old = cutoff window now in
      rw (lookup-insert, watched-window older)
        (elim (Bool-cases (string_eq.beq id key)) [
          | inl same ↦ rw same refl
          | inr other ↦
              rw (other, pruned-entry id old older)
                (since_twice old c (lookup id (watched window older).seen) o.0
                  ∙ watched-since id c older (later old c older o.0 o.1))
        ])

-- After any calls on a new guard, on a clock that does not go back (less the window, in 64 bits), an
-- event is reported as a replay exactly if its last sighting was at the start of the window or
-- later; pruning the guard's map never changes that answer.
pub check_and_record-replay :
    (window : ℤ) (history : List Sighting) (id : String) (now : ℤ)
    → InOrder window (cutoff window now) history
    → (check_and_record (watched window history) id now).0
      ≡ is_some (since (cutoff window now) (last_seen id history))
unfolding check_and_record
check_and_record-replay window history id now o =
    rw (watched-window window history, pruned-entry window id (cutoff window now) history)
      (ap is_some (watched-since window id (cutoff window now) history o))
