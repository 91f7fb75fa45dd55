-- ===== src/SpamGate/Tests.antt =====
-- Runs of the gate on a short history, and an instance of its theorem.
use mostro.Prelude.{◌≡◌, refl, true, false, none, some, is_some, [], ◌∷◌, List}
use mostro.Prelude.Int.{pos, i64, ◌-ℤ◌}
use mostro.Prelude.Equality.{string_eq}
use mostro.Prelude.Map.{lookup, insert, retain}
use mostro.SpamGate.{
  SpamGate, new_gate, check_and_record, is_replay, set_known, is_known, known_count, collect,
  install_global, cutoff,
}
use mostro.SpamGate.Replay.{Sighting, watched, last_seen, since, check_and_record-replay}

abbrev gate : SpamGate
gate = set_known (new_gate (pos 60)) ("maria" ∷ "tomas" ∷ "maria" ∷ [])

known_keys : (is_known gate "maria" ≡ true) × (is_known gate "eva" ≡ false) × (known_count gate ≡ 2)
unfolding set_known is_known known_count collect lookup insert
known_keys = (refl, refl, refl)

-- A second sighting within 60 s is a replay, one after that is not.
replays :
    let g = (is_replay gate "e1" (pos 1000)).1 in
    ((is_replay g "e1" (pos 1060)).0 ≡ true) × ((is_replay g "e1" (pos 1061)).0 ≡ false)
unfolding set_known is_replay check_and_record collect lookup insert retain i64 ◌-ℤ◌
replays = (refl, refl)

-- A second installation is refused.
installs : (install_global (new_gate (pos 9)) (install_global gate none).1 ≡ (false, some gate))
installs = refl

abbrev sightings : List Sighting
sightings = ("e2", pos 1030) ∷ ("e1", pos 1000) ∷ []

check_and_record-replay_example :
    (check_and_record (watched (pos 60) sightings) "e1" (pos 1040)).0
    ≡ is_some (since (cutoff (pos 60) (pos 1040)) (last_seen "e1" sightings))
unfolding i64 ◌-ℤ◌
check_and_record-replay_example =
    check_and_record-replay (pos 60) sightings "e1" (pos 1040) (refl, (refl, tt))
