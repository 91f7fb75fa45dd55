-- ===== src/DevFee/Marker.antt =====
-- The marker of a development fee that is being paid (src/app/dev_fee.rs): "PENDING-", a fresh UUID
-- and the time of the claim. A text's positions count bytes, as in the source.
use Prim.Native.String.{slice, len, ◌++◌}
use Prim.Native.Char.{code}
use text.Mathlib.Text.{starts_with, ◌==◌ as str_eq}
use mostro.Prelude.{
  ℕ, zero, suc, ◌+◌, ◌-◌, ◌*◌, ◌/◌, ◌%◌, String, ◌&&◌, Option, none, some, ltb, leb, ◌==◌,
  if◌then◌else◌,
}

abbrev pub u64_max : ℕ
u64_max = 18446744073709551615

-- One decimal digit before a text.
unfoldable pub digit : ℕ → String → String
digit d rest =
    if d == 0
    then String.◌∷◌ "0" rest
    else if d == 1
    then String.◌∷◌ "1" rest
    else if d == 2
    then String.◌∷◌ "2" rest
    else if d == 3
    then String.◌∷◌ "3" rest
    else if d == 4
    then String.◌∷◌ "4" rest
    else if d == 5
    then String.◌∷◌ "5" rest
    else if d == 6
    then String.◌∷◌ "6" rest
    else if d == 7
    then String.◌∷◌ "7" rest
    else if d == 8
    then String.◌∷◌ "8" rest
    else String.◌∷◌ "9" rest

-- Decimal notation before a text; a number has no more digits than the fuel `n + 1` that
-- `decimal` gives.
unfoldable pub digits : ℕ → ℕ → String → String
digits zero n rest = rest
digits (suc fuel) n rest =
    let more = digits fuel (n / 10) (digit (n % 10) rest) in if ltb n 10 then digit n rest else more

unfoldable pub decimal : ℕ → String
decimal n = digits (suc n) n ""

-- `str::parse::<u64>`: an optional `+`, then digits, whose value stays within 64 bits.
unfoldable pub parse_digits : ℕ → String → Option ℕ
parse_digits acc String.[] = some acc
parse_digits acc (String.◌∷◌ c s) =
    let rest = parse_digits (acc * 10 + (code c - 48)) s in
    if leb 48 (code c) && leb (code c) 57 && leb (acc * 10 + (code c - 48)) u64_max
    then rest
    else none

abbrev pub nonempty_digits : String → Option ℕ
nonempty_digits String.[] = none
nonempty_digits (String.◌∷◌ c s) = parse_digits 0 (String.◌∷◌ c s)

unfoldable pub parse_u64 : String → Option ℕ
parse_u64 String.[] = none
parse_u64 (String.◌∷◌ c s) =
    if code c == b'+' then nonempty_digits s else parse_digits 0 (String.◌∷◌ c s)

abbrev pub plausible : Option ℕ → Option ℕ
plausible none = none
plausible (some ts) = if ltb 1000000000 ts then some ts else none

abbrev pub pending : String
pending = "PENDING-"

unfoldable pub timestamp_of : String → Option ℕ
timestamp_of stripped =
    if leb (len stripped) 37
    then none
    else if str_eq (slice stripped 36 37) "-"
    then plausible (parse_u64 (slice stripped 37 (len stripped)))
    else none

unfoldable pub parse_pending_timestamp : String → Option ℕ
parse_pending_timestamp marker =
    if starts_with marker pending then timestamp_of (slice marker 8 (len marker)) else none

-- The marker of a claim at a time.
unfoldable pub pending_marker : String → ℕ → String
pending_marker uuid now = pending ++ (uuid ++ ("-" ++ decimal now))
