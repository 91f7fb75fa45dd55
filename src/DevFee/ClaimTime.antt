-- ===== src/DevFee/ClaimTime.antt =====
-- The claim's time is read back from its marker (src/app/dev_fee.rs).
use Prim.Native.String.{slice, len, ◌++◌}
use Prim.Native.String.len
use Prim.Native.Char.{Char, code}
use text.Mathlib.TextPositions.{
  slice-append_middle, slice-append_right, starts_with-append, len-append, len_utf8-pos,
}
use mostro.Prelude.{
  ℕ, zero, suc, ◌+◌, ◌-◌, ◌*◌, ◌/◌, ◌%◌, ◌<◌, String, ◌≡◌, refl, ap, ◌∙◌, false, some, ltb, leb,
  lt→ltb, ◌==◌, Bool-cases, inl, inr, arith,
}
use text.Mathlib.TextLemmas.{append_assoc}
use mathlib.Core.Path.{subst}
use mostro.DevFee.Marker.{
  digit, digits, decimal, parse_digits, parse_u64, pending, plausible, timestamp_of,
  parse_pending_timestamp, pending_marker,
}

parse_char :
    (acc : ℕ) (c : Char) (rest : String)
    → 48 < suc (code c)
    → code c < 58
    → acc * 10 + (code c - 48) < 18446744073709551616
    → parse_digits acc (String.◌∷◌ c rest) ≡ parse_digits (acc * 10 + (code c - 48)) rest
unfolding parse_digits
parse_char acc c rest h k l = ground arith

parse_digit :
    (acc d : ℕ) (rest : String)
    → d < 10
    → acc * 10 + d < 18446744073709551616
    → parse_digits acc (digit d rest) ≡ parse_digits (acc * 10 + d) rest
unfolding digit
parse_digit acc zero rest h k = parse_char acc "0" rest (omega arith) (omega arith) k
parse_digit acc (suc zero) rest h k = parse_char acc "1" rest (omega arith) (omega arith) k
parse_digit acc (suc (suc zero)) rest h k = parse_char acc "2" rest (omega arith) (omega arith) k
parse_digit acc (suc (suc (suc zero))) rest h k =
    parse_char acc "3" rest (omega arith) (omega arith) k
parse_digit acc (suc (suc (suc (suc zero)))) rest h k =
    parse_char acc "4" rest (omega arith) (omega arith) k
parse_digit acc (suc (suc (suc (suc (suc zero))))) rest h k =
    parse_char acc "5" rest (omega arith) (omega arith) k
parse_digit acc (suc (suc (suc (suc (suc (suc zero)))))) rest h k =
    parse_char acc "6" rest (omega arith) (omega arith) k
parse_digit acc (suc (suc (suc (suc (suc (suc (suc zero))))))) rest h k =
    parse_char acc "7" rest (omega arith) (omega arith) k
parse_digit acc (suc (suc (suc (suc (suc (suc (suc (suc zero)))))))) rest h k =
    parse_char acc "8" rest (omega arith) (omega arith) k
parse_digit acc (suc (suc (suc (suc (suc (suc (suc (suc (suc zero))))))))) rest h k =
    parse_char acc "9" rest (omega arith) (omega arith) k
parse_digit acc (suc (suc (suc (suc (suc (suc (suc (suc (suc (suc d)))))))))) rest h k =
    absurd (omega arith)

parse_digits-digits :
    (fuel n : ℕ) (rest : String)
    → n < fuel
    → n < 18446744073709551616
    → parse_digits 0 (digits fuel n rest) ≡ parse_digits n rest
unfolding digits
parse_digits-digits zero n rest h k = elim h [ ]
parse_digits-digits (suc fuel) n rest h k = elim (Bool-cases (ltb n 10)) [
  | inl small ↦ rw small (
      parse_digit 0 n rest (ground arith) (omega arith)
      ∙ ap (λ m. parse_digits m rest) (omega arith))
  | inr large ↦ rw large (
      parse_digits-digits fuel (n / 10) (digit (n % 10) rest) (ground arith) (omega arith)
      ∙ parse_digit (n / 10) (n % 10) rest (omega arith) (omega arith)
      ∙ ap (λ m. parse_digits m rest) (omega arith))
]

-- What a text that begins with a decimal digit looks like.
record Begins (s : String) : Type 0 where
  head : Char
  tail : String
  low : 48 < suc (code head)
  high : code head < 58
  split : s ≡ String.◌∷◌ head tail

digit-Begins : (d : ℕ) (rest : String) → d < 10 → Begins (digit d rest)
unfolding digit
digit-Begins zero rest h = record {
  head = "0";
  tail = rest;
  low = omega arith;
  high = omega arith;
  split = refl;
}
digit-Begins (suc zero) rest h = record {
  head = "1";
  tail = rest;
  low = omega arith;
  high = omega arith;
  split = refl;
}
digit-Begins (suc (suc zero)) rest h = record {
  head = "2";
  tail = rest;
  low = omega arith;
  high = omega arith;
  split = refl;
}
digit-Begins (suc (suc (suc zero))) rest h = record {
  head = "3";
  tail = rest;
  low = omega arith;
  high = omega arith;
  split = refl;
}
digit-Begins (suc (suc (suc (suc zero)))) rest h = record {
  head = "4";
  tail = rest;
  low = omega arith;
  high = omega arith;
  split = refl;
}
digit-Begins (suc (suc (suc (suc (suc zero))))) rest h = record {
  head = "5";
  tail = rest;
  low = omega arith;
  high = omega arith;
  split = refl;
}
digit-Begins (suc (suc (suc (suc (suc (suc zero)))))) rest h = record {
  head = "6";
  tail = rest;
  low = omega arith;
  high = omega arith;
  split = refl;
}
digit-Begins (suc (suc (suc (suc (suc (suc (suc zero))))))) rest h = record {
  head = "7";
  tail = rest;
  low = omega arith;
  high = omega arith;
  split = refl;
}
digit-Begins (suc (suc (suc (suc (suc (suc (suc (suc zero)))))))) rest h = record {
  head = "8";
  tail = rest;
  low = omega arith;
  high = omega arith;
  split = refl;
}
digit-Begins (suc (suc (suc (suc (suc (suc (suc (suc (suc zero))))))))) rest h = record {
  head = "9";
  tail = rest;
  low = omega arith;
  high = omega arith;
  split = refl;
}
digit-Begins (suc (suc (suc (suc (suc (suc (suc (suc (suc (suc d)))))))))) rest h =
    absurd (omega arith)

digits-Begins : (fuel n : ℕ) (rest : String) → n < fuel → Begins (digits fuel n rest)
unfolding digits
digits-Begins zero n rest h = elim h [ ]
digits-Begins (suc fuel) n rest h = elim (Bool-cases (ltb n 10)) [
  | inl small ↦ rw small (digit-Begins n rest (ground arith))
  | inr large ↦ rw large (digits-Begins fuel (n / 10) (digit (n % 10) rest) (ground arith))
]

parse_u64-Begins : (s : String) → Begins s → parse_u64 s ≡ parse_digits 0 s
unfolding parse_u64
parse_u64-Begins s b = rw b.split (rw (plus b.head b.low) refl)
  where
    plus : (c : Char) → 48 < suc (code c) → (code c == b'+') ≡ false
    plus c h = ground arith

len-Begins : (s : String) → Begins s → 0 < len s
len-Begins s b =
    let (k, wide) = len_utf8-pos b.head in rw (b.split, len.cons b.head b.tail, wide) (omega arith)

decimal-Begins : (n : ℕ) → Begins (decimal n)
unfolding decimal
decimal-Begins n = digits-Begins (suc n) n "" (omega arith)

parse_u64-decimal : (n : ℕ) → n < 18446744073709551616 → parse_u64 (decimal n) ≡ some n
unfolding decimal
parse_u64-decimal n h =
    parse_u64-Begins (decimal n) (decimal-Begins n)
    ∙ parse_digits-digits (suc n) n "" (omega arith) h
    ∙ parsed n
  where
    parsed : (m : ℕ) → parse_digits m "" ≡ some m
    parsed m = unfold parse_digits in refl

module _ (uuid d : String) (size : len uuid ≡ 36) where
  abbrev stripped : String
  stripped = uuid ++ ("-" ++ d)

  len-stripped : len stripped ≡ 37 + len d
  len-stripped = omega (arith, len-append uuid ("-" ++ d), len-append "-" d)

  slice-dash : slice stripped 36 37 ≡ "-"
  slice-dash = subst (λ n. slice stripped n (n + 1) ≡ "-") size (slice-append_middle uuid "-" d)

  len-front : len (uuid ++ "-") ≡ 37
  len-front = omega (arith, len-append uuid "-")

  slice-time : slice stripped 37 (37 + len d) ≡ d
  slice-time =
      subst (λ n. slice stripped n (n + len d) ≡ d) len-front
        (rw (← append_assoc uuid "-" d) (slice-append_right (uuid ++ "-") d))

  timestamp_of-time : 0 < len d → timestamp_of stripped ≡ plausible (parse_u64 d)
  unfolding timestamp_of
  timestamp_of-time some_digit = rw (len-stripped, slice-dash, slice-time, long) refl
    where
      long : leb (37 + len d) 37 ≡ false
      long = ground arith

timestamp_of-decimal :
    (now : ℕ)
    → 1000000000 < now
    → now < 18446744073709551616
    → plausible (parse_u64 (decimal now)) ≡ some now
timestamp_of-decimal now recent fits = rw (parse_u64-decimal now fits, lt→ltb _ _ recent) refl

-- The marker that a claim writes, with a UUID of 36 bytes and a clock between the year 2001 and the
-- end of `u64`, is read back as the time of the claim.
pub parse_pending_timestamp-pending_marker :
    (uuid : String) (now : ℕ)
    → len uuid ≡ 36
    → 1000000000 < now
    → now < 18446744073709551616
    → parse_pending_timestamp (pending_marker uuid now) ≡ some now
unfolding parse_pending_timestamp pending_marker
parse_pending_timestamp-pending_marker uuid now size recent fits =
    let d = decimal now in
    rw
      (
        starts_with-append pending (stripped uuid d size),
        len-append pending (stripped uuid d size),
        slice-append_right pending (stripped uuid d size),
      )
      (timestamp_of-time uuid d size (len-Begins d (decimal-Begins now))
        ∙ timestamp_of-decimal now recent fits)
