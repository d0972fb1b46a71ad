-- ===== src/Strings/Numbers.antt =====
-- Unsigned numbers in decimal: `str::parse` and `to_string` of Rust's standard library.
use kehrkraft.Prelude.{
  ℕ, ◌<◌, ◌≡◌, [], ◌∷◌, Option, none, some, Text, arith, ltb, ◌==◌, if◌then◌else◌,
}
use kehrkraft.Calendar.Gregorian.{digits_from}

-- The digits after an optional sign.
abbrev pub parse_digits : Text → Option ℕ
parse_digits [] = none
parse_digits (c ∷ s) = digits_from 0 (c ∷ s)

abbrev pub below : ℕ → Option ℕ → Option ℕ
below limit none = none
below limit (some n) = if ltb n limit then some n else none

-- `parse::<u16>`, `parse::<u64>` and `parse::<usize>`, by the first number that is too large.
unfoldable pub parse_unsigned : ℕ → Text → Option ℕ
parse_unsigned limit [] = none
parse_unsigned limit (c ∷ s) =
    below limit (if c == b'+' then parse_digits s else parse_digits (c ∷ s))

pub parse_unsigned-lt : (limit : ℕ) (s : Text) (n : ℕ) → parse_unsigned limit s ≡ some n → n < limit
unfolding parse_unsigned
parse_unsigned-lt limit [] n h = ground (arith, h)
parse_unsigned-lt limit (c ∷ s) n h =
    below_lt (if c == b'+' then parse_digits s else parse_digits (c ∷ s)) h
  where
    below_lt : (o : Option ℕ) → below limit o ≡ some n → n < limit
    below_lt none e = ground (arith, e)
    below_lt (some m) e = ground (arith, e)
