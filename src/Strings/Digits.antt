-- ===== src/Strings/Digits.antt =====
-- Printed numbers read back: `to_string` and `parse` of Rust's standard library.
use kehrkraft.Prelude.{
  ℕ, zero, suc, ◌+◌, ◌-◌, ◌*◌, ◌/◌, ◌%◌, ◌<◌, ◌≤◌, ◌≡◌, ◌≢◌, refl, sym, ◌∙◌, ap, [], ◌∷◌, ◌++◌,
  some, Text, arith, ltb, leb, ◌==◌, if◌then◌else◌, Bool, true, false, ◌&&◌, Bool-cases, inl, inr,
  lt→ltb, le→leb, all, append_assoc, append-nil,
}
use kehrkraft.Calendar.Gregorian.{digits_from}
use kehrkraft.Feed.{digits, to_string}
use kehrkraft.Strings.Numbers.{parse_unsigned}

abbrev pub is_digit : ℕ → Bool
is_digit c = leb b'0' c && leb c b'9'

all-append : (p : ℕ → Bool) (s t : Text) → all p s ≡ true → all p t ≡ true → all p (s ++ t) ≡ true
all-append p [] t hs ht = ht
all-append p (c ∷ s) t hs ht = ground (arith, hs, all-append p s t (ground (arith, hs)) ht)

last-is_digit : (n : ℕ) → all is_digit ((48 + n % 10) ∷ []) ≡ true
last-is_digit n = ground arith

pub digits-is_digit : (fuel n : ℕ) → all is_digit (digits fuel n) ≡ true
unfolding digits
digits-is_digit zero n = refl
digits-is_digit (suc fuel) n = elim (Bool-cases (ltb n 10)) [
  | inl small ↦ rw small (last-is_digit n)
  | inr large ↦ rw large (
      all-append is_digit (digits fuel (n / 10)) ((48 + n % 10) ∷ [])
        (digits-is_digit fuel (n / 10)) (last-is_digit n))
]

digits_from-digit :
    (m n : ℕ) (t : Text) → digits_from m ((48 + n % 10) ∷ t) ≡ digits_from (m * 10 + n % 10) t
unfolding digits_from
digits_from-digit m n t =
    let value : 48 + n % 10 - 48 ≡ n % 10 = omega arith in
    rw (le→leb 48 (48 + n % 10) (omega arith), le→leb (48 + n % 10) 57 (omega arith), value) refl

-- What `digits` prints reads back, whatever follows it.
digits_from-digits :
    (fuel n : ℕ) (t : Text) → n ≤ fuel → digits_from 0 (digits (suc fuel) n ++ t) ≡ digits_from n t
unfolding digits
digits_from-digits zero n t h =
    rw (lt→ltb n 10 (omega (arith, h)))
      (digits_from-digit 0 n t ∙ ap (λ m. digits_from m t) (omega (arith, h)))
digits_from-digits (suc fuel) n t h =
    let before = digits_from-digits fuel (n / 10) ((48 + n % 10) ∷ t) in
    elim (Bool-cases (ltb n 10)) [
      | inl small ↦
          rw small (digits_from-digit 0 n t ∙ ap (λ m. digits_from m t) (ground (arith, small)))
      | inr large ↦
          rw (large, append_assoc (digits (suc fuel) (n / 10)) ((48 + n % 10) ∷ []) t)
            (before (omega (arith, h))
              ∙ digits_from-digit (n / 10) n t
              ∙ ap (λ m. digits_from m t) (omega arith))
    ]

parse_unsigned-numeral :
    (limit : ℕ) (s : Text) (n : ℕ)
    → all is_digit s ≡ true
    → digits_from 0 s ≡ some n
    → s ≢ []
    → n < limit
    → parse_unsigned limit s ≡ some n
unfolding parse_unsigned
parse_unsigned-numeral limit [] n ds e filled h = absurd (filled refl)
parse_unsigned-numeral limit (c ∷ s) n ds e filled h =
    let sign : (c == b'+') ≡ false = ground (arith, ds) in rw (sign, e, lt→ltb n limit h) refl

append-filled : (s : Text) (c : ℕ) → (s ++ (c ∷ [])) ≢ []
append-filled [] c e = ground (arith, e)
append-filled (d ∷ s) c e = ground (arith, e)

digits-filled : (fuel n : ℕ) → digits (suc fuel) n ≢ []
unfolding digits
digits-filled fuel n e =
    append-filled (if ltb n 10 then [] else digits fuel (n / 10)) (48 + n % 10) e

-- A printed number parses, if it is below the limit.
pub parse_unsigned-to_string :
    (limit n : ℕ) → n < limit → parse_unsigned limit (to_string n) ≡ some n
unfolding digits_from
parse_unsigned-to_string limit n h =
    parse_unsigned-numeral limit (to_string n) n (digits-is_digit (suc n) n)
      (ap (digits_from 0) (sym (append-nil (to_string n)))
        ∙ digits_from-digits n n [] (omega arith)
        ∙ empty)
      (digits-filled n n) h
  where
    empty : digits_from n [] ≡ some n
    empty = refl
