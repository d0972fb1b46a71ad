-- ===== src/Feed/Escape.antt =====
-- Reading a value that `escape_ical` of src/web/ical.rs escaped.
use kehrkraft.Prelude.{
  ℕ, ◌≡◌, refl, Bool, true, false, not, ◌||◌, [], ◌∷◌, Option, none, some, Text, arith, ◌==◌,
  if◌then◌else◌, all,
}
use kehrkraft.Feed.{escape_ical}

abbrev with_first : ℕ → Option Text → Option Text
with_first c none = none
with_first c (some s) = some (c ∷ s)

-- The character that is escaped: RFC 5545 (3.3.11) has no others.
abbrev escaped_char : ℕ → Option ℕ
escaped_char c =
    if c == b'n'
    then some 10
    else if (c == b'\\') || (c == b';') || (c == b',')
    then some c
    else none

abbrev after_escape : Option ℕ → Option Text → Option Text
after_escape none rest = none
after_escape (some c) rest = with_first c rest

-- Reads a TEXT value as RFC 5545 (3.3.11) describes it. The flag tells whether the last character
-- was a backslash that escapes the next one; a ';', a ',' or a line feed has to be escaped.
unfoldable pub unescape : Bool → Text → Option Text
unescape true [] = none
unescape false [] = some []
unescape true (c ∷ s) = after_escape (escaped_char c) (unescape false s)
unescape false (c ∷ s) = elim (c == b'\\') [
  | true ↦ unescape true s
  | false ↦
      let rest = unescape false s in
      if (c == b';') || (c == b',') || (c == 10) then none else with_first c rest
]

abbrev pub has_no_lf : Text → Bool
has_no_lf s = all (λ c. not (c == 10)) s

pub escape_ical-has_no_lf : (s : Text) → has_no_lf (escape_ical s) ≡ true
unfolding escape_ical
escape_ical-has_no_lf [] = refl
escape_ical-has_no_lf (c ∷ s) = ground (arith, escape_ical-has_no_lf s)
