-- ===== src/Strings.antt =====
-- What the sources use of the strings of Rust's standard library, on texts. Numbers are parsed by
-- `digits_from` and a bound.
pub mod Numbers
pub mod Digits
pub mod Trim
use kehrkraft.Prelude.{
  ℕ, Bool, true, false, ◌&&◌, List, [], ◌∷◌, Option, none, some, Text, ◌==◌, if◌then◌else◌, any,
}

-- `str::strip_prefix`.
unfoldable pub strip_prefix : Text → Text → Option Text
strip_prefix [] s = some s
strip_prefix (c ∷ p) [] = none
strip_prefix (c ∷ p) (d ∷ s) = if c == d then strip_prefix p s else none

-- `str::starts_with`.
abbrev pub starts_with : Text → Text → Bool
starts_with p s = elim (strip_prefix p s) [ some _ ↦ true | none ↦ false ]

-- `str::contains` of a character.
abbrev pub contains : ℕ → Text → Bool
contains c s = any (λ d. d == c) s

-- The text before the first `c` and the one after it: `str::split_once`.
unfoldable pub split_once : ℕ → Text → Option (Text × Text)
split_once c [] = none
split_once c (d ∷ s) =
    let rest = split_once c s in
    if d == c
    then some ([], s)
    else elim rest [ some (before, after) ↦ some (d ∷ before, after) | none ↦ none ]

-- A character in front of the first part.
abbrev pub extend_first : ℕ → List Text → List Text
extend_first d [] = (d ∷ []) ∷ []
extend_first d (part ∷ parts) = (d ∷ part) ∷ parts

-- `str::split` at a character: at least one part.
unfoldable pub split : ℕ → Text → List Text
split c [] = [] ∷ []
split c (d ∷ s) = let rest = split c s in if d == c then [] ∷ rest else extend_first d rest
