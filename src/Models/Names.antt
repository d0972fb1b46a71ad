-- ===== src/Models/Names.antt =====
-- src/db/models.rs: the names that are shown for a person and for a group.
use Prim.Native.Char.{code}
use Prim.Native.String.{String}
use mathlib.Core.List.{reverse}
use kehrkraft.Prelude.{
  ℕ, Bool, true, false, ◌||◌, ◌&&◌, List, [], ◌∷◌, ◌++◌, Option, none, some, Text, ◌==◌, leb,
  if◌then◌else◌,
}

-- The characters of a literal.
abbrev pub chars : String → Text
chars String.[] = []
chars (String.◌∷◌ c s) = code c ∷ chars s

-- `char::is_whitespace`.
unfoldable pub is_whitespace : ℕ → Bool
is_whitespace c =
    (leb 9 c && leb c 13)
    || (c == 32)
    || (c == 0x85)
    || (c == 0xa0)
    || (c == 0x1680)
    || (leb 0x2000 c && leb c 0x200a)
    || (c == 0x2028)
    || (c == 0x2029)
    || (c == 0x202f)
    || (c == 0x205f)
    || (c == 0x3000)

unfoldable pub trim_start : Text → Text
unfolding is_whitespace
trim_start [] = []
trim_start (c ∷ s) = if is_whitespace c then trim_start s else c ∷ s

-- `str::trim`.
unfoldable pub trim : Text → Text
unfolding trim_start
trim s = reverse (trim_start (reverse (trim_start s)))

abbrev pub is_empty : Text → Bool
is_empty [] = true
is_empty (c ∷ s) = false

-- `.filter(|s| !s.is_empty())` on an optional text.
abbrev pub non_empty : Option Text → Option Text
non_empty none = none
non_empty (some s) = if is_empty s then none else some s

-- `display_name.map(str::trim)`.
abbrev pub trim_option : Option Text → Option Text
trim_option none = none
trim_option (some s) = some (trim s)

unfoldable pub person_effective_name : Text → Option Text → Text
unfolding trim
person_effective_name name display_name = elim (non_empty (trim_option display_name)) [
  | some display ↦ display
  | none ↦ name
]

-- `slice::join`.
unfoldable pub join : Text → List Text → Text
join sep [] = []
join sep (s ∷ []) = s
join sep (s ∷ t ∷ rest) = s ++ (sep ++ join sep (t ∷ rest))

-- `split_last`: the last name and those before it, of a list with a first name.
unfoldable pub split_last : Text → List Text → Text × List Text
split_last s [] = (s, [])
split_last s (t ∷ rest) = let (last, before) = split_last t rest in (last, s ∷ before)

unfoldable pub join_names : List Text → Text
unfolding join split_last
join_names [] = []
join_names (single ∷ []) = single
join_names (s ∷ t ∷ rest) =
    let (last, before) = split_last s (t ∷ rest) in
    join (chars ", ") before ++ (chars " & " ++ last)
