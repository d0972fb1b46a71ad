-- ===== src/I18n/Substitute.antt =====
-- src/i18n.rs, `substitute`: the placeholders of a message.
use kehrkraft.Prelude.{
  ℕ, zero, suc, ◌^◌, List, ◌∷◌, ◌++◌, Option, none, some, Text, length, get_elem?,
}
use kehrkraft.Strings.{split_once}
use kehrkraft.Strings.Numbers.{parse_unsigned}

abbrev pub arg_at : List Text → Option ℕ → Option Text
arg_at args none = none
arg_at args (some idx) = get_elem? args idx

-- `loop` is called with what follows a marker, or with what follows a '{' that starts none.
abbrev pub replaced : (Text → Text) → Text → Text → Option Text → Text
replaced loop after tail none = b'{' ∷ loop after
replaced loop after tail (some arg) = arg ++ loop tail

abbrev pub marked : (Text → Text) → List Text → Text → Option (Text × Text) → Text
marked loop args after none = b'{' ∷ after
marked loop args after (some (mark, tail)) =
    replaced loop after tail (arg_at args (parse_unsigned (2 ^ 64) mark))

abbrev pub opened : (Text → Text) → List Text → Text → Option (Text × Text) → Text
opened loop args rest none = rest
opened loop args rest (some (before, after)) =
    before ++ marked loop args after (split_once b'}' after)

-- The loop over the rest of the template. Each round takes at least one character of it.
unfoldable pub substitute_rest : ℕ → List Text → Text → Text
substitute_rest zero args rest = rest
substitute_rest (suc fuel) args rest =
    opened (substitute_rest fuel args) args rest (split_once b'{' rest)

unfoldable pub substitute : Text → List Text → Text
substitute template args = substitute_rest (length template) args template
