-- ===== src/Pdf/Quoting.antt =====
-- Names in the Typst source and in the header of the response (src/web/pdf.rs).
use kehrkraft.Prelude.{
  ℕ, ◌≡◌, refl, Bool, true, false, ◌||◌, [], ◌∷◌, ◌++◌, Text, arith, ◌==◌, all, Option, none, some,
}
use kehrkraft.Pdf.{replace, escape_typst_str, is_ascii_alphanumeric, sanitize_filename}

-- Reads a string literal of Typst after its opening quote, up to its closing one: the string and
-- the source after it. The flag tells whether a backslash came before;
-- of the escapes, only those of a backslash and of a quote are read.
unfoldable pub read_literal : Bool → Text → Option (Text × Text)
read_literal escaped [] = none
read_literal true (c ∷ s) = elim ((c == b'\\') || (c == b'"')) [
  | true ↦ elim (read_literal false s) [ none ↦ none | some r ↦ some (c ∷ r.0, r.1) ]
  | false ↦ none
]
read_literal false (c ∷ s) = elim (c == b'\\') [
  | true ↦ read_literal true s
  | false ↦ elim (c == b'"') [
    | true ↦ some ([], s)
    | false ↦ elim (read_literal false s) [ none ↦ none | some r ↦ some (c ∷ r.0, r.1) ]
  ]
]

-- A name that is escaped and quoted is read back as it was, and the literal ends where the code
-- ends it: a name cannot leave its literal.
pub read_literal-escape_typst_str :
    (s rest : Text) → read_literal false (escape_typst_str s ++ b'"' ∷ rest) ≡ some (s, rest)
unfolding read_literal escape_typst_str replace
read_literal-escape_typst_str [] rest = refl
read_literal-escape_typst_str (c ∷ s) rest = ground (arith, read_literal-escape_typst_str s rest)

abbrev pub is_filename_char : ℕ → Bool
is_filename_char c = is_ascii_alphanumeric c || (c == b'-')

-- A sanitized name has only ASCII letters, digits and '-'.
pub sanitize_filename-is_filename_char :
    (s : Text) → all is_filename_char (sanitize_filename s) ≡ true
unfolding sanitize_filename
sanitize_filename-is_filename_char [] = refl
sanitize_filename-is_filename_char (c ∷ s) = ground (arith, sanitize_filename-is_filename_char s)
