-- ===== src/Pdf/Tests.antt =====
-- The printed schedule at concrete inputs.
use kehrkraft.Prelude.{ℕ, ◌≡◌, refl, true, false, List, [], ◌∷◌, ◌++◌, some, arith, all, take}
use kehrkraft.Models.Names.{chars}
use kehrkraft.Pdf.{
  replace, escape_typst_str, is_ascii_alphanumeric, sanitize_filename, balanced_columns,
  pdf_url_for,
}
use kehrkraft.Pdf.Columns.{IsLayout, balanced_columns_even, balanced_columns_odd}
use kehrkraft.Pdf.Quoting.{
  read_literal, read_literal-escape_typst_str, is_filename_char, sanitize_filename-is_filename_char,
}

abbrev four : List ℕ
four = 1 ∷ 2 ∷ 3 ∷ 4 ∷ []

abbrev five : List ℕ
five = 1 ∷ 2 ∷ 3 ∷ 4 ∷ 5 ∷ []

columns_of_five : balanced_columns four five four ≡ some (4 ∷ 1 ∷ 2 ∷ 3 ∷ [], 4 ∷ 5 ∷ 1 ∷ 2 ∷ [])
unfolding balanced_columns
columns_of_five = refl

balanced_columns_even_example :
    (columns : List ℕ × List ℕ) × (balanced_columns five four five ≡ some columns)
    × IsLayout four columns
balanced_columns_even_example = balanced_columns_even five four five refl

balanced_columns_odd_example :
    (columns : List ℕ × List ℕ) × (balanced_columns four five four ≡ some columns)
    × IsLayout (4 ∷ (five ++ take 2 four)) columns
balanced_columns_odd_example =
    balanced_columns_odd four five four 4 refl (omega arith) (omega arith)

escaped_quote : escape_typst_str (chars "a\"b\\") ≡ chars "a\\\"b\\\\"
unfolding escape_typst_str replace
escaped_quote = refl

read_literal-escape_typst_str_example :
    read_literal false (escape_typst_str (chars "a\"b\\") ++ b'"' ∷ chars ", info")
    ≡ some (chars "a\"b\\", chars ", info")
read_literal-escape_typst_str_example =
    read_literal-escape_typst_str (chars "a\"b\\") (chars ", info")

sanitized : sanitize_filename (chars "Haus 1/\"x") ≡ chars "Haus-1--x"
unfolding sanitize_filename is_ascii_alphanumeric
sanitized = refl

sanitize_filename-is_filename_char_example :
    all is_filename_char (sanitize_filename (chars "Haus 1/\"x")) ≡ true
sanitize_filename-is_filename_char_example = sanitize_filename-is_filename_char (chars "Haus 1/\"x")

url_of_pdf :
    pdf_url_for (some (chars "https://a.b")) (chars "slug")
    ≡ chars "https://a.b/p/slug/kehrwoche.pdf"
unfolding pdf_url_for
url_of_pdf = refl
