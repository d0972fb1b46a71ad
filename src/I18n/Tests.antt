-- ===== src/I18n/Tests.antt =====
-- The languages and the texts at concrete inputs.
use kehrkraft.Prelude.{
  ℕ, ◌-◌, ◌*◌, ◌≡◌, refl, inl, inr, In, false, [], ◌∷◌, Option, none, some, Text, text_eq, arith,
  leb, ◌==◌,
}
use kehrkraft.Models.Names.{chars, is_empty, trim, trim_start, is_whitespace}
use kehrkraft.Feed.{digits}
use kehrkraft.Calendar.Gregorian.{digits_from}
use kehrkraft.Strings.{strip_prefix, split_once, split}
use kehrkraft.Strings.Numbers.{parse_unsigned}
use kehrkraft.I18n.Entries.{Entry, entry_of}
use kehrkraft.I18n.Catalog.{messages}
use kehrkraft.I18n.Substitute.{substitute_rest, substitute}
use kehrkraft.I18n.Fill.{literal, placeholder, template_of, filled, substitute-filled}
use kehrkraft.I18n.Keys.{error_codes, msg-In, db_msg-raised}
use kehrkraft.I18n.{
  de, en, from_code, cookie_in, cookie_value, Weights, choices_of, insert, sort, supported,
  first_supported, best_match, negotiate, in_language, entry, msg, db_msg,
}

abbrev parse_tenths : Text → Option ℕ
parse_tenths (a ∷ []) = some ((a - b'0') * 10)
parse_tenths (a ∷ p ∷ d ∷ []) = some (d - b'0')
parse_tenths _ = none

abbrev tenths : Weights
tenths = record { F = ℕ; parse = parse_tenths; one = 10; le = leb; is_zero = λ q. q == 0 }

weights_are_honoured : negotiate tenths none (some (chars "fr, de;q=0.8, en-GB;q=0.9")) ≡ en
unfolding negotiate best_match first_supported supported sort insert choices_of from_code trim
    trim_start is_whitespace strip_prefix split text_eq
weights_are_honoured = refl

nothing_supported : negotiate tenths (some (chars "fr")) (some (chars "en;q=0")) ≡ de
unfolding negotiate best_match first_supported supported sort insert choices_of from_code trim
    trim_start is_whitespace strip_prefix split text_eq
nothing_supported = refl

cookie_of_header :
    (cookie_value (chars "session=abc; lang=en; theme=dark") (chars "lang") ≡ some (chars "en"))
    × (cookie_value (chars "langauge=de") (chars "lang") ≡ none)
unfolding cookie_value cookie_in split split_once trim trim_start is_whitespace text_eq
cookie_of_header = (refl, refl)

markers_stay :
    (substitute (chars "a {0} {1}") (chars "x" ∷ []) ≡ chars "a x {1}")
    × (substitute (chars "a {x} b") (chars "y" ∷ []) ≡ chars "a {x} b")
unfolding substitute substitute_rest split_once parse_unsigned digits_from
markers_stay = (refl, refl)

substitute-filled_example :
    substitute
      (template_of (literal (chars "seit ") ∷ placeholder 0 ∷ placeholder 3 ∷ []))
      (chars "{0}" ∷ [])
    ≡ filled (chars "{0}" ∷ []) (literal (chars "seit ") ∷ placeholder 0 ∷ placeholder 3 ∷ [])
substitute-filled_example =
    substitute-filled (literal (chars "seit ") ∷ placeholder 0 ∷ placeholder 3 ∷ [])
      (chars "{0}" ∷ []) (refl, (omega arith, (omega arith, tt)))

filled_marker :
    filled (chars "{0}" ∷ []) (literal (chars "seit ") ∷ placeholder 0 ∷ placeholder 3 ∷ [])
    ≡ chars "seit {0}{3}"
unfolding filled digits
filled_marker = refl

abbrev buildings : Entry
buildings = entry_of "nav.buildings" "Gebäude" "Buildings"

msg-In_example : msg en buildings.key ≡ chars "Buildings"
unfolding messages
msg-In_example = msg-In en buildings (inl refl)

tenancy_overlap-In : In (chars "ERR_TENANCY_OVERLAP") error_codes
unfolding error_codes
tenancy_overlap-In = inr (inr (inr (inr (inr (inr (inr (inr (inl refl))))))))

db_msg-raised_example :
    (e : Entry) × (entry (chars "ERR_TENANCY_OVERLAP") ≡ some e)
    × (db_msg de (chars "ERR_TENANCY_OVERLAP") ≡ in_language de e)
    × (is_empty (db_msg de (chars "ERR_TENANCY_OVERLAP")) ≡ false)
db_msg-raised_example = db_msg-raised de (chars "ERR_TENANCY_OVERLAP") tenancy_overlap-In
