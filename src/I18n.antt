-- ===== src/I18n.antt =====
-- src/i18n.rs: the language of a request and the texts in it. The weights of the header
-- `Accept-Language`, which are `f32`, are a record.
pub mod Entries
pub mod Catalog
pub mod Substitute
pub mod Preference
mod Tests
pub mod Fill
pub mod Keys
use kehrkraft.Prelude.{
  ℕ, Bool, true, false, not, List, [], ◌∷◌, ◌++◌, Option, none, some, Text, text_eq, find,
  if◌then◌else◌,
}
use kehrkraft.Models.Names.{chars, trim, is_empty}
use kehrkraft.Strings.{strip_prefix, split_once, split}
use Entries.{Entry}
use Catalog.{messages}
use Substitute.{substitute}

pub data Lang : Type 0 where
  de en : Lang

abbrev pub lang_code : Lang → Text
lang_code de = chars "de"
lang_code en = chars "en"

unfoldable pub from_code : Text → Option Lang
from_code code =
    if text_eq code (chars "de")
    then some de
    else if text_eq code (chars "en")
    then some en
    else none

-- `Option::or` of the parts of a header, the first one first: `find_map`.
abbrev pub or_option : {A : Type 0} → Option A → Option A → Option A
or_option (some a) o = some a
or_option none o = o

abbrev pub value_of : Text → Option (Text × Text) → Option Text
value_of name none = none
value_of name (some (key, value)) = if text_eq key name then some value else none

unfoldable pub cookie_in : Text → List Text → Option Text
cookie_in name [] = none
cookie_in name (part ∷ parts) =
    or_option (value_of name (split_once b'=' (trim part))) (cookie_in name parts)

unfoldable pub cookie_value : Text → Text → Option Text
cookie_value header name = cookie_in name (split b';' header)

-- The numbers of `f32` that the header may hold: what parses, the order of `total_cmp`, and whether
-- a weight is `<= 0.0`.
pub record Weights : Type 1 where
  pub F : Type 0
  pub parse : Text → Option F
  pub one : F
  pub le : F → F → Bool
  pub is_zero : F → Bool

abbrev pub code_in : Option Text → Option Lang
code_in none = none
code_in (some cookie) = from_code (trim cookie)

abbrev pub lang_or : Lang → Option Lang → Lang
lang_or lang none = lang
lang_or lang (some l) = l

module _ (w : Weights) where
  pub record Choice : Type 0 where
    pub tag : Text
    pub weight : w.F

  abbrev pub parse_weight : Option Text → Option w.F
  parse_weight none = none
  parse_weight (some v) = w.parse v

  abbrev pub weight_or_one : Option w.F → w.F
  weight_or_one none = w.one
  weight_or_one (some q) = q

  -- The weight in the parts after the tag: the first of them, if it reads "q=…".
  abbrev pub weight_of : List Text → w.F
  weight_of [] = w.one
  weight_of (p ∷ parts) = weight_or_one (parse_weight (strip_prefix (chars "q=") (trim p)))

  abbrev pub choice_of : List Text → Option Choice
  choice_of [] = none
  choice_of (tag ∷ parts) =
      if is_empty (trim tag)
      then none
      else some (record { tag = trim tag; weight = weight_of parts })

  abbrev pub push : Option Choice → List Choice → List Choice
  push none choices = choices
  push (some c) choices = c ∷ choices

  unfoldable pub choices_of : List Text → List Choice
  choices_of [] = []
  choices_of (entry ∷ entries) = push (choice_of (split b';' entry)) (choices_of entries)

  -- `sort_by` of descending weights, which is stable.
  unfoldable pub insert : Choice → List Choice → List Choice
  insert c [] = c ∷ []
  insert c (d ∷ ds) =
      let rest = insert c ds in if w.le d.weight c.weight then c ∷ d ∷ ds else d ∷ rest

  unfoldable pub sort : List Choice → List Choice
  sort [] = []
  sort (c ∷ cs) = insert c (sort cs)

  abbrev pub first_part : Text → List Text → Text
  first_part tag [] = tag
  first_part tag (part ∷ parts) = part

  unfoldable pub supported : Choice → Option Lang
  supported c = if w.is_zero c.weight then none else from_code (first_part c.tag (split b'-' c.tag))

  unfoldable pub first_supported : List Choice → Option Lang
  first_supported [] = none
  first_supported (c ∷ cs) = or_option (supported c) (first_supported cs)

  unfoldable pub best_match : Text → Option Lang
  best_match accept_language = first_supported (sort (choices_of (split b',' accept_language)))

  abbrev pub match_in : Option Text → Option Lang
  match_in none = none
  match_in (some header) = best_match header

  unfoldable pub negotiate : Option Text → Option Text → Lang
  negotiate cookie accept_language =
      lang_or (lang_or de (match_in accept_language)) (code_in cookie)

unfoldable pub entry : Text → Option Entry
entry key = find (λ e. text_eq e.key key) messages

abbrev pub in_language : Lang → Entry → Text
in_language de e = e.german
in_language en e = e.english

abbrev pub text_or : Text → Lang → Option Entry → Text
text_or key lang none = key
text_or key lang (some e) = in_language lang e

unfoldable pub msg : Lang → Text → Text
msg lang key = text_or key lang (entry key)

unfoldable pub msgf : Lang → Text → List Text → Text
msgf lang key args = substitute (msg lang key) args

-- A message of the database is a key, or stands for itself.
unfoldable pub db_msg : Lang → Text → Text
db_msg lang message = text_or message lang (entry message)

unfoldable pub date_format : Lang → Text
date_format de = chars "%d.%m.%Y"
date_format en = chars "%Y-%m-%d"
