-- ===== src/I18n/Keys.antt =====
-- The keys of the catalog, and the codes that the triggers raise (src/i18n.rs,
-- migrations/0012_validation_error_codes.sql).
use kehrkraft.Prelude.{
  ◌≡◌, refl, sym, inl, inr, Bool, true, false, not, ◌&&◌, List, [], ◌∷◌, some, Text, text_eq,
  text_eq_sound, text_eq_refl, find, any, arith, In, all, Option, none, Option-cases, Bool-cases,
}
use kehrkraft.Models.Names.{chars, is_empty}
use kehrkraft.I18n.Entries.{Entry}
use kehrkraft.I18n.Catalog.{messages}
use kehrkraft.I18n.{Lang, de, en, in_language, entry, msg, db_msg}

-- No two entries have one key.
abbrev distinct_keys : List Entry → Bool
distinct_keys [] = true
distinct_keys (e ∷ es) = not (any (λ o. text_eq o.key e.key) es) && distinct_keys es

messages-distinct : distinct_keys messages ≡ true
unfolding messages text_eq
messages-distinct = refl

any-In :
    (key : Text) (e : Entry) (es : List Entry)
    → In e es
    → e.key ≡ key
    → any (λ o. text_eq o.key key) es ≡ true
any-In key e [] h is = absurd h
any-In key e (o ∷ es) (inl same) is =
    let found : text_eq o.key key ≡ true = rw (sym same, is) (text_eq_refl key) in
    ground (arith, found)
any-In key e (o ∷ es) (inr later) is = ground (arith, any-In key e es later is)

find-In :
    (e : Entry) (es : List Entry)
    → distinct_keys es ≡ true
    → In e es
    → find (λ o. text_eq o.key e.key) es ≡ some e
find-In e [] distinct h = absurd h
find-In e (o ∷ es) distinct (inl same) = rw (sym same, text_eq_refl e.key) refl
find-In e (o ∷ es) distinct (inr later) = elim (Bool-cases (text_eq o.key e.key)) [
  | inl equal ↦
      absurd
        (ground (arith, distinct, any-In o.key e es later (sym (text_eq_sound o.key e.key equal))))
  | inr other ↦ rw other (find-In e es (ground (arith, distinct)) later)
]

-- Every entry of the catalog is what its key stands for, in both languages.
pub msg-In : (lang : Lang) (e : Entry) → In e messages → msg lang e.key ≡ in_language lang e
unfolding msg entry
msg-In lang e h = rw (find-In e messages messages-distinct h) refl

-- The codes that the triggers of the migrations from 0012 on raise.
unfoldable pub error_codes : List Text
error_codes =
    chars "ERR_NAME_EMPTY"
    ∷ chars "ERR_NAME_TOO_LONG"
    ∷ chars "ERR_EMAIL_AT"
    ∷ chars "ERR_EMAIL_DOT"
    ∷ chars "ERR_START_DATE_FORMAT"
    ∷ chars "ERR_END_DATE_FORMAT"
    ∷ chars "ERR_START_AFTER_END"
    ∷ chars "ERR_OWNERSHIP_OVERLAP"
    ∷ chars "ERR_TENANCY_OVERLAP"
    ∷ chars "ERR_BUILDING_OWNER_OVERLAP"
    ∷ chars "ERR_OWNERSHIP_GAP_NEXT_START"
    ∷ chars "ERR_BUILDING_OWNER_GAP_NEXT_START"
    ∷ chars "ERR_OWNERSHIP_GAP_PREV_END"
    ∷ chars "ERR_BUILDING_OWNER_GAP_PREV_END"
    ∷ chars "ERR_OWNERSHIP_LAST_DELETE"
    ∷ chars "ERR_OWNERSHIP_MIDDLE_DELETE"
    ∷ chars "ERR_BUILDING_OWNER_LAST_DELETE"
    ∷ chars "ERR_BUILDING_OWNER_MIDDLE_DELETE"
    ∷ chars "ERR_APARTMENT_REQUIRES_OWNER"
    ∷ chars "ERR_OWNERSHIP_REQUIRES_PERSON"
    ∷ chars "ERR_BUILDING_OWNER_REQUIRES_PERSON"
    ∷ chars "ERR_TENANCY_REQUIRES_PERSON"
    ∷ chars "ERR_ADMIN_REQUIRES_PERSON"
    ∷ chars "ERR_PERSON_EMAIL_TAKEN"
    ∷ chars "ERR_OWNERSHIP_FORBIDDEN_WHEN_BUILDING_OWNER"
    ∷ chars "ERR_BUILDING_OWNER_FORBIDDEN_WHEN_APARTMENT_OWNERS"
    ∷ chars "ERR_OWNERSHIP_CURRENT_DELETE"
    ∷ chars "ERR_BUILDING_OWNER_CURRENT_DELETE"
    ∷ []

-- The code has an entry with a text in both languages.
abbrev IsListed : Text → Type 0
IsListed code =
    (e : Entry) × (entry code ≡ some e) × (is_empty e.german ≡ false) × (is_empty e.english ≡ false)

abbrev has_texts : Option Entry → Bool
has_texts none = false
has_texts (some e) = not (is_empty e.german) && not (is_empty e.english)

error_codes-has_texts : all (λ c. has_texts (entry c)) error_codes ≡ true
unfolding entry messages text_eq error_codes
error_codes-has_texts = refl

all-In :
    (code : Text) (codes : List Text)
    → all (λ c. has_texts (entry c)) codes ≡ true
    → In code codes
    → has_texts (entry code) ≡ true
all-In code [] h i = absurd i
all-In code (c ∷ cs) h (inl same) = rw same (ground (arith, h))
all-In code (c ∷ cs) h (inr later) = all-In code cs (ground (arith, h)) later

has_texts-IsListed : (code : Text) → has_texts (entry code) ≡ true → IsListed code
has_texts-IsListed code h = elim (Option-cases (entry code)) [
  | inl e ↦ absurd (ground (arith, h, e))
  | inr (x, e) ↦
      let texts : has_texts (some x) ≡ true = rw e at h in
      (x, e, ground (arith, texts), ground (arith, texts))
]

error_codes-IsListed : (code : Text) → In code error_codes → IsListed code
error_codes-IsListed code h =
    has_texts-IsListed code (all-In code error_codes error_codes-has_texts h)

-- Every code that a trigger of the database raises is shown as a text of its entry in the catalog,
-- in each language, and the text is not empty.
pub db_msg-raised :
    (lang : Lang) (code : Text)
    → In code error_codes
    → (e : Entry) × (entry code ≡ some e)
      × (db_msg lang code ≡ in_language lang e)
      × (is_empty (db_msg lang code) ≡ false)
unfolding db_msg
db_msg-raised de code h =
    let (e, found, german, english) = error_codes-IsListed code h in
    (e, found, rw found refl, rw found german)
db_msg-raised en code h =
    let (e, found, german, english) = error_codes-IsListed code h in
    (e, found, rw found refl, rw found english)
