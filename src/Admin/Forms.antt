-- ===== src/Admin/Forms.antt =====
-- src/web/admin.rs: what the forms of the periods submit, as the pairs of keys and values of the body.
use mathlib.Core.List.{reverse}
use kehrkraft.Prelude.{
  ℕ, ◌^◌, Bool, not, ◌&&◌, ◌||◌, List, [], ◌∷◌, map, Option, none, some, Text, text_eq, any, filter,
  find, ltb, ◌==◌, if◌then◌else◌,
}
use kehrkraft.Models.Names.{chars, trim, trim_option, non_empty, is_empty}
use kehrkraft.Strings.{strip_prefix, starts_with}
use kehrkraft.Strings.Numbers.{parse_unsigned}
use kehrkraft.Db.People.{NewPerson, NewPeriod}

pub record PersonInput : Type 0 where
  pub name : Text
  pub email : Text
  pub display_name : Text

pub record OwnerInput : Type 0 where
  pub people : List PersonInput
  pub start_date : Text
  pub end_date : Option Text
  pub display_names_submitted : Bool
  pub close_previous : Option Text
  pub confirm_end : Option Text

abbrev pub Pairs : Type 0
Pairs = List (Text × Text)

abbrev pub empty_person : PersonInput
empty_person = record { name = []; email = []; display_name = [] }

-- A row with neither a name nor an address.
abbrev pub is_blank : PersonInput → Bool
is_blank p = is_empty (trim p.name) && is_empty (trim p.email)

unfoldable pub normalize_end_date : Option Text → Option Text
normalize_end_date end_date = non_empty (trim_option end_date)

-- `OwnerInput::new_people`.
unfoldable pub new_people : OwnerInput → List NewPerson
new_people form =
    map
      (λ p. record {
        name = p.name;
        email = p.email;
        display_name = if form.display_names_submitted then some p.display_name else none;
      })
      (filter (λ p. not (is_blank p)) form.people)

abbrev pub period_of : OwnerInput → List NewPerson → Option NewPeriod
period_of form [] = none
period_of form (p ∷ people) = some (record {
  people = p ∷ people;
  start_date = form.start_date;
  end_date = normalize_end_date form.end_date;
})

-- `OwnerInput::new_period`, of the people that `new_people` returns.
unfoldable pub new_period : OwnerInput → Option NewPeriod
new_period form = period_of form (new_people form)

abbrev pub seed_person_rows : List PersonInput → List PersonInput
seed_person_rows [] = empty_person ∷ []
seed_person_rows (p ∷ people) = p ∷ people

abbrev pub value_or_empty : Option (Text × Text) → Text
value_or_empty none = []
value_or_empty (some (key, value)) = value

unfoldable pub form_value : Pairs → Text → Text
form_value pairs key = value_or_empty (find (λ pair. text_eq pair.0 key) pairs)

abbrev pub reversed : Option Text → Option Text
reversed none = none
reversed (some s) = some (reverse s)

-- `str::strip_suffix` and `str::ends_with`.
abbrev pub strip_suffix : Text → Text → Option Text
strip_suffix suffix s = reversed (strip_prefix (reverse suffix) (reverse s))

abbrev pub ends_with : Text → Text → Bool
ends_with suffix s = starts_with (reverse suffix) (reverse s)

abbrev pub index_of : Option Text → Option ℕ
index_of none = none
index_of (some s) = parse_unsigned (2 ^ 64) s

-- The people of the form by their index, the smallest first: the map `by_index`.
abbrev pub ByIndex : Type 0
ByIndex = List (ℕ × PersonInput)

-- `entry(index).or_default()`, changed.
unfoldable pub change_at : ℕ → (PersonInput → PersonInput) → ByIndex → ByIndex
change_at index f [] = (index, f empty_person) ∷ []
change_at index f ((k, p) ∷ rows) =
    let rest = change_at index f rows in
    if k == index
    then (k, f p) ∷ rows
    else if ltb index k
    then (index, f empty_person) ∷ (k, p) ∷ rows
    else (k, p) ∷ rest

abbrev pub displayed_at : ByIndex → Text → Option ℕ → ByIndex
displayed_at rows value none = rows
displayed_at rows value (some index) = change_at index (λ p. record p { display_name = value }) rows

abbrev pub mailed_at : ByIndex → Text → Text → Option ℕ → ByIndex
mailed_at rows rest value none =
    displayed_at rows value (index_of (strip_suffix (chars "_display_name") rest))
mailed_at rows rest value (some index) = change_at index (λ p. record p { email = value }) rows

abbrev pub named_at : ByIndex → Text → Text → Option ℕ → ByIndex
named_at rows rest value none =
    mailed_at rows rest value (index_of (strip_suffix (chars "_email") rest))
named_at rows rest value (some index) = change_at index (λ p. record p { name = value }) rows

abbrev pub person_field : ByIndex → Text → Option Text → ByIndex
person_field rows value none = rows
person_field rows value (some rest) =
    named_at rows rest value (index_of (strip_suffix (chars "_name") rest))

unfoldable pub collect_people : ByIndex → Pairs → ByIndex
collect_people rows [] = rows
collect_people rows ((key, value) ∷ pairs) =
    collect_people (person_field rows value (strip_prefix (chars "person_") key)) pairs

abbrev pub legacy_person : Pairs → Text → Text → List PersonInput
legacy_person pairs name email =
    if is_empty name && is_empty email
    then []
    else record {
      name = name;
      email = email;
      display_name = form_value pairs (chars "display_name");
    }
      ∷ []

abbrev pub people_or_legacy : Pairs → Text → Text → ByIndex → List PersonInput
people_or_legacy pairs legacy_name legacy_email [] =
    legacy_person pairs (form_value pairs legacy_name) (form_value pairs legacy_email)
people_or_legacy pairs legacy_name legacy_email (row ∷ rows) =
    filter (λ p. not (is_blank p)) (map (λ r. r.1) (row ∷ rows))

unfoldable pub parse_people_fields : Pairs → Text → Text → List PersonInput
parse_people_fields pairs legacy_name legacy_email =
    people_or_legacy pairs legacy_name legacy_email (collect_people [] pairs)

unfoldable pub display_names_in : Pairs → Bool
display_names_in pairs =
    any
      (λ pair.
        text_eq pair.0 (chars "display_name")
        || (starts_with (chars "person_") pair.0 && ends_with (chars "_display_name") pair.0))
      pairs

abbrev pub answer_in : Pairs → Text → Option Text
answer_in pairs key = non_empty (some (form_value pairs key))

unfoldable pub parse_owner_input : Pairs → OwnerInput
parse_owner_input pairs = record {
  people = parse_people_fields pairs (chars "name") (chars "email");
  start_date = form_value pairs (chars "start_date");
  end_date = normalize_end_date (some (form_value pairs (chars "end_date")));
  display_names_submitted = display_names_in pairs;
  close_previous = answer_in pairs (chars "close_previous");
  confirm_end = answer_in pairs (chars "confirm_end");
}
