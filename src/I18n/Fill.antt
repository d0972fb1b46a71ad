-- ===== src/I18n/Fill.antt =====
-- Messages as sequences of literal texts and placeholders (src/i18n.rs, `substitute`).
use kehrkraft.Prelude.{
  ℕ, zero, suc, ◌^◌, ◌<◌, ◌≤◌, ◌≡◌, refl, sym, ◌∙◌, ap, Bool, true, false, not, List, [], ◌∷◌, ◌++◌,
  Option, none, some, Text, length, get_elem?, length-append, arith, all, ◌==◌, append_assoc,
  append-nil,
}
use kehrkraft.Feed.{to_string}
use kehrkraft.Strings.{split_once}
use kehrkraft.Strings.Digits.{is_digit, digits-is_digit, parse_unsigned-to_string}
use kehrkraft.I18n.Substitute.{replaced, marked, opened, substitute_rest, substitute}

pub data Segment : Type 0 where
  literal : Text → Segment
  placeholder : ℕ → Segment

abbrev pub marker : ℕ → Text
marker i = b'{' ∷ (to_string i ++ (b'}' ∷ []))

-- The message that the segments make up, and what is to become of it.
unfoldable pub template_of : List Segment → Text
template_of [] = []
template_of (literal s ∷ segments) = s ++ template_of segments
template_of (placeholder i ∷ segments) = marker i ++ template_of segments

abbrev pub shown : ℕ → Option Text → Text
shown i none = marker i
shown i (some arg) = arg

unfoldable pub filled : List Text → List Segment → Text
filled args [] = []
filled args (literal s ∷ segments) = s ++ filled args segments
filled args (placeholder i ∷ segments) = shown i (get_elem? args i) ++ filled args segments

abbrev differs_from : ℕ → ℕ → Bool
differs_from c d = not (d == c)

-- Literal texts have no '{', and a placeholder is a `usize`.
abbrev pub IsSegment : Segment → Type 0
IsSegment (literal s) = all (differs_from b'{') s ≡ true
IsSegment (placeholder i) = i < 2 ^ 64

abbrev pub AreSegments : List Segment → Type 0
AreSegments [] = Unit
AreSegments (segment ∷ segments) = IsSegment segment × AreSegments segments

abbrev before_split : Text → Option (Text × Text) → Option (Text × Text)
before_split s none = none
before_split s (some (before, after)) = some (s ++ before, after)

before_split-nil : (o : Option (Text × Text)) → before_split [] o ≡ o
before_split-nil none = refl
before_split-nil (some (before, after)) = refl

split_step :
    (d : ℕ) (s : Text) (o : Option (Text × Text))
    → (elim (before_split s o) [ some (before, after) ↦ some (d ∷ before, after) | none ↦ none ])
      ≡ before_split (d ∷ s) o
split_step d s none = refl
split_step d s (some (before, after)) = refl

split_once-append :
    (c : ℕ) (s t : Text)
    → all (differs_from c) s ≡ true
    → split_once c (s ++ t) ≡ before_split s (split_once c t)
unfolding split_once
split_once-append c [] t h = sym (before_split-nil (split_once c t))
split_once-append c (d ∷ s) t h =
    let other : (d == c) ≡ false = ground (arith, h) in
    let rest : all (differs_from c) s ≡ true = ground (arith, h) in
    rw (other, split_once-append c s t rest) (split_step d s (split_once c t))

opened-append :
    (loop : Text → Text) (args : List Text) (s t : Text) (o : Option (Text × Text))
    → opened loop args (s ++ t) (before_split s o) ≡ s ++ opened loop args t o
opened-append loop args s t none = refl
opened-append loop args s t (some (before, after)) =
    append_assoc s before (marked loop args after (split_once b'}' after))

-- A text without '{' is copied.
substitute_rest-literal :
    (fuel : ℕ) (args : List Text) (s t : Text)
    → all (differs_from b'{') s ≡ true
    → substitute_rest fuel args (s ++ t) ≡ s ++ substitute_rest fuel args t
unfolding substitute_rest
substitute_rest-literal zero args s t h = refl
substitute_rest-literal (suc fuel) args s t h =
    rw (split_once-append b'{' s t h)
      (opened-append (substitute_rest fuel args) args s t (split_once b'{' t))

-- Digits are no braces.
digits-differ :
    (c : ℕ) (s : Text) → is_digit c ≡ false → all is_digit s ≡ true → all (differs_from c) s ≡ true
digits-differ c [] no_digit h = refl
digits-differ c (d ∷ s) no_digit h =
    ground (arith, no_digit, h, digits-differ c s no_digit (ground (arith, h)))

to_string-differs : (c i : ℕ) → is_digit c ≡ false → all (differs_from c) (to_string i) ≡ true
to_string-differs c i no_digit = digits-differ c (to_string i) no_digit (digits-is_digit (suc i) i)

split_once-close :
    (i : ℕ) (t : Text) → split_once b'}' (to_string i ++ (b'}' ∷ t)) ≡ some (to_string i, t)
unfolding split_once
split_once-close i t =
    split_once-append b'}' (to_string i) (b'}' ∷ t) (to_string-differs b'}' i refl)
    ∙ ap (λ s. some (s, t)) (append-nil (to_string i))

all-end :
    (s : Text)
    → all (differs_from b'{') s ≡ true
    → all (differs_from b'{') (s ++ (b'}' ∷ [])) ≡ true
all-end [] h = refl
all-end (c ∷ s) h = ground (arith, h, all-end s (ground (arith, h)))

-- A placeholder shows its argument, or itself.
substitute_rest-marker :
    (fuel : ℕ) (args : List Text) (i : ℕ) (t : Text)
    → i < 2 ^ 64
    → substitute_rest (suc fuel) args (marker i ++ t)
      ≡ shown i (get_elem? args i) ++ substitute_rest fuel args t
unfolding substitute_rest split_once
substitute_rest-marker fuel args i t h =
    rw
      (
        append_assoc (to_string i) (b'}' ∷ []) t,
        split_once-close i t,
        parse_unsigned-to_string (2 ^ 64) i h,
      )
      (by_arg (get_elem? args i))
  where
    by_arg :
        (o : Option Text)
        → replaced (substitute_rest fuel args) (to_string i ++ (b'}' ∷ t)) t o
          ≡ shown i o ++ substitute_rest fuel args t
    by_arg (some arg) = refl
    by_arg none =
        ap (λ u. b'{' ∷ u)
          (ap (substitute_rest fuel args) (sym (append_assoc (to_string i) (b'}' ∷ []) t))
            ∙ substitute_rest-literal fuel args (to_string i ++ (b'}' ∷ [])) t
                (all-end (to_string i) (to_string-differs b'{' i refl)))

substitute_rest-nil : (fuel : ℕ) (args : List Text) → substitute_rest fuel args [] ≡ []
unfolding substitute_rest split_once
substitute_rest-nil zero args = refl
substitute_rest-nil (suc fuel) args = refl

substitute_rest-filled :
    (fuel : ℕ) (args : List Text) (segments : List Segment)
    → length (template_of segments) ≤ fuel
    → AreSegments segments
    → substitute_rest fuel args (template_of segments) ≡ filled args segments
unfolding template_of filled
substitute_rest-filled fuel args [] le are = substitute_rest-nil fuel args
substitute_rest-filled fuel args (literal s ∷ segments) le (is, are) =
    substitute_rest-literal fuel args s (template_of segments) is
    ∙ ap (λ t. s ++ t)
        (substitute_rest-filled fuel args segments
          (omega (arith, le, length-append s (template_of segments))) are)
substitute_rest-filled zero args (placeholder i ∷ segments) le (is, are) =
    absurd (omega (arith, le))
substitute_rest-filled (suc fuel) args (placeholder i ∷ segments) le (is, are) =
    substitute_rest-marker fuel args i (template_of segments) is
    ∙ ap (λ t. shown i (get_elem? args i) ++ t)
        (substitute_rest-filled fuel args segments
          (omega (arith, le, length-append (to_string i ++ (b'}' ∷ [])) (template_of segments)))
          are)

-- In a message of literal texts and placeholders, each placeholder with an argument is replaced by
-- it, without a look at the text of the argument, and all else stays.
pub substitute-filled :
    (segments : List Segment) (args : List Text)
    → AreSegments segments
    → substitute (template_of segments) args ≡ filled args segments
unfolding substitute
substitute-filled segments args are =
    substitute_rest-filled (length (template_of segments)) args segments (omega arith) are
