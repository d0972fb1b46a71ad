-- ===== src/Feed/Unfold.antt =====
-- Reading a line that `fold_line` of src/web/ical.rs folded.
use kehrkraft.Prelude.{
  ℕ, ◌≡◌, refl, sym, ap, inl, inr, true, false, [], ◌∷◌, ◌++◌, Text, arith, leb, ltb, ◌+◌, ◌==◌,
  Bool-cases, append_assoc, append-nil, subst,
}
use kehrkraft.Feed.{len_utf8, octets, fold_break, fold_chars, fold_line}
use kehrkraft.Feed.Escape.{has_no_lf}
use kehrkraft.Feed.Fold.{has_no_lf-append, fold_over, fold_under}

-- What a reader has seen of a line break that is followed by a space.
pub data Seen : Type 0 where
  nothing cr cr_lf : Seen

-- Reads a folded line (RFC 5545, 3.1): a line break and the space after it are dropped.
unfoldable pub read_folded : Seen → Text → Text
read_folded nothing [] = []
read_folded cr [] = 13 ∷ []
read_folded cr_lf [] = 13 ∷ 10 ∷ []
read_folded nothing (c ∷ s) = elim (c == 13) [
  | true ↦ read_folded cr s
  | false ↦ c ∷ read_folded nothing s
]
read_folded cr (c ∷ s) = elim (c == 10) [
  | true ↦ read_folded cr_lf s
  | false ↦ 13 ∷ elim (c == 13) [ true ↦ read_folded cr s | false ↦ c ∷ read_folded nothing s ]
]
read_folded cr_lf (c ∷ s) = elim (c == 32) [
  | true ↦ read_folded nothing s
  | false ↦ 13 ∷ 10 ∷ elim (c == 13) [ true ↦ read_folded cr s | false ↦ c ∷ read_folded nothing s ]
]

abbrev Reads : Text → Text → Type 0
Reads out t = (read_folded nothing out ≡ t) × (read_folded cr out ≡ 13 ∷ t)

-- What is read is read after a text without a line feed too.
Reads-after : (t out u : Text) → has_no_lf t ≡ true → Reads out u → Reads (t ++ out) (t ++ u)
unfolding read_folded
Reads-after [] out u h r = r
Reads-after (c ∷ t) out u h r = ground (arith, h, Reads-after t out u)

Reads-break : (out u : Text) → Reads out u → Reads (fold_break ++ out) u
unfolding read_folded
Reads-break out u r = (r.0, ap (λ t. 13 ∷ t) r.0)

Reads-itself : (t : Text) → has_no_lf t ≡ true → Reads t t
unfolding read_folded
Reads-itself [] h = (refl, refl)
Reads-itself (c ∷ t) h = ground (arith, h, Reads-itself t)

Reads-fold_chars :
    (limit : ℕ) (current s : Text)
    → has_no_lf current ≡ true
    → has_no_lf s ≡ true
    → Reads (fold_chars limit current s) (current ++ s)
unfolding fold_chars
Reads-fold_chars limit current [] h k =
    subst (λ t. Reads current t) (sym (append-nil current)) (Reads-itself current h)
Reads-fold_chars limit current (c ∷ s) h k =
    elim (Bool-cases (ltb limit (octets current + len_utf8 c))) [
      | inl over ↦
          subst (λ t. Reads t (current ++ c ∷ s)) (sym (fold_over limit current s c over))
            (Reads-after current (fold_break ++ fold_chars 74 (c ∷ []) s) (c ∷ s) h (
              Reads-break (fold_chars 74 (c ∷ []) s) (c ∷ s)
                (Reads-fold_chars 74 (c ∷ []) s alone rest)))
      | inr under ↦
          subst (λ t. Reads t (current ++ c ∷ s)) (sym (fold_under limit current s c under))
            (subst (λ t. Reads (fold_chars limit (current ++ c ∷ []) s) t)
              (append_assoc current (c ∷ []) s)
              (Reads-fold_chars limit (current ++ c ∷ []) s
                (has_no_lf-append current (c ∷ []) h alone) rest))
    ]
  where
    rest : has_no_lf s ≡ true
    rest = ground (arith, k)

    alone : has_no_lf (c ∷ []) ≡ true
    alone = ground (arith, k)

-- A line without a line feed reads back as it was after folding.
pub read_folded-fold_line :
    (line : Text) → has_no_lf line ≡ true → read_folded nothing (fold_line line) ≡ line
unfolding fold_line
read_folded-fold_line line h = elim (Bool-cases (leb (octets line) 75)) [
  | inl short ↦ rw short ((Reads-itself line h).0)
  | inr long ↦ rw long ((Reads-fold_chars 75 [] line refl h).0)
]
