-- ===== src/Strings/Trim.antt =====
-- `str::trim` of texts without white space at their ends.
use kehrkraft.Prelude.{◌≡◌, refl, false, [], ◌∷◌, ◌++◌, Text, ℕ}
use mathlib.Core.List.{reverse_aux}
use kehrkraft.Models.Names.{is_whitespace, trim_start, trim}

reverse_aux-last : (s r : Text) (d : ℕ) → reverse_aux (s ++ (d ∷ [])) r ≡ d ∷ reverse_aux s r
reverse_aux-last [] r d = refl
reverse_aux-last (c ∷ s) r d = reverse_aux-last s (c ∷ r) d

reverse_aux-reverse_aux : (s r t : Text) → reverse_aux (reverse_aux s r) t ≡ reverse_aux r (s ++ t)
reverse_aux-reverse_aux [] r t = refl
reverse_aux-reverse_aux (c ∷ s) r t = reverse_aux-reverse_aux s (c ∷ r) t

-- A text whose first and last characters are not white space is trimmed already.
pub trim_id :
    (c : ℕ) (s : Text) (d : ℕ)
    → is_whitespace c ≡ false
    → is_whitespace d ≡ false
    → trim (c ∷ (s ++ (d ∷ []))) ≡ c ∷ (s ++ (d ∷ []))
unfolding trim trim_start
trim_id c s d first last =
    rw (first, reverse_aux-last s (c ∷ []) d, last) (reverse_aux-reverse_aux s (c ∷ []) (d ∷ []))
