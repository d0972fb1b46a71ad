-- ===== src/I18n/Preference.antt =====
-- The language that the header `Accept-Language` prefers (src/i18n.rs).
use kehrkraft.Prelude.{◌≡◌, true, List, [], ◌∷◌, none, some, In}
use kehrkraft.I18n.{Lang, Weights, Choice, supported}

module _ (w : Weights) where
  abbrev Descending : List (Choice w) → Type 0
  Descending [] = Unit
  Descending (c ∷ cs) = ((d : Choice w) → In d cs → w.le d.weight c.weight ≡ true) × Descending cs

  -- The choice is in the list, its language is supported, and no choice of a supported language has
  -- a larger weight.
  pub record IsBest (choices : List (Choice w)) (lang : Lang) : Type 0 where
    pub choice : Choice w
    pub is_in : In choice choices
    pub is_supported : supported w choice ≡ some lang
    pub is_largest :
        (d : Choice w) (l : Lang)
        → In d choices
        → supported w d ≡ some l
        → w.le d.weight choice.weight ≡ true

  abbrev pub NoneSupported : List (Choice w) → Type 0
  NoneSupported choices = (d : Choice w) → In d choices → supported w d ≡ none
