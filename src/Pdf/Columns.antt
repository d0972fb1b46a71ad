-- ===== src/Pdf/Columns.antt =====
-- The two columns of the printed schedule (`balanced_columns` of src/web/pdf.rs).
use kehrkraft.Prelude.{
  ℕ, ◌+◌, ◌-◌, ◌/◌, ◌%◌, ◌≤◌, ◌≡◌, ◌≢◌, refl, sym, ap, ◌∙◌, true, false, List, ◌∷◌, ◌++◌, some,
  arith, leb, ◌&&◌, ◌==◌, take, drop, length, length-take, length-drop, length-append,
  take-append-drop, append_assoc,
}
use kehrkraft.Pdf.{last, odd_columns, balanced_columns}

-- Two columns of the same height that read, the left one first, as `weeks`.
pub record IsLayout {A : Type 0} (weeks : List A) (columns : List A × List A) : Type 0 where
  pub balanced : length columns.0 ≡ length columns.1
  pub complete : columns.0 ++ columns.1 ≡ weeks

module _ {A : Type 0} where
  even-IsLayout :
      (current : List A)
      → length current % 2 ≡ 0
      → IsLayout current (take (length current / 2) current, drop (length current / 2) current)
  even-IsLayout current even = record {
    balanced = omega (
      arith,
      even,
      length-take (length current / 2) current,
      length-drop (length current / 2) current,
    );
    complete = take-append-drop (length current / 2) current;
  }

  odd-IsLayout :
      (week : A) (current next : List A)
      → length current % 2 ≢ 0
      → 2 ≤ length next
      → (columns : List A × List A) × (odd_columns (some week) current next ≡ some columns)
        × IsLayout (week ∷ (current ++ take 2 next)) columns
  odd-IsLayout week current next odd two = (
    (week ∷ take half current, drop half current ++ take 2 next),
    rw fits refl,
    record {
      balanced = omega (
        arith,
        odd,
        two,
        length-take half current,
        length-drop half current,
        length-take 2 next,
        length-append (drop half current) (take 2 next),
      );
      complete =
          ap (λ l. week ∷ l)
            (sym (append_assoc (take half current) (drop half current) (take 2 next))
              ∙ ap (λ l. l ++ take 2 next) (take-append-drop half current));
    },
  )
    where
      half : ℕ
      half = (length current + 3) / 2 - 1

      fits : leb half (length current) && leb 2 (length next) ≡ true
      fits = ground (arith, odd, two)

  -- A year with an even number of weeks: two columns of the same height with the weeks of the year.
  pub balanced_columns_even :
      (prev current next : List A)
      → length current % 2 ≡ 0
      → (columns : List A × List A) × (balanced_columns prev current next ≡ some columns)
        × IsLayout current columns
  unfolding balanced_columns
  balanced_columns_even prev current next even =
      let is : (length current % 2 == 0) ≡ true = ground (arith, even) in
      (_, rw is refl, even-IsLayout current even)

  -- A year with an odd number of weeks, after a year whose last week is `week` and before a year of
  -- two weeks or more: two columns of the same height with that week, the weeks of the year and the
  -- first two weeks of the next year.
  pub balanced_columns_odd :
      (prev current next : List A) (week : A)
      → last prev ≡ some week
      → length current % 2 ≢ 0
      → 2 ≤ length next
      → (columns : List A × List A) × (balanced_columns prev current next ≡ some columns)
        × IsLayout (week ∷ (current ++ take 2 next)) columns
  unfolding balanced_columns
  balanced_columns_odd prev current next week is_last odd two =
      let is : (length current % 2 == 0) ≡ false = ground (arith, odd) in
      let (columns, e, layout) = odd-IsLayout week current next odd two in
      (columns, rw is (rw is_last e), layout)
