-- ===== src/Text/Trim.antt =====
-- Trimmed text: what `trim_left` and `trim_right` leave, and where they change nothing.
use app_gocms.Prelude.{
  ℕ, ◌≡◌, ◌≢◌, refl, Bool, false, ◌&&◌, [], ◌∷◌, ◌++◌, arith, if◌then◌else◌, Bool-cases, inl, inr,
}
use app_gocms.Text.{Text, is_empty, trim_left, trim_right, trim}
use app_gocms.Text.Laws.{AllOut, trim_right-AllOut}

module _ (p : ℕ → Bool) where
  -- The text does not begin with a byte that passes the test.
  abbrev pub HeadOut : Text → Type 0
  HeadOut [] = Unit
  HeadOut (c ∷ s) = p c ≡ false

  pub trim_left-HeadOut : (s : Text) → HeadOut (trim_left p s)
  unfolding trim_left
  trim_left-HeadOut [] = tt
  trim_left-HeadOut (c ∷ s) = elim (Bool-cases (p c)) [
    | inl e ↦ rw e (trim_left-HeadOut s)
    | inr e ↦ rw e e
  ]

  pub HeadOut-trim_left : (s : Text) → HeadOut s → trim_left p s ≡ s
  unfolding trim_left
  HeadOut-trim_left [] h = refl
  HeadOut-trim_left (c ∷ s) h = rw h

  pub HeadOut-trim_right : (s : Text) → HeadOut s → HeadOut (trim_right p s)
  unfolding trim_right
  HeadOut-trim_right [] h = tt
  HeadOut-trim_right (c ∷ s) h = rw h h

  pub trim_right_idem : (s : Text) → trim_right p (trim_right p s) ≡ trim_right p s
  unfolding trim_right
  trim_right_idem [] = refl
  trim_right_idem (c ∷ s) = ground (arith, trim_right_idem s)

  pub trim_idem : (s : Text) → trim p (trim p s) ≡ trim p s
  unfolding trim
  trim_idem s =
      rw (HeadOut-trim_left _ (HeadOut-trim_right (trim_left p s) (trim_left-HeadOut s)))
        (trim_right_idem (trim_left p s))

  pub trim_right-trim : (s : Text) → trim_right p (trim p s) ≡ trim p s
  unfolding trim
  trim_right-trim s = trim_right_idem (trim_left p s)

  keep_last :
      (c : ℕ) (xs s : Text)
      → s ≢ []
      → (if p c && is_empty (xs ++ s) then [] else c ∷ (xs ++ s)) ≡ c ∷ (xs ++ s)
  unfolding is_empty
  keep_last c [] [] h = absurd (h refl)
  keep_last c [] (d ∷ s) h = ground arith
  keep_last c (x ∷ xs) s h = ground arith

  -- A text that ends outside the test keeps its end.
  pub trim_right-append : (xs s : Text) → s ≢ [] → AllOut p s → trim_right p (xs ++ s) ≡ xs ++ s
  unfolding trim_right
  trim_right-append [] s h out = trim_right-AllOut p s out
  trim_right-append (c ∷ xs) s h out = rw (trim_right-append xs s h out) (keep_last c xs s h)
