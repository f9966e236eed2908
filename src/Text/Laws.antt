-- ===== src/Text/Laws.antt =====
-- Laws of the text functions.
use app_gocms.Prelude.{
  ℕ, ◌≡◌, ◌≢◌, ◌↔◌, refl, ap, Bool, true, false, some, [], ◌∷◌, ◌++◌, arith, eqb, is_some, All,
}
use app_gocms.Text.{
  Text, ◌==◌, is_empty, strip_prefix, has_prefix, trim_prefix, contains, count, trim_left,
  trim_right, trim,
}

pub ==_iff : (s t : Text) → ((s == t) ≡ true) ↔ (s ≡ t)
unfolding ◌==◌
==_iff [] [] = ground arith
==_iff [] (d ∷ t) = ground arith
==_iff (c ∷ s) [] = ground arith
==_iff (c ∷ s) (d ∷ t) = ground (arith, ==_iff s t)

pub ==_refl : (s : Text) → (s == s) ≡ true
==_refl s = (==_iff s s).1 refl

pub strip_prefix-append : (p s : Text) → strip_prefix (p ++ s) p ≡ some s
unfolding strip_prefix
strip_prefix-append [] [] = refl
strip_prefix-append [] (c ∷ s) = refl
strip_prefix-append (c ∷ p) s = ground (arith, strip_prefix-append p s)

pub has_prefix-append : (p s : Text) → has_prefix (p ++ s) p ≡ true
unfolding has_prefix
has_prefix-append p s = ap is_some (unfold strip_prefix in strip_prefix-append p s)

pub trim_prefix-append : (p s : Text) → trim_prefix (p ++ s) p ≡ s
unfolding trim_prefix
trim_prefix-append p s = ground (arith, strip_prefix-append p s)

pub contains-append : (s sub t : Text) → contains (s ++ (sub ++ t)) sub ≡ true
unfolding contains
contains-append [] [] [] = refl
contains-append [] [] (c ∷ t) = ground (arith, has_prefix-append [] (c ∷ t))
contains-append [] (c ∷ sub) t = ground (arith, has_prefix-append (c ∷ sub) t)
contains-append (c ∷ s) sub t = ground (arith, contains-append s sub t)

-- No byte of the text is the one given.
abbrev pub Lacks : ℕ → Text → Type 0
Lacks c = All (λ d. eqb d c ≡ false)

-- No byte of the text passes the test.
abbrev pub AllOut : (ℕ → Bool) → Text → Type 0
AllOut p = All (λ d. p d ≡ false)

pub trim_left-AllOut : (p : ℕ → Bool) (s : Text) → AllOut p s → trim_left p s ≡ s
unfolding trim_left
trim_left-AllOut p [] h = refl
trim_left-AllOut p (c ∷ s) (h, hs) = rw h

pub trim_right-AllOut : (p : ℕ → Bool) (s : Text) → AllOut p s → trim_right p s ≡ s
unfolding trim_right
trim_right-AllOut p [] h = refl
trim_right-AllOut p (c ∷ s) (h, hs) = rw (h, trim_right-AllOut p s hs)

pub trim-AllOut : (p : ℕ → Bool) (s : Text) → AllOut p s → trim p s ≡ s
unfolding trim
trim-AllOut p s h = rw (trim_left-AllOut p s h, trim_right-AllOut p s h)

pub count-Lacks : (c : ℕ) (s : Text) → Lacks c s → count c s ≡ 0
unfolding count
count-Lacks c [] h = refl
count-Lacks c (d ∷ s) (h, hs) = ground (arith, count-Lacks c s hs)

pub is_empty_of_ne : (s : Text) → s ≢ [] → is_empty s ≡ false
unfolding is_empty
is_empty_of_ne [] h = absurd (h refl)
is_empty_of_ne (c ∷ s) h = refl
