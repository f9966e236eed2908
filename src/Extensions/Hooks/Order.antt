-- ===== src/Extensions/Hooks/Order.antt =====
-- The order of the handlers of a hook: by priority, and by registration within one priority.
use mathlib.Core.Path.{subst}
use app_gocms.Prelude.{
  ℤ, ltb_ℤ, leb_ℤ, ◌≡◌, refl, sym, ap, ◌∙◌, Bool, true, false, ◌&&◌, List, [], ◌∷◌, ◌++◌, arith,
  filter, if◌then◌else◌, Bool-cases, inl, inr, append_assoc, append-nil,
}
use app_gocms.Text.{Text, ◌==◌}
use app_gocms.Text.Laws.{==_iff}
use app_gocms.Extensions.Hooks.{
  Hook, HookBus, insert, insert_all, stable_sort, register, new_hook_bus, add_action,
}

leb_ℤ_trans : (a b c : ℤ) → leb_ℤ a b ≡ true → leb_ℤ b c ≡ true → leb_ℤ a c ≡ true
leb_ℤ_trans a b c h k = ground arith

ltb→leb_ℤ : (a b : ℤ) → ltb_ℤ a b ≡ true → leb_ℤ a b ≡ true
ltb→leb_ℤ a b h = ground arith

not_ltb_ℤ : (a b : ℤ) → ltb_ℤ a b ≡ false → leb_ℤ b a ≡ true
not_ltb_ℤ a b h = ground arith

above : (a b c : ℤ) → ltb_ℤ a b ≡ true → leb_ℤ b c ≡ true → (leb_ℤ a c && leb_ℤ c a) ≡ false
above a b c h k = ground arith

leb_ℤ_refl : (a : ℤ) → leb_ℤ a a ≡ true
leb_ℤ_refl a = ground arith

ltb_of_priority :
    (q a b : ℤ) → (leb_ℤ q a && leb_ℤ a q) ≡ true → ltb_ℤ a b ≡ true → ltb_ℤ q b ≡ true
ltb_of_priority q a b h k = ground arith

module _ {ℓ} {F : Type ℓ} where
  abbrev pub AtLeast : ℤ → List (Hook F) → Type 0
  AtLeast q [] = Unit
  AtLeast q (x ∷ xs) = (leb_ℤ q x.priority ≡ true) × AtLeast q xs

  -- The priorities do not fall.
  abbrev pub IsOrdered : List (Hook F) → Type 0
  IsOrdered [] = Unit
  IsOrdered (x ∷ xs) = AtLeast x.priority xs × IsOrdered xs

  abbrev pub has_priority : ℤ → Hook F → Bool
  has_priority q h = leb_ℤ q h.priority && leb_ℤ h.priority q

  AtLeast-insert :
      (q : ℤ) (h : Hook F) (xs : List (Hook F))
      → leb_ℤ q h.priority ≡ true
      → AtLeast q xs
      → AtLeast q (insert h xs)
  unfolding insert
  AtLeast-insert q h [] hq hx = (hq, tt)
  AtLeast-insert q h (x ∷ xs) hq (px, hx) = elim (Bool-cases (ltb_ℤ h.priority x.priority)) [
    | inl e ↦ rw e (hq, (px, hx))
    | inr e ↦ rw e (px, AtLeast-insert q h xs hq hx)
  ]

  AtLeast-below : (p q : ℤ) (xs : List (Hook F)) → leb_ℤ p q ≡ true → AtLeast q xs → AtLeast p xs
  AtLeast-below p q [] h hx = tt
  AtLeast-below p q (x ∷ xs) h (px, hx) =
      (leb_ℤ_trans p q x.priority h px, AtLeast-below p q xs h hx)

  IsOrdered-insert : (h : Hook F) (xs : List (Hook F)) → IsOrdered xs → IsOrdered (insert h xs)
  unfolding insert
  IsOrdered-insert h [] hx = (tt, tt)
  IsOrdered-insert h (x ∷ xs) (px, hx) = elim (Bool-cases (ltb_ℤ h.priority x.priority)) [
    | inl e ↦
        let le = ltb→leb_ℤ h.priority x.priority e in
        rw e ((le, AtLeast-below h.priority x.priority xs le px), (px, hx))
    | inr e ↦ rw e (
      AtLeast-insert x.priority h xs (not_ltb_ℤ h.priority x.priority e) px,
      IsOrdered-insert h xs hx,
    )
  ]

  IsOrdered-insert_all : (xs ys : List (Hook F)) → IsOrdered ys → IsOrdered (insert_all xs ys)
  unfolding insert_all
  IsOrdered-insert_all [] ys hy = hy
  IsOrdered-insert_all (x ∷ xs) ys hy =
      IsOrdered-insert_all xs (insert x ys) (IsOrdered-insert x ys hy)

  none_above :
      (p q : ℤ) (xs : List (Hook F))
      → ltb_ℤ p q ≡ true
      → AtLeast q xs
      → filter (has_priority p) xs ≡ []
  none_above p q [] h hx = refl
  none_above p q (x ∷ xs) h (px, hx) = rw (above p q x.priority h px, none_above p q xs h hx)

  filter_one :
      (p : Hook F → Bool) (x : Hook F) (xs : List (Hook F))
      → filter p (x ∷ []) ++ filter p xs ≡ filter p (x ∷ xs)
  filter_one p x xs = elim (Bool-cases (p x)) [ inl e ↦ rw e refl | inr e ↦ rw e refl ]

  cons_both :
      (p : Hook F → Bool) (x : Hook F) (xs ys zs : List (Hook F))
      → filter p xs ≡ filter p ys ++ zs
      → filter p (x ∷ xs) ≡ filter p (x ∷ ys) ++ zs
  cons_both p x xs ys zs h = elim (Bool-cases (p x)) [
    | inl e ↦ rw e (ap (λ ws. x ∷ ws) h)
    | inr e ↦ rw e h
  ]

  filter-append :
      (p : Hook F → Bool) (xs ys : List (Hook F)) → filter p (xs ++ ys) ≡ filter p xs ++ filter p ys
  filter-append p [] ys = refl
  filter-append p (x ∷ xs) ys = cons_both p x (xs ++ ys) xs _ (filter-append p xs ys)

  first :
      (q : ℤ) (h x : Hook F) (xs : List (Hook F))
      → ltb_ℤ h.priority x.priority ≡ true
      → AtLeast x.priority xs
      → filter (has_priority q) (h ∷ x ∷ xs)
        ≡ filter (has_priority q) (x ∷ xs) ++ filter (has_priority q) (h ∷ [])
  first q h x xs e px = elim (Bool-cases (has_priority q h)) [
    | inl eh ↦
        let below = ltb_of_priority q h.priority x.priority eh e in
        rw (none_above q x.priority (x ∷ xs) below (leb_ℤ_refl x.priority, px)) refl
    | inr eh ↦ rw eh (sym (append-nil _))
  ]

  filter-insert :
      (q : ℤ) (h : Hook F) (xs : List (Hook F))
      → IsOrdered xs
      → filter (has_priority q) (insert h xs)
        ≡ filter (has_priority q) xs ++ filter (has_priority q) (h ∷ [])
  unfolding insert
  filter-insert q h [] hx = refl
  filter-insert q h (x ∷ xs) (px, hx) = elim (Bool-cases (ltb_ℤ h.priority x.priority)) [
    | inl e ↦ rw e (first q h x xs e px)
    | inr e ↦ rw e (cons_both (has_priority q) x _ _ _ (filter-insert q h xs hx))
  ]

  filter-insert_all :
      (q : ℤ) (xs ys : List (Hook F))
      → IsOrdered ys
      → filter (has_priority q) (insert_all xs ys)
        ≡ filter (has_priority q) ys ++ filter (has_priority q) xs
  unfolding insert_all
  filter-insert_all q [] ys hy = sym (append-nil _)
  filter-insert_all q (x ∷ xs) ys hy =
      filter-insert_all q xs (insert x ys) (IsOrdered-insert x ys hy)
      ∙ ap (λ zs. zs ++ filter (has_priority q) xs) (filter-insert q x ys hy)
      ∙ append_assoc (filter (has_priority q) ys) _ _
      ∙ ap (λ zs. filter (has_priority q) ys ++ zs) (filter_one (has_priority q) x xs)

-- What is registered: a handler under the name of a hook.
abbrev pub Log {ℓ} : Type ℓ → Type ℓ
Log A = List (Text × Hook A)

module _ {ℓ κ} {A : Type ℓ} {F : Type κ} where
  unfoldable pub add_all : Log A → HookBus A F → HookBus A F
  add_all [] b = b
  add_all ((hook, handler) ∷ log) b = add_all log (add_action hook handler b)

module _ {ℓ} {A : Type ℓ} where
  -- The handlers that a log registers under a name, in its order.
  abbrev pub under : Text → Log A → List (Hook A)
  under name [] = []
  under name ((hook, handler) ∷ log) =
      if name == hook then handler ∷ under name log else under name log

  sorted_one :
      (q : ℤ) (h : Hook A) (xs : List (Hook A))
      → IsOrdered (stable_sort (xs ++ h ∷ []))
        × (filter (has_priority q) (stable_sort (xs ++ h ∷ []))
            ≡ filter (has_priority q) xs ++ filter (has_priority q) (h ∷ []))
  unfolding stable_sort
  sorted_one q h xs = (
    IsOrdered-insert_all (xs ++ h ∷ []) [] tt,
    filter-insert_all q (xs ++ h ∷ []) [] tt ∙ filter-append (has_priority q) xs (h ∷ []),
  )

  under_one :
      (q : ℤ) (hook name : Text) (h : Hook A) (log : Log A)
      → filter (has_priority q) (under name ((hook, h) ∷ []))
          ++ filter (has_priority q) (under name log)
        ≡ filter (has_priority q) (under name ((hook, h) ∷ log))
  under_one q hook name h log = elim (Bool-cases (name == hook)) [
    | inl e ↦ rw e (filter_one (has_priority q) h (under name log))
    | inr e ↦ rw e refl
  ]

  register_one :
      (q : ℤ) (hook name : Text) (h : Hook A) (m : Text → List (Hook A))
      → IsOrdered (m name)
      → IsOrdered (register hook h m name)
        × (filter (has_priority q) (register hook h m name)
            ≡ filter (has_priority q) (m name)
              ++ filter (has_priority q) (under name ((hook, h) ∷ [])))
  unfolding register stable_sort
  register_one q hook name h m ordered = elim (Bool-cases (name == hook)) [
    | inl e ↦ rw e (
        subst
          (λ z.
            IsOrdered (stable_sort (m z ++ h ∷ []))
            × (filter (has_priority q) (stable_sort (m z ++ h ∷ []))
                ≡ filter (has_priority q) (m name) ++ filter (has_priority q) (h ∷ [])))
          ((==_iff name hook).0 e) (sorted_one q h (m name)))
    | inr e ↦ rw e (ordered, sym (append-nil _))
  ]

module _ {ℓ κ} {A : Type ℓ} {F : Type κ} where
  add_one :
      (q : ℤ) (hook name : Text) (h : Hook A) (b : HookBus A F)
      → IsOrdered (b.actions name)
      → IsOrdered ((add_action hook h b).actions name)
        × (filter (has_priority q) ((add_action hook h b).actions name)
            ≡ filter (has_priority q) (b.actions name)
              ++ filter (has_priority q) (under name ((hook, h) ∷ [])))
  unfolding add_action
  add_one q hook name h b ordered = register_one q hook name h b.actions ordered

  add_more :
      (q : ℤ) (name : Text) (log : Log A) (b : HookBus A F)
      → IsOrdered (b.actions name)
      → IsOrdered ((add_all log b).actions name)
        × (filter (has_priority q) ((add_all log b).actions name)
            ≡ filter (has_priority q) (b.actions name) ++ filter (has_priority q) (under name log))
  unfolding add_all
  add_more q name [] b ordered = (ordered, sym (append-nil _))
  add_more q name ((hook, h) ∷ log) b ordered =
      let (still, one) = add_one q hook name h b ordered in
      let (sorted, more) = add_more q name log (add_action hook h b) still in
      (
        sorted,
        more
            ∙ ap (λ zs. zs ++ filter (has_priority q) (under name log)) one
            ∙ append_assoc (filter (has_priority q) (b.actions name)) _ _
            ∙ ap (λ zs. filter (has_priority q) (b.actions name) ++ zs)
                (under_one q hook name h log),
      )

module _ {ℓ κ} {A : Type ℓ} (F : Type κ) where
  -- Whatever was registered, the handlers of a hook run in the order of their priorities, and those
  -- of one priority are just the registered ones, in the order of their registration.
  pub actions_in_order :
      (q : ℤ) (name : Text) (log : Log A)
      → IsOrdered ((add_all log (new_hook_bus {A = A} {F = F})).actions name)
        × (filter (has_priority q) ((add_all log (new_hook_bus {A = A} {F = F})).actions name)
            ≡ filter (has_priority q) (under name log))
  unfolding new_hook_bus
  actions_in_order q name log = add_more q name log new_hook_bus tt
