-- ===== src/Operations/Log.antt =====
-- The log of events: the newest ones, up to the limit.
use app_gocms.Prelude.{
  ℕ, zero, suc, ◌+◌, ◌-◌, ◌≤◌, ◌≡◌, refl, sym, ap, ◌∙◌, ℤ, List, [], ◌∷◌, ◌++◌, arith, length, drop,
  ltb, length-append, length-drop, drop_all, append_assoc, append-nil, Bool-cases, inl, inr,
}
use app_gocms.Domain.{Time}
use app_gocms.Operations.{AuditEvent, Store, append_bounded, new_store, record_audit, stamped}

module _ {A : Type 0} where
  -- The last elements, as many as the limit allows.
  abbrev pub newest : ℕ → List A → List A
  newest limit xs = drop (length xs - limit) xs

  drop-append : (n : ℕ) (xs ys : List A) → n ≤ length xs → drop n (xs ++ ys) ≡ drop n xs ++ ys
  drop-append zero xs ys h = refl
  drop-append (suc n) [] ys h = absurd (omega arith)
  drop-append (suc n) (x ∷ xs) ys h = drop-append n xs ys (omega arith)

  drop-drop : (m n : ℕ) (xs : List A) → drop m (drop n xs) ≡ drop (n + m) xs
  drop-drop m zero xs = ap (λ k. drop k xs) (omega arith)
  drop-drop zero (suc n) [] = sym (drop_all (suc n + 0) [] (omega arith))
  drop-drop (suc m) (suc n) [] = sym (drop_all (suc n + suc m) [] (omega arith))
  drop-drop m (suc n) (x ∷ xs) =
      let same : suc (n + m) ≡ suc n + m = omega arith in
      drop-drop m n xs ∙ ap (λ k. drop k (x ∷ xs)) same

  bounded :
      (limit : ℕ) (xs : List A) (x : A) → append_bounded xs x limit ≡ newest limit (xs ++ x ∷ [])
  unfolding append_bounded
  bounded limit xs x = elim (Bool-cases (ltb limit (length (xs ++ x ∷ [])))) [
    | inl e ↦ rw e refl
    | inr e ↦
        let none_over : 0 ≡ length (xs ++ x ∷ []) - limit = ground (arith, e) in
        rw e (ap (λ k. drop k (xs ++ x ∷ [])) none_over)
  ]

  append_bounded-newest :
      (limit : ℕ) (xs : List A) (x : A)
      → append_bounded (newest limit xs) x limit ≡ newest limit (xs ++ x ∷ [])
  append_bounded-newest limit xs x =
      let n = length xs - limit in
      bounded limit (newest limit xs) x
      ∙ ap (newest limit) (sym (drop-append n xs (x ∷ []) (omega arith)))
      ∙ drop-drop (length (drop n (xs ++ x ∷ [])) - limit) n (xs ++ x ∷ [])
      ∙ ap (λ k. drop k (xs ++ x ∷ []))
          (omega (arith, length-drop n (xs ++ x ∷ []), length-append xs (x ∷ [])))

module _ {V : Type 0} where
  -- A run of events, each with the instant of its record.
  unfoldable pub record_all : List (Time × AuditEvent V) → Store V → Store V
  record_all [] s = s
  record_all ((now, event) ∷ events) s = record_all events (record_audit now event s)

  abbrev pub recorded : List (Time × AuditEvent V) → List (AuditEvent V)
  recorded [] = []
  recorded ((now, event) ∷ events) = stamped now event ∷ recorded events

  record_more :
      (events : List (Time × AuditEvent V)) (before : List (AuditEvent V)) (s : Store V)
      → s.audit ≡ newest s.limit before
      → (record_all events s).audit ≡ newest s.limit (before ++ recorded events)
  unfolding record_all record_audit
  record_more [] before s h = h ∙ ap (newest s.limit) (sym (append-nil before))
  record_more ((now, event) ∷ events) before s h =
      record_more events (before ++ stamped now event ∷ []) (record_audit now event s) (
        ap (λ xs. append_bounded xs (stamped now event) s.limit) h
        ∙ append_bounded-newest s.limit before (stamped now event))
      ∙ ap (newest s.limit) (append_assoc before (stamped now event ∷ []) (recorded events))

  -- Whatever is recorded, the log holds the newest of the recorded events, as many as the limit of
  -- the store allows, in their order, each with its details redacted.
  pub audit_newest :
      (limit : ℤ) (events : List (Time × AuditEvent V))
      → (record_all events (new_store limit)).audit
        ≡ newest (new_store {V = V} limit).limit (recorded events)
  unfolding new_store
  audit_newest limit events =
      record_more events [] (new_store limit)
        (sym (drop_all (0 - (new_store {V = V} limit).limit) [] (omega arith)))
