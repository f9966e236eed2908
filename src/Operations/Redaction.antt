-- ===== src/Operations/Redaction.antt =====
-- What the log keeps of the details of an event: nothing that stands under a sensitive key.
use app_gocms.Prelude.{
  ◌≡◌, refl, sym, ap, ◌⊎◌, inl, inr, true, List, [], ◌∷◌, some, if◌then◌else◌, ◌∙◌,
}
use app_gocms.Text.{Text, codes}
use app_gocms.Domain.{Time}
use app_gocms.Operations.{
  Detail, text, AuditEvent, Store, is_sensitive, redact, redact_each, record_audit,
}

module _ {V : Type 0} where
  -- The same keys, with the same values but for those under a sensitive key.
  abbrev pub Agree : List (Text × Detail V) → List (Text × Detail V) → Type 0
  Agree [] [] = Unit
  Agree [] (e ∷ es) = ⊥
  Agree (d ∷ ds) [] = ⊥
  Agree ((key, value) ∷ ds) ((same_key, other_value) ∷ es) =
      (key ≡ same_key) × ((is_sensitive key ≡ true) ⊎ (value ≡ other_value)) × Agree ds es

  kept :
      (key : Text) (value other_value : Detail V)
      → (is_sensitive key ≡ true) ⊎ (value ≡ other_value)
      → (if is_sensitive key then text (codes "[redacted]") else value)
        ≡ (if is_sensitive key then text (codes "[redacted]") else other_value)
  kept key value other_value (inl secret) = rw secret refl
  kept key value other_value (inr same) = rw same refl

  redact_each-Agree :
      (ds es : List (Text × Detail V)) → Agree ds es → redact_each ds ≡ redact_each es
  unfolding redact_each
  redact_each-Agree [] [] h = refl
  redact_each-Agree [] (e ∷ es) h = absurd h
  redact_each-Agree (d ∷ ds) [] h = absurd h
  redact_each-Agree ((key, value) ∷ ds) ((same_key, other_value) ∷ es) (keys, values, h) =
      rw (sym keys) (
        ap (λ v. (key, v) ∷ redact_each ds) (kept key value other_value values)
        ∙ ap
            (λ rest.
              (key, if is_sensitive key then text (codes "[redacted]") else other_value) ∷ rest)
            (redact_each-Agree ds es h))

  abbrev pub with_details : List (Text × Detail V) → AuditEvent V → AuditEvent V
  with_details ds event = record event { details = some ds }

  -- What stands under a sensitive key of the details leaves no trace in the store: two events that
  -- differ only there leave the same one.
  pub record_audit-Agree :
      (now : Time) (event : AuditEvent V) (s : Store V) (ds es : List (Text × Detail V))
      → Agree ds es
      → record_audit now (with_details ds event) s ≡ record_audit now (with_details es event) s
  unfolding record_audit redact
  record_audit-Agree now event s ds es h = rw (redact_each-Agree ds es h) refl
