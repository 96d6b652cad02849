-- ===== src/Core/LogLines/Fields.antt =====
-- What the JSON line of a record is made of: ContextFilter and JsonFormatter of core/logging.py.
use tradinghub.Base.{
  String, true, false, not, Option, none, some, or_else, List, [], ◌∷◌, any, keep, All, same_text,
  eq_iff, ◌≡◌, refl, ap, ◌∙◌, arith, inl, inr, Bool-cases,
}
use tradinghub.Core.Middleware.{Context}
use tradinghub.Core.Logging.{
  put, get, update_dict, standard_fields, LogRecord, is_extra, filter, payload, with_exception,
}

same_text_refl : (t : String) → same_text t t ≡ true
same_text_refl t = ground (arith, eq_iff t t)

put-get {ℓ} :
    {A : Type ℓ} (k : String) (v : A) (es : List (String × A)) → get k (put k v es) ≡ some v
put-get k v [] = rw (same_text_refl k) refl
put-get k v (e ∷ es) = elim (Bool-cases (same_text e.0 k)) [
  | inl here ↦ rw (here, same_text_refl k) refl
  | inr there ↦ rw (there, there) (put-get k v es)
]

put-get_other {ℓ} :
    {A : Type ℓ} (k j : String) (v : A) (es : List (String × A))
    → same_text j k ≡ false
    → get k (put j v es) ≡ get k es
put-get_other k j v [] ne = rw ne refl
put-get_other k j v (e ∷ es) ne = elim (Bool-cases (same_text e.0 j)) [
  | inl here ↦
      let apart : same_text e.0 k ≡ false = ap (λ t. same_text t k) ((eq_iff e.0 j).0 here) ∙ ne in
      rw (here, ne, apart) refl
  | inr there ↦ rw there (elim (Bool-cases (same_text e.0 k)) [
    | inl found ↦ rw found refl
    | inr missed ↦ rw missed (put-get_other k j v es ne)
  ])
]

-- An update by entries that do not have a key keeps the value of that key.
update_dict-get :
    (k : String) (xs es : List (String × String))
    → All (λ x. same_text x.0 k ≡ false) xs
    → get k (update_dict xs es) ≡ get k es
update_dict-get k [] es h = refl
update_dict-get k (x ∷ xs) es h =
    update_dict-get k xs (put x.0 x.1 es) h.1 ∙ put-get_other k x.0 x.1 es h.0

-- A key that is a standard field is none of an extra.
extras_without :
    (k : String) (es : List (String × String))
    → ((x : String × String) → is_extra x ≡ true → same_text x.0 k ≡ false)
    → All (λ x. same_text x.0 k ≡ false) (keep is_extra es)
extras_without k [] h = tt
extras_without k (x ∷ xs) h = elim (Bool-cases (is_extra x)) [
  | inl extra ↦ rw extra (h x extra, extras_without k xs h)
  | inr standard ↦ rw standard (extras_without k xs h)
]

with_exception-get :
    (k : String) (o : Option String) (es : List (String × String))
    → same_text "exception" k ≡ false
    → get k (with_exception o es) ≡ get k es
with_exception-get k none es ne = refl
with_exception-get k (some t) es ne = put-get_other k "exception" t es ne

with_exception-exception :
    (o : Option String) (text : String) (es : List (String × String))
    → o ≡ some text
    → get "exception" (with_exception o es) ≡ some text
with_exception-exception none text es e = cc
with_exception-exception (some t) text es e = put-get "exception" t es ∙ e

-- An extra has no standard field for its key.
extra-standard :
    (k : String)
    → any (λ field. same_text field k) standard_fields ≡ true
    → (x : String × String) → is_extra x ≡ true
    → same_text x.0 k ≡ false
extra-standard k standard x extra = elim (Bool-cases (same_text x.0 k)) [
  | inl same ↦
      let is_k : x.0 ≡ k = (eq_iff x.0 k).0 same in
      let no : is_extra x ≡ false =
        ap (λ t. not (any (λ field. same_text field t) standard_fields)) is_k ∙ ap not standard in
      absurd (cc)
  | inr other ↦ other
]

module _ (context : Context) (r : LogRecord) where
  abbrev with_request : List (String × String)
  with_request = put "request_id" context.request_id r.attributes

  -- A standard field keeps the value that the payload began with.
  kept_field :
      (k : String) (es : List (String × String))
      → same_text "exception" k ≡ false
      → ((x : String × String) → is_extra x ≡ true → same_text x.0 k ≡ false)
      → get k (
          with_exception r.exception
            (update_dict (keep is_extra (put "user_id" context.user_id with_request)) es))
        ≡ get k es
  kept_field k es ne no_extra =
      let extras = put "user_id" context.user_id with_request in
      with_exception-get k r.exception (update_dict (keep is_extra extras) es) ne
      ∙ update_dict-get k (keep is_extra extras) es (extras_without k extras no_extra)

  -- Whatever attributes a record brings, the JSON line of a record that the filter has seen names the
  -- request and the user of the context in which it was logged, and has the exception if there is one.
  pub payload-filter :
      (get "request_id" (payload (filter context r)) ≡ some context.request_id)
      × (get "user_id" (payload (filter context r)) ≡ some context.user_id)
      × ((text : String)
          → r.exception ≡ some text
          → get "exception" (payload (filter context r)) ≡ some text)
  unfolding payload filter
  payload-filter = (
    kept_field "request_id" _ refl (extra-standard "request_id" refl)
        ∙ ap (λ o. some (or_else o "-"))
            (put-get_other "request_id" "user_id" context.user_id with_request refl
              ∙ put-get "request_id" context.request_id r.attributes),
    kept_field "user_id" _ refl (extra-standard "user_id" refl)
        ∙ ap (λ o. some (or_else o "-")) (put-get "user_id" context.user_id with_request),
    λ text. with_exception-exception r.exception text _,
  )
