-- ===== src/Platform/Responses.antt =====
-- internal/api/errmap.go: a domain error becomes an HTTP response.
use nvelope.Common.{
  ℕ, ◌≤◌, ◌≡◌, inl, inr, String, Option, none, some, text_eq, arith, if◌then◌else◌, Option-cases,
}
use nvelope.Common.{refl}
use nvelope.Platform.Apperr.{
  Category, Failure, Typed, unknown, incorrect_input, conflict, not_found, authorization, forbidden,
  as_typed,
}

pub record Response : Type 0 where
  pub status : ℕ
  pub body_slug : String
  pub body_message : String

unfoldable pub status_for_category : Category → ℕ
status_for_category incorrect_input = 422
status_for_category conflict = 409
status_for_category not_found = 404
status_for_category authorization = 401
status_for_category forbidden = 403
status_for_category unknown = 500

-- statusForSlug, the map.
unfoldable pub status_for_slug : String → Option ℕ
status_for_slug slug =
    if text_eq slug "provisioning-failed"
    then some 502
    else if text_eq slug "payment_failed"
    then some 402
    else if text_eq slug "verification_resend_throttled"
    then some 429
    else none

pub internal_error : Response
internal_error = record {
  status = 500;
  body_slug = "internal_error";
  body_message = "something went wrong";
}

by_category : Typed → Response
unfolding status_for_category internal_error
by_category e = elim e.category [
  | unknown ↦ internal_error
  | c ↦ record { status = status_for_category c; body_slug = e.slug; body_message = e.message }
]

by_slug : Option ℕ → Typed → Response
unfolding by_category
by_slug (some s) e = record { status = s; body_slug = e.slug; body_message = e.message }
by_slug none e = by_category e

respond_typed : Option Typed → Response
unfolding by_slug status_for_slug
respond_typed none = internal_error
respond_typed (some e) = by_slug (status_for_slug e.slug) e

-- Server.fail, less the log line.
unfoldable pub fail : Failure → Response
unfolding as_typed respond_typed
fail e = respond_typed (as_typed e)

-- The response is the generic one, or it shows the slug and message of this typed error alone.
pub data Shows (r : Response) (o : Option Typed) : Type 0 where
  generic : r ≡ internal_error → Shows r o
  shown :
      (e : Typed)
      → o ≡ some e
      → r.body_slug ≡ e.slug
      → r.body_message ≡ e.message
      → 401 ≤ r.status
      → r.status ≤ 502
      → Shows r o

by_category-Shows :
    (s m : String) (c : Category)
    → let e : Typed = record { slug = s; category = c; message = m } in
      Shows (by_category e) (some e)
unfolding by_category
by_category-Shows s m unknown = generic refl
by_category-Shows s m _ = shown _ refl refl refl (omega arith) (omega arith)

-- A status of the table of slugs.
status_for_slug_bounds :
    (slug : String) (s : ℕ) → status_for_slug slug ≡ some s → (401 ≤ s) × (s ≤ 502)
unfolding status_for_slug
status_for_slug_bounds slug s h = ground arith

respond_typed-Shows : (o : Option Typed) → Shows (respond_typed o) o
unfolding respond_typed by_slug
respond_typed-Shows none = generic refl
respond_typed-Shows (some e) = elim (Option-cases (status_for_slug e.slug)) [
  | inl h ↦ rw h (by_category-Shows e.slug e.message e.category)
  | inr (s, h) ↦
      let bounds = status_for_slug_bounds e.slug s h in
      rw h (shown e refl refl refl bounds.0 bounds.1)
]

-- Whatever the error, the response is the generic internal error, or it shows the slug and the
-- message of the first typed error of the chain, with a status from 401 to 502: the text of an
-- untyped error and of a wrapped cause reaches no response.
pub fail-Shows : (e : Failure) → Shows (fail e) (as_typed e)
unfolding fail
fail-Shows e = respond_typed-Shows (as_typed e)
