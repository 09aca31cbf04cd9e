-- ===== src/Platform/Apperr.antt =====
-- internal/platform/apperr/apperr.go: typed application errors, and Go's chains of wrapped errors
-- around them as far as errors.As and errors.Is read them.
use nvelope.Common.{
  String, Option, none, some, Bool, false, ◌||◌, text_eq, is_empty, append_text, if◌then◌else◌,
}

pub data Category : Type 0 where
  unknown incorrect_input conflict not_found authorization forbidden : Category

-- A value of Go's `error`: a typed error without and with a cause (New and Wrap), a plain text
-- (errors.New), and fmt.Errorf("text: %w", inner).
pub data Failure : Type 0 where
  typed : Category → String → String → Failure
  wrap : Failure → Category → String → String → Failure
  plain : String → Failure
  annotate : String → Failure → Failure

-- What a response reads of a typed error.
pub record Typed : Type 0 where
  pub slug : String
  pub category : Category
  pub message : String

unfoldable pub new_incorrect_input : String → String → Failure
new_incorrect_input = typed incorrect_input

unfoldable pub new_conflict : String → String → Failure
new_conflict = typed conflict

unfoldable pub new_not_found : String → String → Failure
new_not_found = typed not_found

unfoldable pub new_authorization : String → String → Failure
new_authorization = typed authorization

unfoldable pub new_forbidden : String → String → Failure
new_forbidden = typed forbidden

unfoldable pub category_text : Category → String
category_text incorrect_input = "incorrect-input"
category_text conflict = "conflict"
category_text not_found = "not-found"
category_text authorization = "authorization"
category_text forbidden = "forbidden"
category_text unknown = "unknown"

-- Error() of the four kinds.
unfoldable pub error_text : Failure → String
error_text (typed c slug message) = if is_empty message then slug else message
error_text (wrap cause c slug message) = append_text slug (append_text ": " (error_text cause))
error_text (plain text) = text
error_text (annotate text inner) = append_text text (append_text ": " (error_text inner))

-- errors.As into *Error: the first typed error of the chain.
unfoldable pub as_typed : Failure → Option Typed
as_typed (typed c s m) = some (record { slug = s; category = c; message = m })
as_typed (wrap cause c s m) = some (record { slug = s; category = c; message = m })
as_typed (plain text) = none
as_typed (annotate text inner) = as_typed inner

-- errors.Is against a sentinel with this slug: Error.Is at every typed error of the chain.
unfoldable pub is_slug : String → Failure → Bool
is_slug slug (typed c s m) = text_eq s slug
is_slug slug (wrap cause c s m) = text_eq s slug || is_slug slug cause
is_slug slug (plain text) = false
is_slug slug (annotate text inner) = is_slug slug inner

-- WithMessage: a typed error keeps its slug, category and cause.
unfoldable pub with_message : String → Failure → Failure
with_message m (typed c s m') = typed c s m
with_message m (wrap cause c s m') = wrap cause c s m
with_message m e = e
