-- ===== src/Platform/Tests.antt =====
-- Runs of internal/api/errmap.go on concrete errors, and the witnesses of its theorems.
use nvelope.Common.{◌≡◌}
use nvelope.Common.{refl}
use nvelope.Platform.Apperr.{Failure, typed, plain, wrap, annotate, conflict, unknown, as_typed}
use nvelope.Platform.Responses.{fail, Shows, fail-Shows}

abbrev taken : Failure
taken = typed conflict "slug_taken" "that workspace address is already in use"

-- A conflict below an annotation is a 409.
annotated_conflict : (fail (annotate "signing up" taken)).status ≡ 409
unfolding fail
annotated_conflict = refl

-- A declined payment has its own status although its category is not that specific.
declined : (fail (typed unknown "payment_failed" "declined")).status ≡ 402
unfolding fail
declined = refl

-- The cause of an unknown failure stays out of the response.
hidden_cause :
    (fail (wrap (plain "connection reset") unknown "db" "lost")).body_message
    ≡ "something went wrong"
unfolding fail
hidden_cause = refl

fail-Shows_example :
    Shows (fail (annotate "signing up" taken)) (as_typed (annotate "signing up" taken))
fail-Shows_example = fail-Shows (annotate "signing up" taken)
