-- ===== src/Audience/Tests.antt =====
-- Runs of internal/audience on concrete inputs, and the witnesses of its theorems.
use nvelope.Platform.Apperr.{is_slug, new_conflict}
use nvelope.Audience.Subscribers.{
  Pending, Subscriber, enabled, is_expired, new_subscriber, normalize_email,
}
use nvelope.Common.{refl, true, String, ◌∷◌, [], ◌≡◌, All, text_eq, trim_space, append_text}
use nvelope.Common.Action.{ok, ◌>>=◌}
use nvelope.Common.Database.{Db, with_tenant, read, write, take_fresh, time_now}
use nvelope.Audience.Store.{
  Tables, Env, pending_by_hash, for_subscriber, upsert_by_email, set_status, search_one, matches,
  attach, delete_pending, membership_exists,
}
use nvelope.Audience.Memberships.{
  unconfirmed, confirmed, unsubscribed, valid_subscription_status, change_status,
}
use nvelope.Audience.Memberships.Lifecycle.{Changes, change_status-Changes}
use nvelope.Audience.Attributes.{no_entries, get_text}
use nvelope.Audience.Commands.{
  promote, confirm_subscription, public_unsubscribe, leave_each, resolve_id, confirm_all,
  confirm_membership,
}
use nvelope.Audience.Commands.Unsubscribe.{Ended, public_unsubscribe-Ended}
use nvelope.Audience.Commands.Outcomes.{Outcomes}

change_status-Changes_example : Changes confirmed unsubscribed
unfolding valid_subscription_status
change_status-Changes_example =
    change_status-Changes confirmed unsubscribed (record { known = refl }) (record { known = refl })

-- One id, one token, a hash that is the text itself, and one suppressed address.
abbrev env : Env
env = record {
  uuid = λ n. "id";
  token = λ n. ok "secret";
  hash = λ s. s;
  mail = record { lower = λ s. s; is_address = λ s. true };
  suppressed = λ s. ok (text_eq s "spam@x");
}

abbrev subscriber : String → String → Subscriber
subscriber id email = record {
  id = id;
  email = email;
  name = "";
  state = enabled;
  attributes = no_entries;
}

abbrev submission : Pending
submission = record {
  id = "p1";
  page_id = "page";
  email = "b@x";
  attributes = no_entries;
  target_list_ids = "l1" ∷ [];
  token_hash = "secret";
  expires_at = 100;
}

-- b@x subscribed long ago; bob@x and then ab@x came later.
abbrev tables : Tables
tables = record {
  lists = "l1" ∷ [];
  subscribers = subscriber "s3" "ab@x" ∷ subscriber "s2" "bob@x" ∷ subscriber "s1" "b@x" ∷ [];
  memberships =
      (record { subscriber_id = "s2"; list_id = "l1"; status = confirmed })
      ∷ (record { subscriber_id = "s1"; list_id = "l1"; status = unconfirmed })
      ∷ [];
  pending = submission ∷ [];
  pages = [];
  jobs = [];
}

abbrev start : Db Tables
start = record { tables = tables; faults = []; fresh = 0; now = 50 }

-- The confirmation of b@x confirms ab@x, whose address contains it and who never asked for it.
wrong_person :
    (confirm_subscription env "t1" "secret" start).1.tables.memberships
    ≡ (record { subscriber_id = "s2"; list_id = "l1"; status = confirmed })
      ∷ (record { subscriber_id = "s1"; list_id = "l1"; status = unconfirmed })
      ∷ (record { subscriber_id = "s3"; list_id = "l1"; status = confirmed })
      ∷ []
unfolding confirm_subscription promote pending_by_hash upsert_by_email resolve_id search_one matches
    confirm_all confirm_membership attach set_status change_status delete_pending new_subscriber
    normalize_email is_expired get_text with_tenant read write take_fresh time_now trim_space
    append_text membership_exists is_slug new_conflict ◌>>=◌
wrong_person = refl

left_all : (public_unsubscribe "s2" "" start).0 ≡ ok tt
unfolding public_unsubscribe for_subscriber leave_each set_status change_status with_tenant read
    write ◌>>=◌
left_all = refl

public_unsubscribe-Ended_example :
    All (Ended "s2") (public_unsubscribe "s2" "" start).1.tables.memberships
public_unsubscribe-Ended_example = public_unsubscribe-Ended "s2" start left_all
