-- ===== src/Deliverability/Tests.antt =====
-- Runs of internal/deliverability on concrete inputs, and the witnesses of its theorems.
use nvelope.Common.Action.{◌>>=◌, ok}
use nvelope.Common.Database.{with_tenant, Db, read, write, take_fresh}
use nvelope.Deliverability.Events.{
  complaint, new_manual_suppression, pending, suppression_reason, new_suppression_entry, called_for,
  new_delivery_event,
}
use nvelope.Common.{true, List, Bool, false, [], ◌∷◌, refl, exists_where, ◌≡◌, text_eq, trim_space}
use nvelope.Deliverability.Store.{
  Tables, Env, load_inbound, tenant_for_message, attribute, record_event, mark_inbound,
  get_settings, upsert_suppression, remove_entry, record_audit, suppressed_among,
}
use nvelope.Deliverability.Commands.{
  process_feedback, process_loaded, process_owned, record_attributed, finish_event, apply,
  apply_reason, suppress, add_suppression, remove_suppression,
}
use nvelope.Deliverability.Commands.Processing.{Processed, process_feedback-Processed}
use nvelope.Deliverability.Commands.Again.{process_feedback-again}
use nvelope.Deliverability.Commands.Listing.{
  Reports, add_suppression-Reports, remove_suppression-Reports,
}

-- Addresses in lower case, all of them valid.
abbrev env : Env
env = record { uuid = λ n. "new"; mail = record { lower = λ s. s; is_address = λ s. true } }

-- A staged complaint about a message to a@x, sent by a campaign of the workspace t1.
abbrev staged : Tables
staged = record {
  inbound =
      (record {
        id = "n1";
        dedupe_key = "k";
        kind = complaint;
        provider_message_id = "m1";
        recipient_email = "a@x";
        status = pending;
      })
      ∷ [];
  recipients =
      (record { id = "r1"; campaign_id = "c1"; tenant_id = "t1"; provider_message_id = "m1" }) ∷ [];
  transactional = [];
  events = [];
  suppressions = [];
  settings = [];
  jobs = [];
  audit = [];
}

abbrev running : List Bool → Tables → Db Tables
running faults t = record { tables = t; faults = faults; fresh = 0; now = 0 }

complaint_suppresses :
    exists_where
      (λ s. text_eq s.email "a@x")
      (process_feedback env "n1" (running [] staged)).1.tables.suppressions
    ≡ true
unfolding trim_space process_feedback process_loaded process_owned record_attributed finish_event
    apply apply_reason suppress load_inbound tenant_for_message attribute record_event mark_inbound
    get_settings upsert_suppression with_tenant read write take_fresh ◌>>=◌ suppression_reason
    called_for new_delivery_event new_suppression_entry
complaint_suppresses = refl

-- The fifth transaction fails: the event is recorded and the suppression is not applied.
abbrev stopped : Db Tables
stopped = (process_feedback env "n1" (running (false ∷ false ∷ false ∷ false ∷ true ∷ []) staged)).1

-- The job that runs again succeeds, and the address stays mailable.
complaint_lost :
    ((process_feedback env "n1" stopped).0 ≡ ok tt)
    × ((process_feedback env "n1" stopped).1.tables.suppressions ≡ [])
unfolding trim_space process_feedback process_loaded process_owned record_attributed finish_event
    apply apply_reason suppress load_inbound tenant_for_message attribute record_event mark_inbound
    get_settings upsert_suppression with_tenant read write take_fresh ◌>>=◌ suppression_reason
    called_for new_delivery_event new_suppression_entry
complaint_lost = (refl, refl)

process_feedback-Processed_example :
    Processed env "n1" staged (process_feedback env "n1" (running [] staged)).1.tables
unfolding trim_space process_feedback process_loaded process_owned record_attributed finish_event
    apply apply_reason suppress load_inbound tenant_for_message attribute record_event mark_inbound
    get_settings upsert_suppression with_tenant read write take_fresh ◌>>=◌ suppression_reason
    called_for new_delivery_event new_suppression_entry
process_feedback-Processed_example = process_feedback-Processed env "n1" (running [] staged) refl

process_feedback-again_example :
    ((process_feedback env "n1" stopped).1.tables.events ≡ stopped.tables.events)
    × ((process_feedback env "n1" stopped).1.tables.suppressions ≡ stopped.tables.suppressions)
unfolding trim_space process_feedback process_loaded process_owned record_attributed finish_event
    apply apply_reason suppress load_inbound tenant_for_message attribute record_event mark_inbound
    get_settings upsert_suppression with_tenant read write take_fresh ◌>>=◌ suppression_reason
    called_for new_delivery_event new_suppression_entry
process_feedback-again_example = process_feedback-again env "n1" stopped refl

abbrev added : Db Tables
added = (add_suppression env "t1" "b@x" "asked by phone" (running [] staged)).1

add_suppression-Reports_example : Reports env "t1" "b@x" true added
unfolding trim_space add_suppression remove_suppression upsert_suppression remove_entry record_audit
    suppressed_among new_manual_suppression with_tenant read write ◌>>=◌ new_suppression_entry
add_suppression-Reports_example =
    add_suppression-Reports env "t1" "b@x" "asked by phone" (running [] staged) added refl refl refl

abbrev removed : Db Tables
removed = (remove_suppression env "t1" "b@x" added).1

remove_suppression-Reports_example : Reports env "t1" "b@x" false removed
unfolding trim_space add_suppression remove_suppression upsert_suppression remove_entry record_audit
    suppressed_among new_manual_suppression with_tenant read write ◌>>=◌ new_suppression_entry
remove_suppression-Reports_example =
    remove_suppression-Reports env "t1" "b@x" added removed refl refl refl
