-- ===== src/Audience/Pages.antt =====
-- internal/audience/domain/subscription_page.go and the form of submit_public_subscription.go: the
-- page that a visitor subscribes on, and the values that its form collects.
use nvelope.Audience.Attributes.{
  Result, Attributes, Entries, entry, no_entries, text, validation_failed, new_attributes,
}
use nvelope.Common.Action.{ok, err}
use nvelope.Common.Action
use nvelope.Common.{
  if◌then◌else◌, String, List, [], Bool, ◌∷◌, trim_space, true, is_empty, exists_where, ◌||◌, not,
  text_eq, append_text, length, ◌==◌,
}

pub record FormField : Type 0 where
  pub key : String
  pub label : String
  pub required : Bool

pub record SubscriptionPage : Type 0 where
  pub id : String
  pub slug : String
  pub title : String
  pub target_list_ids : List String
  pub fields : List FormField
  pub sending_domain_id : String
  pub from_name : String
  pub from_local_part : String
  pub active : Bool

-- The two regular expressions of the file and strings.ToLower.
pub record Patterns : Type 0 where
  pub slug_pattern : String → Bool
  pub local_part_pattern : String → Bool
  pub to_lower : String → String

abbrev pub seen_key : List String → String → Bool
seen_key seen key = exists_where (λ k. text_eq k key) seen

-- The loop of validateFields, with the keys seen so far.
unfoldable pub validate_fields_from : List String → List FormField → Result (List FormField)
validate_fields_from seen [] = ok []
validate_fields_from seen (f ∷ fs) =
    let key = trim_space f.key in
    let label = trim_space f.label in
    let rest = validate_fields_from (key ∷ seen) fs in
    if is_empty key || is_empty label
    then err (validation_failed "every form field needs a key and a label")
    else if seen_key seen key
    then err (validation_failed "form field keys must be unique")
    else Action.and_then rest
        λ out. ok ((record { key = key; label = label; required = f.required }) ∷ out)

unfoldable pub validate_fields : List FormField → Result (List FormField)
validate_fields fs = validate_fields_from [] fs

-- The normalised slug, from-name and local part.
unfoldable pub validate_page :
    Patterns
    → String
    → String
    → String
    → String
    → String
    → List String
    → Result (String × String × String)
validate_page p slug title sending_domain_id from_name from_local_part lists =
    let slug' = p.to_lower (trim_space slug) in
    let from_name' = trim_space from_name in
    let local' = trim_space from_local_part in
    if not (p.slug_pattern slug')
    then err (validation_failed "page slug must be lowercase letters, digits, and hyphens")
    else if is_empty (trim_space title)
    then err (validation_failed "page title is required")
    else if length lists == 0
    then err (validation_failed "a subscription page must target at least one list")
    else if is_empty sending_domain_id
    then err (validation_failed "a verified sending domain is required")
    else if is_empty from_name'
    then err (validation_failed "a from-name is required")
    else if not (p.local_part_pattern local')
    then err (validation_failed "the from-address local part is not valid")
    else ok (slug', from_name', local')

-- Reconfigure; NewSubscriptionPage configures a fresh active page so, once it has a tenant.
unfoldable pub reconfigure :
    Patterns
    → String
    → String
    → List String
    → List FormField
    → String
    → String
    → String
    → Bool
    → SubscriptionPage
    → Result SubscriptionPage
reconfigure patterns slug title lists fields sending_domain_id from_name from_local_part active p =
    Action.and_then
      (validate_page patterns slug title sending_domain_id from_name from_local_part lists)
      λ norm. Action.and_then (validate_fields fields) λ norm_fields. ok (record p {
        slug = norm.0;
        title = trim_space title;
        target_list_ids = lists;
        fields = norm_fields;
        sending_domain_id = sending_domain_id;
        from_name = norm.1;
        from_local_part = norm.2;
        active = active;
      })

abbrev blank_page : SubscriptionPage
blank_page = record {
  id = "";
  slug = "";
  title = "";
  target_list_ids = [];
  fields = [];
  sending_domain_id = "";
  from_name = "";
  from_local_part = "";
  active = true;
}

unfoldable pub new_subscription_page :
    Patterns
    → String
    → String
    → String
    → List String
    → List FormField
    → String
    → String
    → String
    → Result SubscriptionPage
unfolding reconfigure
new_subscription_page patterns tenant_id slug title lists fields domain from_name local =
    if is_empty tenant_id
    then err (validation_failed "a tenant is required")
    else reconfigure patterns slug title lists fields domain from_name local true blank_page

-- submitted[f.Key]: the empty text for a missing key.
unfoldable pub submitted_value : List (String × String) → String → String
submitted_value [] key = ""
submitted_value ((k, v) ∷ rest) key = if text_eq k key then v else submitted_value rest key

-- The loop of collectFields; the map `raw` as its entries.
unfoldable pub collect_raw : List FormField → List (String × String) → Result Entries
unfolding submitted_value
collect_raw [] submitted = ok no_entries
collect_raw (f ∷ fs) submitted =
    let v = trim_space (submitted_value submitted f.key) in
    let rest = collect_raw fs submitted in
    if is_empty v
    then (if f.required then err (validation_failed (append_text f.label " is required")) else rest)
    else Action.and_then rest λ es. ok (entry f.key (text v) es)

unfoldable pub collect_fields : List FormField → List (String × String) → Result Attributes
unfolding collect_raw
collect_fields fields submitted = Action.and_then (collect_raw fields submitted) new_attributes
