-- ===== src/Audience/Segments.antt =====
-- internal/audience/domain/segment.go and internal/audience/adapters/segment_sql.go: queries of
-- subscribers and their translation to a condition of SQL with bound arguments. A value that is not a
-- text is bound as fmt prints it, which is a parameter.
pub mod Shape
pub mod Operands
mod Tests
use nvelope.Common.{
  String, Bool, ℕ, if◌then◌else◌, Option, text_eq, false, true, not, suc, ◌+◌, List, [], ◌||◌, some,
  ◌/◌, append_text, ◌∷◌, is_empty, none, ◌&&◌, ltb, length, ◌%◌, ◌++◌, zero,
}
use nvelope.Platform.Apperr.{Failure, new_incorrect_input}
use nvelope.Common.Action.{ok, err, and_then, Action, lift}
use nvelope.Audience.Attributes.{Result, Value}

-- The empty conjunction is that of a condition; every other text is unknown.
pub data Conjunction : Type 0 where
  no_conjunction conj_and conj_or unknown_conjunction : Conjunction

pub data SegmentOp : Type 0 where
  op_eq op_neq op_exists op_contains op_gt op_lt op_gte op_lte unknown_op : SegmentOp

pub record FieldCondition : Type 0 where
  pub field : String
  pub op : SegmentOp
  pub value : String

pub record AttrCondition : Type 0 where
  pub key : String
  pub op : SegmentOp
  pub value : Value

pub record MemberCondition : Type 0 where
  pub list_id : String
  pub status : String

mutual
  pub data Node : Type 0 where
    node :
        Conjunction
        → Nodes
        → Option FieldCondition
        → Option AttrCondition
        → Option MemberCondition
        → Node

  pub data Nodes : Type 0 where
    no_nodes : Nodes
    child : Node → Nodes → Nodes

unfoldable pub invalid_segment : String → Failure
invalid_segment m = new_incorrect_input "invalid_segment" m

abbrev pub segment_field : String → Bool
segment_field f = text_eq f "email" || (text_eq f "name" || text_eq f "state")

abbrev pub known_op : SegmentOp → Bool
known_op unknown_op = false
known_op _ = true

abbrev pub comparison_op : SegmentOp → Bool
comparison_op op_gt = true
comparison_op op_lt = true
comparison_op op_gte = true
comparison_op op_lte = true
comparison_op _ = false

abbrev pub known_status : String → Bool
known_status s = text_eq s "unconfirmed" || (text_eq s "confirmed" || text_eq s "unsubscribed")

abbrev pub is_group : Conjunction → Nodes → Bool
is_group no_conjunction no_nodes = false
is_group _ _ = true

abbrev pub group_conjunction : Conjunction → Bool
group_conjunction conj_and = true
group_conjunction conj_or = true
group_conjunction _ = false

abbrev pub no_children : Nodes → Bool
no_children no_nodes = true
no_children (child n ns) = false

-- Each check of a condition returns the number of leaves that it stands for.
unfoldable pub check_field : Option FieldCondition → Result ℕ
check_field none = ok 0
check_field (some c) =
    if not (segment_field c.field)
    then err (invalid_segment (append_text "unknown field: " c.field))
    else if not (known_op c.op)
    then err (invalid_segment "unknown operator")
    else if comparison_op c.op
    then err (invalid_segment "comparison operators are not valid for text fields")
    else ok 1

unfoldable pub check_attr : Option AttrCondition → Result ℕ
check_attr none = ok 0
check_attr (some c) =
    if is_empty c.key
    then err (invalid_segment "an attribute key is required")
    else if not (known_op c.op)
    then err (invalid_segment "unknown operator")
    else ok 1

unfoldable pub check_member : Option MemberCondition → Result ℕ
check_member none = ok 0
check_member (some c) =
    if is_empty c.list_id
    then err (invalid_segment "a membership condition needs a list")
    else if not (is_empty c.status) && not (known_status c.status)
    then err (invalid_segment "unknown subscription status")
    else ok 1

unfoldable pub check_leaves : ℕ → Result (Unit {0})
check_leaves (suc zero) = ok tt
check_leaves n =
    err (invalid_segment "a condition must be exactly one of field, attribute, or membership")

unfoldable mutual
  pub validate_node : Node → Result (Unit {0})
  validate_node (node conj children f a m) =
      let below = validate_nodes children in
      if is_group conj children
      then (if not (group_conjunction conj)
          then err (invalid_segment "a group needs a valid conjunction")
          else if no_children children
          then err (invalid_segment "a group needs at least one child")
          else below)
      else and_then (check_field f)
          λ i. and_then (check_attr a) λ j. and_then (check_member m) λ k. check_leaves (i + j + k)

  pub validate_nodes : Nodes → Result (Unit {0})
  validate_nodes no_nodes = ok tt
  validate_nodes (child n ns) =
      let rest = validate_nodes ns in and_then (validate_node n) λ checked. rest

abbrev text_at : List String → ℕ → String
text_at [] n = ""
text_at (s ∷ ss) zero = s
text_at (s ∷ ss) (suc n) = text_at ss n

abbrev pub digit : ℕ → String
digit n = text_at ("0" ∷ "1" ∷ "2" ∷ "3" ∷ "4" ∷ "5" ∷ "6" ∷ "7" ∷ "8" ∷ "9" ∷ []) n

-- The decimal numeral of a number below the fuel.
unfoldable pub decimal_from : ℕ → ℕ → String
decimal_from zero n = ""
decimal_from (suc fuel) n =
    let front = decimal_from fuel (n / 10) in
    if ltb n 10 then digit n else append_text front (digit (n % 10))

abbrev pub decimal : ℕ → String
decimal n = decimal_from (n + 1) n

-- A text with the arguments that are bound so far.
abbrev pub Clause : Type 0
Clause = String × List String

unfoldable pub placeholder : String → List String → Clause
placeholder v args = (append_text "$" (decimal (length args + 1)), args ++ v ∷ [])

abbrev pub concat_texts : List String → String
concat_texts [] = ""
concat_texts (s ∷ ss) = append_text s (concat_texts ss)

unfoldable pub join : String → List String → String
join sep [] = ""
join sep (s ∷ []) = s
join sep (s ∷ t ∷ ss) = append_text s (append_text sep (join sep (t ∷ ss)))

-- A text around one bound argument.
abbrev pub around : (String → String) → Clause → Clause
around f (p, args) = (f p, args)

unfoldable pub field_clause : FieldCondition → List String → Clause
field_clause c args =
    let col = append_text "s." c.field in
    elim c.op [
      | op_eq ↦ around (λ p. concat_texts (col ∷ " = " ∷ p ∷ [])) (placeholder c.value args)
      | op_neq ↦ around (λ p. concat_texts (col ∷ " <> " ∷ p ∷ [])) (placeholder c.value args)
      | op_contains ↦
          around (λ p. concat_texts (col ∷ "::text ILIKE '%' || " ∷ p ∷ " || '%'" ∷ []))
            (placeholder c.value args)
      | op_exists ↦ (append_text col "::text <> ''", args)
      | _ ↦ ("true", args)
    ]

abbrev pub sql_comparison : SegmentOp → String
sql_comparison op_gt = ">"
sql_comparison op_lt = "<"
sql_comparison op_gte = ">="
sql_comparison op_lte = "<="
sql_comparison _ = "="

unfoldable pub member_clause : MemberCondition → List String → Clause
member_clause c args =
    let (l, listed) = placeholder c.list_id args in
    let cond = append_text "sl.subscriber_id = s.id AND sl.list_id = " l in
    let exists = λ (inner : String).
      concat_texts ("EXISTS (SELECT 1 FROM subscriber_lists sl WHERE " ∷ inner ∷ ")" ∷ []) in
    if is_empty c.status
    then (exists cond, listed)
    else around (λ p. exists (concat_texts (cond ∷ " AND sl.subscription_status = " ∷ p ∷ [])))
        (placeholder c.status listed)

abbrev pub separator : Conjunction → String
separator conj_or = " OR "
separator _ = " AND "

module _ (print : Value → String) where
  unfoldable pub attr_clause : AttrCondition → List String → Clause
  attr_clause c args =
      let (k, keyed) = placeholder c.key args in
      let valued = placeholder (print c.value) keyed in
      let numeric =
        around
          (λ p. concat_texts (
            "(s.attributes->>"
            ∷ k
            ∷ ")::numeric "
            ∷ sql_comparison c.op
            ∷ " ("
            ∷ p
            ∷ ")::numeric"
            ∷ []))
          valued in
      elim c.op [
        | op_exists ↦ (append_text "s.attributes ? " k, keyed)
        | op_eq ↦ around (λ p. concat_texts ("s.attributes->>" ∷ k ∷ " = " ∷ p ∷ [])) valued
        | op_neq ↦ around (λ p. concat_texts ("s.attributes->>" ∷ k ∷ " <> " ∷ p ∷ [])) valued
        | op_contains ↦
            around
              (λ p. concat_texts ("s.attributes->>" ∷ k ∷ " ILIKE '%' || " ∷ p ∷ " || '%'" ∷ []))
              valued
        | unknown_op ↦ ("true", keyed)
        | _ ↦ numeric
      ]

  unfoldable pub leaf_clause :
      Option FieldCondition → Option AttrCondition → Option MemberCondition → List String → Clause
  leaf_clause (some f) a m args = field_clause f args
  leaf_clause none (some a) m args = attr_clause a args
  leaf_clause none none (some m) args = member_clause m args
  leaf_clause none none none args = ("true", args)

  unfoldable mutual
    pub node_clause : Node → List String → Clause
    node_clause (node conj children f a m) args =
        let (parts, bound) = node_clauses children args in
        if is_group conj children
        then (concat_texts ("(" ∷ join (separator conj) parts ∷ ")" ∷ []), bound)
        else leaf_clause f a m args

    pub node_clauses : Nodes → List String → List String × List String
    node_clauses no_nodes args = ([], args)
    node_clauses (child n ns) args =
        let (s, bound) = node_clause n args in
        let (parts, all) = node_clauses ns bound in (s ∷ parts, all)

  -- translateSegment
  unfoldable pub translate_segment : Node → Clause
  translate_segment root =
      let (clause, args) = node_clause root [] in
      ((if is_empty clause then "true" else clause), args)
