-- ===== src/Audience/Segments/Operands.antt =====
-- The arguments that segment_sql.go in internal/audience/adapters binds, and the names of fields that
-- it writes into the text.
use mathlib.Core.List.{append-nil, append_assoc}
use nvelope.Common.Rows.{All-append}
use nvelope.Common.Action.{ok, and_then-eq-ok}
use nvelope.Common.{
  ℕ, List, String, Option, ◌≡◌, ◌<◌, ◌∷◌, some, if◌then◌else◌, ◌++◌, [], true, suc, is_empty, sym,
  Bool-cases, none, All, arith, inl, inr, ltb, ap, append_text, ◌%◌, ◌/◌, zero, refl, ◌∙◌,
}
use nvelope.Audience.Segments.{
  Node, Nodes, node, no_nodes, child, FieldCondition, AttrCondition, MemberCondition, SegmentOp,
  op_eq, op_neq, op_exists, op_contains, op_gt, op_lt, op_gte, op_lte, unknown_op, node_clause,
  node_clauses, field_clause, attr_clause, member_clause, leaf_clause, placeholder,
  translate_segment, is_group, validate_node, validate_nodes, check_field, segment_field,
  decimal_from, group_conjunction, no_children, digit,
}
use nvelope.Audience.Attributes.{Value}

-- The numeral does not change with more fuel, so that the fuel of `decimal` is enough.
decimal_from-suc : (fuel n : ℕ) → n < fuel → decimal_from fuel n ≡ decimal_from (suc fuel) n
unfolding decimal_from
decimal_from-suc zero n h = absurd (omega (arith, h))
decimal_from-suc (suc fuel) n h = elim (Bool-cases (ltb n 10)) [
  | inl small ↦ rw small refl
  | inr large ↦ rw large (
      ap (λ s. append_text s (digit (n % 10)))
        (decimal_from-suc fuel (n / 10) (ground (arith, h, large))))
]

-- What a condition compares with, in the order of the text.
abbrev field_operands : FieldCondition → List String
field_operands c = elim c.op [
  | op_eq ↦ c.value ∷ []
  | op_neq ↦ c.value ∷ []
  | op_contains ↦ c.value ∷ []
  | _ ↦ []
]

abbrev member_operands : MemberCondition → List String
member_operands c = c.list_id ∷ (if is_empty c.status then [] else c.status ∷ [])

module _ (print : Value → String) where
  abbrev attr_operands : AttrCondition → List String
  attr_operands c =
      c.key ∷ (elim c.op [ op_exists ↦ [] | unknown_op ↦ [] | _ ↦ print c.value ∷ [] ])

  abbrev leaf_operands :
      Option FieldCondition → Option AttrCondition → Option MemberCondition → List String
  leaf_operands (some f) a m = field_operands f
  leaf_operands none (some a) m = attr_operands a
  leaf_operands none none (some m) = member_operands m
  leaf_operands none none none = []

  unfoldable mutual
    pub operands : Node → List String
    operands (node conj children f a m) =
        let below = all_operands children in
        if is_group conj children then below else leaf_operands f a m

    pub all_operands : Nodes → List String
    all_operands no_nodes = []
    all_operands (child n ns) = operands n ++ all_operands ns

  field-operands :
      (field value : String) (op : SegmentOp) (args : List String)
      → (field_clause (record { field = field; op = op; value = value }) args).1
        ≡ args ++ field_operands (record { field = field; op = op; value = value })
  unfolding field_clause placeholder
  field-operands field value op_eq args = refl
  field-operands field value op_neq args = refl
  field-operands field value op_contains args = refl
  field-operands field value op_exists args = sym (append-nil args)
  field-operands field value op_gt args = sym (append-nil args)
  field-operands field value op_lt args = sym (append-nil args)
  field-operands field value op_gte args = sym (append-nil args)
  field-operands field value op_lte args = sym (append-nil args)
  field-operands field value unknown_op args = sym (append-nil args)

  attr-operands :
      (key : String) (value : Value) (op : SegmentOp) (args : List String)
      → (attr_clause print (record { key = key; op = op; value = value }) args).1
        ≡ args ++ attr_operands (record { key = key; op = op; value = value })
  unfolding attr_clause placeholder
  attr-operands key value op_exists args = refl
  attr-operands key value unknown_op args = refl
  attr-operands key value op_eq args = append_assoc args _ _
  attr-operands key value op_neq args = append_assoc args _ _
  attr-operands key value op_contains args = append_assoc args _ _
  attr-operands key value op_gt args = append_assoc args _ _
  attr-operands key value op_lt args = append_assoc args _ _
  attr-operands key value op_gte args = append_assoc args _ _
  attr-operands key value op_lte args = append_assoc args _ _

  member-operands :
      (c : MemberCondition) (args : List String)
      → (member_clause c args).1 ≡ args ++ member_operands c
  unfolding member_clause placeholder
  member-operands c args = elim (Bool-cases (is_empty c.status)) [
    | inl bare ↦ rw bare refl
    | inr any ↦ rw any (append_assoc args _ _)
  ]

  leaf-operands :
      (f : Option FieldCondition) (a : Option AttrCondition) (m : Option MemberCondition)
      (args : List String)
      → (leaf_clause print f a m args).1 ≡ args ++ leaf_operands f a m
  unfolding leaf_clause
  leaf-operands (some f) a m args = field-operands f.field f.value f.op args
  leaf-operands none (some a) m args = attr-operands a.key a.value a.op args
  leaf-operands none none (some m) args = member-operands m args
  leaf-operands none none none args = sym (append-nil args)

  mutual
    unfolding node_clause node_clauses operands all_operands

    node-operands :
        (n : Node) (args : List String) → (node_clause print n args).1 ≡ args ++ operands n
    node-operands (node conj children f a m) args =
        let below = nodes-operands children args in
        elim (Bool-cases (is_group conj children)) [
          | inl group ↦ rw group below
          | inr leaf ↦ rw leaf (leaf-operands f a m args)
        ]

    nodes-operands :
        (ns : Nodes) (args : List String) → (node_clauses print ns args).1 ≡ args ++ all_operands ns
    nodes-operands no_nodes args = sym (append-nil args)
    nodes-operands (child n ns) args =
        let first = node-operands n args in
        let rest = nodes-operands ns (node_clause print n args).1 in
        rest
        ∙ ap (λ x. x ++ all_operands ns) first
        ∙ append_assoc args (operands n) (all_operands ns)

  -- The translation binds exactly the operands of the segment's conditions, from left to right: the
  -- values and keys compared with, the lists, and the statuses where there are any.
  pub translate_segment-operands : (root : Node) → (translate_segment print root).1 ≡ operands root
  unfolding translate_segment
  translate_segment-operands root = node-operands root []

abbrev field_names : Option FieldCondition → List String
field_names none = []
field_names (some c) = c.field ∷ []

-- The names of fields in the conditions that are translated.
unfoldable mutual
  pub names : Node → List String
  names (node conj children f a m) =
      let below = all_names children in if is_group conj children then below else field_names f

  pub all_names : Nodes → List String
  all_names no_nodes = []
  all_names (child n ns) = names n ++ all_names ns

abbrev pub Known : String → Type 0
Known f = segment_field f ≡ true

field-Known : (f : Option FieldCondition) (n : ℕ) → check_field f ≡ ok n → All Known (field_names f)
unfolding check_field
field-Known none n h = tt
field-Known (some c) n h = elim (Bool-cases (segment_field c.field)) [
  | inl known ↦ (known, tt)
  | inr other ↦ absurd (cc (rw other at h))
]

mutual
  unfolding validate_node validate_nodes names all_names

  node-Known : (root : Node) → validate_node root ≡ ok tt → All Known (names root)
  node-Known (node conj children f a m) h = elim (Bool-cases (is_group conj children)) [
    | inr leaf ↦ rw leaf (
        let (n, checked, rest) = and_then-eq-ok (check_field f) _ (rw leaf at h) in
        field-Known f n checked)
    | inl group ↦ rw group (elim (Bool-cases (group_conjunction conj)) [
      | inr bad ↦ absurd (cc (rw (group, bad) at h))
      | inl joined ↦ elim (Bool-cases (no_children children)) [
        | inl bare ↦ absurd (cc (rw (group, joined, bare) at h))
        | inr filled ↦ nodes-Known children (rw (group, joined, filled) at h)
      ]
    ])
  ]

  nodes-Known : (ns : Nodes) → validate_nodes ns ≡ ok tt → All Known (all_names ns)
  nodes-Known no_nodes h = tt
  nodes-Known (child n ns) h =
      let (u, first, rest) = and_then-eq-ok (validate_node n) _ h in
      All-append Known (names n) (all_names ns) (node-Known n first) (nodes-Known ns rest)

-- The fields of a segment that NewSegment accepts, which are written into the text, are `email`,
-- `name` and `state` alone.
pub validate_node-Known : (root : Node) → validate_node root ≡ ok tt → All Known (names root)
validate_node-Known root accepted = node-Known root accepted
