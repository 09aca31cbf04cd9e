-- ===== src/Audience/Segments/Shape.antt =====
-- What the translation of segment_sql.go in internal/audience/adapters takes from the operands.
use nvelope.Common.{
  Option, List, String, some, ◌≡◌, length, none, if◌then◌else◌, arith, is_empty, length-append, ◌∷◌,
  [], refl, Bool-cases, ◌∙◌, inl, ap, inr, sym,
}
use nvelope.Audience.Segments.{
  Node, Nodes, node, no_nodes, child, FieldCondition, AttrCondition, MemberCondition, SegmentOp,
  op_eq, op_neq, op_exists, op_contains, op_gt, op_lt, op_gte, op_lte, unknown_op, node_clause,
  node_clauses, field_clause, attr_clause, member_clause, leaf_clause, placeholder,
  translate_segment, Conjunction, is_group, conj_and, conj_or, unknown_conjunction, no_conjunction,
}
use nvelope.Audience.Attributes.{Value, null}

-- A segment without its operands: the values, the keys, the lists and the statuses are gone; the
-- conjunctions, the fields, the operators and whether there is a status stay.
abbrev erase_field : Option FieldCondition → Option FieldCondition
erase_field none = none
erase_field (some c) = some (record c { value = "" })

abbrev erase_attr : Option AttrCondition → Option AttrCondition
erase_attr none = none
erase_attr (some c) = some (record { key = ""; op = c.op; value = null })

abbrev erase_member : Option MemberCondition → Option MemberCondition
erase_member none = none
erase_member (some c) =
    some (record { list_id = ""; status = if is_empty c.status then "" else "any" })

unfoldable mutual
  pub erase : Node → Node
  erase (node conj children f a m) =
      node conj (erase_all children) (erase_field f) (erase_attr a) (erase_member m)

  pub erase_all : Nodes → Nodes
  erase_all no_nodes = no_nodes
  erase_all (child n ns) = child (erase n) (erase_all ns)

-- Two clauses of one text, with as many bound arguments.
record Alike {A : Type 0} (c d : A × List String) : Type 0 where
  same_text : c.0 ≡ d.0
  same_count : length c.1 ≡ length d.1

placeholder-Alike :
    (v v' : String) (a b : List String)
    → length a ≡ length b
    → Alike (placeholder v a) (placeholder v' b)
unfolding placeholder
placeholder-Alike v v' a b h = record {
  same_text = rw h refl;
  same_count = omega (arith, length-append a (v ∷ []), length-append b (v' ∷ []), h);
}

field-Alike :
    (field value : String) (op : SegmentOp) (a b : List String)
    → length a ≡ length b
    → Alike
        (field_clause (record { field = field; op = op; value = value }) a)
        (field_clause (record { field = field; op = op; value = "" }) b)
unfolding field_clause
field-Alike field value op_eq a b h =
    let p = placeholder-Alike value "" a b h in
    record { same_text = rw (p.same_text) refl; same_count = p.same_count }
field-Alike field value op_neq a b h =
    let p = placeholder-Alike value "" a b h in
    record { same_text = rw (p.same_text) refl; same_count = p.same_count }
field-Alike field value op_contains a b h =
    let p = placeholder-Alike value "" a b h in
    record { same_text = rw (p.same_text) refl; same_count = p.same_count }
field-Alike field value op_exists a b h = record { same_text = refl; same_count = h }
field-Alike field value op_gt a b h = record { same_text = refl; same_count = h }
field-Alike field value op_lt a b h = record { same_text = refl; same_count = h }
field-Alike field value op_gte a b h = record { same_text = refl; same_count = h }
field-Alike field value op_lte a b h = record { same_text = refl; same_count = h }
field-Alike field value unknown_op a b h = record { same_text = refl; same_count = h }

member-Alike :
    (list_id status : String) (a b : List String)
    → length a ≡ length b
    → Alike
        (member_clause (record { list_id = list_id; status = status }) a)
        (member_clause (record { list_id = ""; status = if is_empty status then "" else "any" }) b)
unfolding member_clause
member-Alike list_id status a b h =
    let l = placeholder-Alike list_id "" a b h in
    elim (Bool-cases (is_empty status)) [
      | inl bare ↦ rw bare (record { same_text = rw (l.same_text) refl; same_count = l.same_count })
      | inr any ↦
          let p = placeholder-Alike status "any" _ _ l.same_count in
          rw any
            (record { same_text = rw (l.same_text, p.same_text) refl; same_count = p.same_count })
    ]

module _ (print : Value → String) where
  -- The two bound arguments of a comparison.
  both :
      (key : String) (value : Value) (a b : List String)
      → length a ≡ length b
      → Alike
          (placeholder (print value) (placeholder key a).1)
          (placeholder (print null) (placeholder "" b).1)
  both key value a b h =
      placeholder-Alike (print value) (print null) _ _ (placeholder-Alike key "" a b h).same_count

  attr-Alike :
      (key : String) (op : SegmentOp) (value : Value) (a b : List String)
      → length a ≡ length b
      → Alike
          (attr_clause print (record { key = key; op = op; value = value }) a)
          (attr_clause print (record { key = ""; op = op; value = null }) b)
  unfolding attr_clause
  attr-Alike key op_eq value a b h =
      let v = both key value a b h in
      record {
        same_text = rw ((placeholder-Alike key "" a b h).same_text, v.same_text) refl;
        same_count = v.same_count;
      }
  attr-Alike key op_neq value a b h =
      let v = both key value a b h in
      record {
        same_text = rw ((placeholder-Alike key "" a b h).same_text, v.same_text) refl;
        same_count = v.same_count;
      }
  attr-Alike key op_contains value a b h =
      let v = both key value a b h in
      record {
        same_text = rw ((placeholder-Alike key "" a b h).same_text, v.same_text) refl;
        same_count = v.same_count;
      }
  attr-Alike key op_gt value a b h =
      let v = both key value a b h in
      record {
        same_text = rw ((placeholder-Alike key "" a b h).same_text, v.same_text) refl;
        same_count = v.same_count;
      }
  attr-Alike key op_lt value a b h =
      let v = both key value a b h in
      record {
        same_text = rw ((placeholder-Alike key "" a b h).same_text, v.same_text) refl;
        same_count = v.same_count;
      }
  attr-Alike key op_gte value a b h =
      let v = both key value a b h in
      record {
        same_text = rw ((placeholder-Alike key "" a b h).same_text, v.same_text) refl;
        same_count = v.same_count;
      }
  attr-Alike key op_lte value a b h =
      let v = both key value a b h in
      record {
        same_text = rw ((placeholder-Alike key "" a b h).same_text, v.same_text) refl;
        same_count = v.same_count;
      }
  attr-Alike key op_exists value a b h =
      let k = placeholder-Alike key "" a b h in
      record { same_text = rw (k.same_text) refl; same_count = k.same_count }
  attr-Alike key unknown_op value a b h = record {
    same_text = refl;
    same_count = (placeholder-Alike key "" a b h).same_count;
  }

  leaf-Alike :
      (f : Option FieldCondition) (at : Option AttrCondition) (m : Option MemberCondition)
      (a b : List String)
      → length a ≡ length b
      → Alike
          (leaf_clause print f at m a)
          (leaf_clause print (erase_field f) (erase_attr at) (erase_member m) b)
  unfolding leaf_clause
  leaf-Alike (some c) at m a b h = field-Alike c.field c.value c.op a b h
  leaf-Alike none (some c) m a b h = attr-Alike c.key c.op c.value a b h
  leaf-Alike none none (some c) a b h = member-Alike c.list_id c.status a b h
  leaf-Alike none none none a b h = record { same_text = refl; same_count = h }

  group_erase : (conj : Conjunction) (ns : Nodes) → is_group conj (erase_all ns) ≡ is_group conj ns
  unfolding erase_all
  group_erase conj_and no_nodes = refl
  group_erase conj_or no_nodes = refl
  group_erase unknown_conjunction no_nodes = refl
  group_erase no_conjunction no_nodes = refl
  group_erase conj_and (child n ns) = refl
  group_erase conj_or (child n ns) = refl
  group_erase unknown_conjunction (child n ns) = refl
  group_erase no_conjunction (child n ns) = refl

  mutual
    unfolding node_clause node_clauses erase erase_all

    node-Alike :
        (n : Node) (a b : List String)
        → length a ≡ length b
        → Alike (node_clause print n a) (node_clause print (erase n) b)
    node-Alike (node conj children f at m) a b h =
        let below = nodes-Alike children a b h in
        elim (Bool-cases (is_group conj children)) [
          | inl group ↦
              rw (group_erase conj children, group)
                (record { same_text = rw (below.same_text) refl; same_count = below.same_count })
          | inr leaf ↦ rw (group_erase conj children, leaf) (leaf-Alike f at m a b h)
        ]

    nodes-Alike :
        (ns : Nodes) (a b : List String)
        → length a ≡ length b
        → Alike (node_clauses print ns a) (node_clauses print (erase_all ns) b)
    nodes-Alike no_nodes a b h = record { same_text = refl; same_count = h }
    nodes-Alike (child n ns) a b h =
        let first = node-Alike n a b h in
        let rest = nodes-Alike ns _ _ first.same_count in
        record {
          same_text = rw (first.same_text, rest.same_text) refl;
          same_count = rest.same_count;
        }

-- The text of a segment's condition depends on its shape alone: two segments that differ in the
-- values, the keys, the lists and the statuses that they ask for, and not in where a status stands,
-- have one text, whatever the operands contain.
pub translate_segment-erase :
    (print : Value → String) (n m : Node)
    → erase n ≡ erase m
    → (translate_segment print n).0 ≡ (translate_segment print m).0
unfolding translate_segment
translate_segment-erase print n m same =
    let first = (node-Alike print n [] [] refl).same_text in
    let second = (node-Alike print m [] [] refl).same_text in
    let texts = first ∙ ap (λ x. (node_clause print x []).0) same ∙ sym second in rw texts refl
