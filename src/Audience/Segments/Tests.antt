-- ===== src/Audience/Segments/Tests.antt =====
-- Runs of the translation of segments on concrete inputs, and the witnesses of its theorems.
use nvelope.Common.{String, ◌≡◌, All, some, refl, none, append_text}
use nvelope.Audience.Segments.{
  Node, node, no_nodes, child, conj_and, no_conjunction, op_contains, op_gt, translate_segment,
  validate_node, node_clause, check_field, join, check_attr, leaf_clause, check_member,
  field_clause, check_leaves, attr_clause, member_clause, placeholder, decimal_from,
}
use nvelope.Audience.Segments.Shape.{erase, translate_segment-erase}
use nvelope.Audience.Segments.Operands.{
  operands, names, Known, translate_segment-operands, validate_node-Known,
}
use nvelope.Audience.Attributes.{Value, number}

abbrev print : Value → String
print (number n) = n
print _ = ""

-- Addresses that contain a text, with an attribute above 3, on a list.
abbrev asking : String → String → Node
asking part list =
    node conj_and
      (child
        (node no_conjunction no_nodes
          (some (record { field = "email"; op = op_contains; value = part })) none none)
        (child
          (node no_conjunction no_nodes none
            (some (record { key = "age"; op = op_gt; value = number "3" })) none)
          (child
            (node no_conjunction no_nodes none none
              (some (record { list_id = list; status = "confirmed" })))
            no_nodes)))
      none none none

asked :
    (translate_segment print (asking "x' OR 'a'='a" "l1")).0
    ≡ "(s.email::text ILIKE '%' || $1 || '%' AND (s.attributes->>$2)::numeric > ($3)::numeric AND EXISTS (SELECT 1 FROM subscriber_lists sl WHERE sl.subscriber_id = s.id AND sl.list_id = $4 AND sl.subscription_status = $5))"
unfolding translate_segment node_clause append_text join leaf_clause field_clause attr_clause
    member_clause placeholder decimal_from
asked = refl

translate_segment-erase_example :
    (translate_segment print (asking "x' OR 'a'='a" "l1")).0
    ≡ (translate_segment print (asking "y" "l2")).0
unfolding erase
translate_segment-erase_example =
    translate_segment-erase print (asking "x' OR 'a'='a" "l1") (asking "y" "l2") refl

translate_segment-operands_example :
    (translate_segment print (asking "y" "l2")).1 ≡ operands print (asking "y" "l2")
translate_segment-operands_example = translate_segment-operands print (asking "y" "l2")

validate_node-Known_example : All Known (names (asking "y" "l2"))
unfolding validate_node check_field check_attr check_member check_leaves
validate_node-Known_example = validate_node-Known (asking "y" "l2") refl
