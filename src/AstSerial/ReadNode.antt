-- ===== src/AstSerial/ReadNode.antt =====
-- compiler/ast_serial.py, `AstDeserializer._read_node` and `deserialize`.
use nathra.Common.{
  ℕ, zero, suc, Bool, true, false, [], ◌∷◌, pos, ◌==◌, ◌||◌, if◌then◌else◌, length, take, drop,
}
use nathra.Wire.Result.{Result, ok, err, bind, unknown_tag, bad_magic, out_of_fuel}
use nathra.Wire.Bytes.{Bytes}
use nathra.Wire.Monad.{when◌then◌otherwise◌, Reader, ◌>>=◌, pure, fail, read_u8, read_u16}
use nathra.AstSerial.Tags.{
  code, tag_module, tag_function_def, tag_class_def, tag_return, tag_raise, tag_expr_stmt, tag_if,
  tag_while, tag_for, tag_with, tag_assign, tag_aug_assign, tag_ann_assign, tag_assert, tag_break,
  tag_continue, tag_pass, tag_import, tag_import_from, tag_match, tag_constant, tag_name, tag_call,
  tag_attribute, tag_subscript, tag_bin_op, tag_unary_op, tag_bool_op, tag_compare, tag_if_exp,
  tag_tuple, tag_list, tag_set, tag_dict, tag_joined_str, tag_formatted_val, tag_list_comp,
  tag_lambda, tag_arguments, tag_arg, tag_keyword, tag_alias, tag_comprehension, tag_withitem,
  tag_match_case, tag_match_value, tag_match_or, tag_match_as,
}
use nathra.AstSerial.Value.{Value, int, node, Fields, end, field}
use nathra.AstSerial.Reader.{read_field, set_fields, read_ops, read_constant}

-- The branches of `_read_node`, in order. `self` reads a node and `f` a field. First from
-- `TAG_COMPREHENSION` on.
unfoldable pub read_part_fields : Reader Value → Reader Value → ℕ → Reader Fields
read_part_fields self f tag =
    when tag == code tag_comprehension
    then set_fields (("target", f) ∷ ("iter", f) ∷ ("ifs", f) ∷ [])
    otherwise when tag == code tag_lambda
    then set_fields (("args", self) ∷ ("body", f) ∷ [])
    otherwise when tag == code tag_arguments
    then set_fields (("args", f) ∷ ("vararg", f) ∷ ("defaults", f) ∷ [])
    otherwise when tag == code tag_arg
    then set_fields (("arg", f) ∷ ("annotation", f) ∷ [])
    otherwise when tag == code tag_keyword
    then set_fields (("arg", f) ∷ ("value", f) ∷ [])
    otherwise when tag == code tag_alias
    then set_fields (("name", f) ∷ ("asname", f) ∷ [])
    otherwise when tag == code tag_withitem
    then set_fields (("context_expr", f) ∷ ("optional_vars", f) ∷ [])
    otherwise fail (unknown_tag tag)

-- From `TAG_CONSTANT` on.
unfoldable pub read_expr_fields : Reader Value → Reader Value → ℕ → Reader Fields
unfolding read_part_fields
read_expr_fields self f tag =
    when tag == code tag_constant
    then read_constant f
    otherwise when tag == code tag_name
    then set_fields (("id", f) ∷ [])
    otherwise when tag == code tag_call
    then set_fields (("func", f) ∷ ("args", f) ∷ ("keywords", f) ∷ [])
    otherwise when tag == code tag_attribute
    then set_fields (("value", f) ∷ ("attr", f) ∷ [])
    otherwise when tag == code tag_subscript
    then set_fields (("value", f) ∷ ("slice", f) ∷ [])
    otherwise when tag == code tag_bin_op
    then set_fields (("left", f) ∷ ("op", f) ∷ ("right", f) ∷ [])
    otherwise when tag == code tag_unary_op
    then set_fields (("op", f) ∷ ("operand", f) ∷ [])
    otherwise when tag == code tag_bool_op
    then set_fields (("op", f) ∷ ("values", f) ∷ [])
    otherwise when tag == code tag_compare
    then set_fields (("left", f) ∷ ("ops", read_ops) ∷ ("comparators", f) ∷ [])
    otherwise when tag == code tag_if_exp
    then set_fields (("test", f) ∷ ("body", f) ∷ ("orelse", f) ∷ [])
    otherwise when tag == code tag_tuple || tag == code tag_list || tag == code tag_set
    then set_fields (("elts", f) ∷ [])
    otherwise when tag == code tag_dict
    then set_fields (("keys", f) ∷ ("values", f) ∷ [])
    otherwise when tag == code tag_joined_str
    then set_fields (("values", f) ∷ [])
    otherwise when tag == code tag_formatted_val
    then set_fields (("value", f) ∷ ("conversion", f) ∷ ("format_spec", f) ∷ [])
    otherwise when tag == code tag_list_comp
    then set_fields (("elt", f) ∷ ("generators", f) ∷ [])
    otherwise read_part_fields self f tag

-- All of them.
unfoldable pub read_fields : Reader Value → Reader Value → ℕ → Reader Fields
unfolding read_expr_fields
read_fields self f tag =
    when tag == code tag_module
    then set_fields (("body", f) ∷ [])
    otherwise when tag == code tag_function_def
    then set_fields
        (("name", f) ∷ ("args", self) ∷ ("body", f) ∷ ("decorators", f) ∷ ("returns", f) ∷ [])
    otherwise when tag == code tag_class_def
    then set_fields
        (("name", f) ∷ ("bases", f) ∷ ("keywords", f) ∷ ("body", f) ∷ ("decorators", f) ∷ [])
    otherwise when tag == code tag_return
    then set_fields (("value", f) ∷ [])
    otherwise when tag == code tag_raise
    then set_fields (("exc", f) ∷ [])
    otherwise when tag == code tag_expr_stmt
    then set_fields (("value", f) ∷ [])
    otherwise when tag == code tag_if
    then set_fields (("test", f) ∷ ("body", f) ∷ ("orelse", f) ∷ [])
    otherwise when tag == code tag_while
    then set_fields (("test", f) ∷ ("body", f) ∷ [])
    otherwise when tag == code tag_for
    then set_fields (("target", f) ∷ ("iter", f) ∷ ("body", f) ∷ [])
    otherwise when tag == code tag_with
    then set_fields (("items", f) ∷ ("body", f) ∷ [])
    otherwise when tag == code tag_assign
    then set_fields (("targets", f) ∷ ("value", f) ∷ [])
    otherwise when tag == code tag_aug_assign
    then set_fields (("target", f) ∷ ("op", f) ∷ ("value", f) ∷ [])
    otherwise when tag == code tag_ann_assign
    then set_fields (("target", f) ∷ ("annotation", f) ∷ ("value", f) ∷ [])
    otherwise when tag == code tag_assert
    then set_fields (("test", f) ∷ ("msg", f) ∷ [])
    otherwise when tag == code tag_break || tag == code tag_continue || tag == code tag_pass
    then pure end
    otherwise when tag == code tag_import
    then set_fields (("names", f) ∷ [])
    otherwise when tag == code tag_import_from
    then set_fields (("module", f) ∷ ("names", f) ∷ [])
    otherwise when tag == code tag_match
    then set_fields (("subject", f) ∷ ("cases", f) ∷ [])
    otherwise when tag == code tag_match_case
    then set_fields (("pattern", f) ∷ ("guard", f) ∷ ("body", f) ∷ [])
    otherwise when tag == code tag_match_value
    then set_fields (("value", f) ∷ [])
    otherwise when tag == code tag_match_or
    then set_fields (("patterns", f) ∷ [])
    otherwise when tag == code tag_match_as
    then set_fields (("pattern", f) ∷ ("name", f) ∷ [])
    otherwise read_expr_fields self f tag

unfoldable pub node_dict : ℕ → ℕ → Fields → Value
node_dict tag lineno fs = node (field "tag" (int (pos tag)) (field "lineno" (int (pos lineno)) fs))

-- A node takes three bytes at least, so each level of the recursion costs a unit of fuel.
unfoldable pub read_node : ℕ → Reader Value
unfolding node_dict
read_node zero = fail out_of_fuel
read_node (suc fuel) = do
  tag ← read_u8
  lineno ← read_u16
  fs ← read_fields (read_node fuel) (read_field (read_node fuel)) tag
  pure (node_dict tag lineno fs)

abbrev pub same_bytes : Bytes → Bytes → Bool
same_bytes [] [] = true
same_bytes (a ∷ xs) (b ∷ ys) = if a == b then same_bytes xs ys else false
same_bytes _ _ = false

abbrev pub mpya : Bytes
mpya = b'M' ∷ b'P' ∷ b'Y' ∷ b'A' ∷ []

-- `deserialize`: the root node; what follows it is not looked at.
unfoldable pub deserialize : Bytes → Result Value
deserialize bytes =
    let magic = take 4 bytes in
    if same_bytes magic mpya
    then bind (read_node (suc (length bytes)) (drop 4 bytes)) (λ (v, _). ok v)
    else err (bad_magic magic)
