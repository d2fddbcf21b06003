-- ===== src/NativeAst/Types.antt =====
-- native/src/ast_nodes.py: the tree that the native compiler reads. A pointer to a node is `null`
-- or the node with its payload; each payload is a constructor named after its struct, with the
-- struct's fields in order. Nodes are immutable once read, so no two pointers need be told apart.
use nathra.Common.{ℕ, ℤ, List, Option}
use nathra.Wire.Bytes.{Bytes}

-- `NULL`, or the bytes of an `NrStr`.
abbrev pub NrStr : Type 0
NrStr = Option Bytes

mutual
  pub data AstNode : Type 0 where
    null : AstNode
    -- tag, lineno, data
    node : ℕ → ℕ → Payload → AstNode

  -- `items`, whose length is `count`.
  pub data AstNodes : Type 0 where
    nil : AstNodes
    cons : AstNode → AstNodes → AstNodes

  pub data Payload : Type 0 where
    no_data : Payload
    -- body
    ast_module : AstNodes → Payload
    -- name, args, body, decorators, returns
    ast_function_def : NrStr → AstNode → AstNodes → AstNodes → AstNode → Payload
    -- name, bases, keywords, body, decorators
    ast_class_def : NrStr → AstNodes → AstNodes → AstNodes → AstNodes → Payload
    -- value
    ast_return : AstNode → Payload
    -- exc
    ast_raise : AstNode → Payload
    -- value
    ast_expr_stmt : AstNode → Payload
    -- test, body, orelse
    ast_if : AstNode → AstNodes → AstNodes → Payload
    -- test, body
    ast_while : AstNode → AstNodes → Payload
    -- target, iter, body
    ast_for : AstNode → AstNode → AstNodes → Payload
    -- items, body
    ast_with : AstNodes → AstNodes → Payload
    -- targets, value
    ast_assign : AstNodes → AstNode → Payload
    -- target, op, value
    ast_aug_assign : AstNode → ℕ → AstNode → Payload
    -- target, annotation, value
    ast_ann_assign : AstNode → AstNode → AstNode → Payload
    -- test, msg
    ast_assert : AstNode → AstNode → Payload
    -- names
    ast_import : AstNodes → Payload
    -- module, names
    ast_import_from : NrStr → AstNodes → Payload
    -- subject, cases
    ast_match : AstNode → AstNodes → Payload
    -- kind, int_val, float_val, str_val
    ast_constant : ℕ → ℤ → ℕ → NrStr → Payload
    -- id
    ast_name : NrStr → Payload
    -- func, args, keywords
    ast_call : AstNode → AstNodes → AstNodes → Payload
    -- value, attr
    ast_attribute : AstNode → NrStr → Payload
    -- value, slice
    ast_subscript : AstNode → AstNode → Payload
    -- left, op, right
    ast_bin_op : AstNode → ℕ → AstNode → Payload
    -- op, operand
    ast_unary_op : ℕ → AstNode → Payload
    -- op, values
    ast_bool_op : ℕ → AstNodes → Payload
    -- left, ops with its length op_count, comparators
    ast_compare : AstNode → List ℕ → AstNodes → Payload
    -- test, body, orelse
    ast_if_exp : AstNode → AstNode → AstNode → Payload
    -- elts
    ast_tuple : AstNodes → Payload
    -- elts
    ast_list : AstNodes → Payload
    -- elts
    ast_set : AstNodes → Payload
    -- keys, values
    ast_dict : AstNodes → AstNodes → Payload
    -- values
    ast_joined_str : AstNodes → Payload
    -- value, conversion, format_spec
    ast_formatted_value : AstNode → ℤ → AstNode → Payload
    -- elt, generators
    ast_list_comp : AstNode → AstNodes → Payload
    -- args, body
    ast_lambda : AstNode → AstNode → Payload
    -- args, vararg, defaults
    ast_arguments : AstNodes → AstNode → AstNodes → Payload
    -- name, annotation
    ast_arg : NrStr → AstNode → Payload
    -- name, value
    ast_keyword : NrStr → AstNode → Payload
    -- name, asname
    ast_alias : NrStr → NrStr → Payload
    -- target, iter, ifs
    ast_comprehension : AstNode → AstNode → AstNodes → Payload
    -- context_expr, optional_vars
    ast_with_item : AstNode → AstNode → Payload
    -- pattern, guard, body
    ast_match_case : AstNode → AstNode → AstNodes → Payload
    -- value
    ast_match_value : AstNode → Payload
    -- patterns
    ast_match_or : AstNodes → Payload
    -- pattern, name
    ast_match_as : AstNode → NrStr → Payload
