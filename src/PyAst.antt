-- ===== src/PyAst.antt =====
-- The trees that compiler/ast_serial.py walks: Python's `ast` nodes, one constructor for each class
-- of its dispatch table, with the attributes that its methods read, in their order.
use nathra.Common.{ℕ, String, Bool, Option, List, ℤ}
use nathra.Wire.Utf8.{PyStr}

-- The classes of the four operator tables, and `ast.MatMult`, which is in none of them.
pub data Operator : Type 0 where
  add sub mult div mod_op pow floor_div lshift rshift bit_or bit_xor bit_and : Operator
  mat_mult : Operator
  uadd usub not_op invert : Operator
  and_op or_op : Operator
  eq not_eq lt lt_e gt gt_e is_op is_not in_op not_in : Operator

-- `Constant.value`. `other` is a value of another type, such as bytes or a complex number.
pub data Constant : Type 0 where
  bool : Bool → Constant
  int : ℤ → Constant
  float : ℕ → Constant
  str : PyStr → Constant
  none_value ellipsis other : Constant

mutual
  -- A value that may stand where the serializer looks for a node: `None`, a node with its
  -- `lineno` attribute if it has one, or a value of a class that the table does not list.
  pub data Node : Type 0 where
    none_node : Node
    stmt : Option ℕ → Stmt → Node
    expr : Option ℕ → Expr → Node
    part : Option ℕ → Part → Node
    unlisted : String → Node

  pub data Nodes : Type 0 where
    nil : Nodes
    cons : Node → Nodes → Nodes

  pub data Stmt : Type 0 where
    -- name, args, body, decorator_list, returns
    function_def : PyStr → Node → Nodes → Nodes → Node → Stmt
    -- name, bases, keywords, body, decorator_list
    class_def : PyStr → Nodes → Nodes → Nodes → Nodes → Stmt
    return_stmt raise_stmt expr_stmt : Node → Stmt
    -- test, body, orelse
    if_stmt while_stmt : Node → Nodes → Nodes → Stmt
    -- target, iter, body, orelse
    for_stmt : Node → Node → Nodes → Nodes → Stmt
    -- items, body
    with_stmt : Nodes → Nodes → Stmt
    -- targets, value
    assign : Nodes → Node → Stmt
    -- target, op, value
    aug_assign : Node → Operator → Node → Stmt
    -- target, annotation, value
    ann_assign : Node → Node → Node → Stmt
    -- test, msg
    assert_stmt : Node → Node → Stmt
    break_stmt continue_stmt pass_stmt : Stmt
    -- names
    import_stmt : Nodes → Stmt
    -- module, names
    import_from : Option PyStr → Nodes → Stmt
    -- subject, cases
    match_stmt : Node → Nodes → Stmt

  pub data Expr : Type 0 where
    constant : Constant → Expr
    name : PyStr → Expr
    -- func, args, keywords
    call : Node → Nodes → Nodes → Expr
    attribute : Node → PyStr → Expr
    -- value, slice
    subscript : Node → Node → Expr
    bin_op : Node → Operator → Node → Expr
    unary_op : Operator → Node → Expr
    bool_op : Operator → Nodes → Expr
    -- left, ops, comparators
    comparison : Node → List Operator → Nodes → Expr
    -- test, body, orelse
    if_exp : Node → Node → Node → Expr
    tuple list set joined_str : Nodes → Expr
    -- keys, values
    dict : Nodes → Nodes → Expr
    -- value, conversion, format_spec
    formatted_value : Node → ℤ → Node → Expr
    -- elt, generators
    list_comp : Node → Nodes → Expr
    -- args, body
    lambda : Node → Node → Expr

  -- The module, the nodes that are neither statements nor expressions, and the wrapped ones.
  pub data Part : Type 0 where
    -- body
    module_root : Nodes → Part
    -- args, vararg, defaults
    arguments : Nodes → Node → Nodes → Part
    -- arg, annotation
    arg : PyStr → Node → Part
    -- arg, value
    keyword : Option PyStr → Node → Part
    -- name, asname
    alias : PyStr → Option PyStr → Part
    -- target, iter, ifs
    comprehension : Node → Node → Nodes → Part
    -- context_expr, optional_vars
    withitem : Node → Node → Part
    -- pattern, guard, body
    match_case : Node → Node → Nodes → Part
    match_value : Node → Part
    match_or : Nodes → Part
    -- pattern, name
    match_as : Node → Option PyStr → Part
