-- ===== src/NativeAst/RoundTrip/Nodes.antt =====
-- What `AstSerializer` writes, `ast_read_node` reads as `native` says: the mutual induction.
use nathra.Common.{ℕ, Option, some, length}
use nathra.Wire.Reads.{Reads, Reads-pure, Reads-err, Reads-seq, Reads-map, Reads-one}
use nathra.Wire.Monad.{when◌then◌otherwise◌}
use nathra.AstSerial.Fields.{count}
use nathra.AstSerial.Writer.{
  serialize, serialize_all, serialize_stmt, serialize_expr, serialize_part,
}
use nathra.AstSerial.Describe.{stmt_tag, expr_tag, part_tag, lineno_or_zero}
use nathra.AstSerial.Tags.{code}
use nathra.PyAst.{
  Operator, Constant, Node, none_node, stmt, expr, part, unlisted, Nodes, Stmt, function_def,
  class_def, return_stmt, raise_stmt, expr_stmt, if_stmt, while_stmt, for_stmt, with_stmt, assign,
  aug_assign, ann_assign, assert_stmt, break_stmt, continue_stmt, pass_stmt, import_stmt,
  import_from, match_stmt, Expr, constant, name, call, attribute, subscript, bin_op, unary_op,
  bool_op, comparison, if_exp, tuple, set, joined_str, dict, formatted_value, list_comp, lambda,
  Part, module_root, arguments, arg, keyword, alias, comprehension, withitem, match_case,
  match_value, match_or, match_as,
}
use nathra.PyAst
use nathra.NativeAst.Types.{node}
use nathra.NativeAst.Fields.{nr_read_u8, ast_read_nodes}
use nathra.NativeAst.Stmts.{
  ast_read_module, ast_read_function_def, ast_read_class_def, ast_read_return, ast_read_raise,
  ast_read_expr_stmt, ast_read_if, ast_read_while, ast_read_for, ast_read_with, ast_read_assign,
  ast_read_aug_assign, ast_read_ann_assign, ast_read_assert, ast_read_import, ast_read_import_from,
  ast_read_match,
}
use nathra.NativeAst.Exprs.{
  ast_read_constant, ast_read_name, ast_read_call, ast_read_attribute, ast_read_subscript,
  ast_read_binop, ast_read_unaryop, ast_read_boolop, ast_read_compare, ast_read_ifexp,
  ast_read_tuple, ast_read_list, ast_read_set, ast_read_dict, ast_read_joined_str,
  ast_read_formatted_value, ast_read_list_comp, ast_read_lambda,
}
use nathra.NativeAst.Parts.{
  ast_read_arguments, ast_read_arg, ast_read_keyword, ast_read_alias, ast_read_comprehension,
  ast_read_withitem, ast_read_match_case, ast_read_match_value, ast_read_match_or,
  ast_read_match_as,
}
use nathra.NativeAst.ReadNode.{ast_read_data, ast_read_expr_data, ast_read_node}
use nathra.NativeAst.Describe.{native, native_all, native_stmt, native_expr, native_part}
use nathra.NativeAst.RoundTrip.Fields.{
  field-Reads, nodes-Reads, string-Reads, op-Reads, int-Reads, ops-Reads, constant-Reads,
  Reads-header, Reads-bare,
}

mutual
  unfolding serialize native ast_read_data ast_read_expr_data when◌then◌otherwise◌ count
      ast_read_nodes nr_read_u8 ast_read_module ast_read_function_def ast_read_class_def
      ast_read_return ast_read_raise ast_read_expr_stmt ast_read_if ast_read_while ast_read_for
      ast_read_with ast_read_assign ast_read_aug_assign ast_read_ann_assign ast_read_assert
      ast_read_import ast_read_import_from ast_read_match ast_read_constant ast_read_name
      ast_read_call ast_read_attribute ast_read_subscript ast_read_binop ast_read_unaryop
      ast_read_boolop ast_read_compare ast_read_ifexp ast_read_tuple ast_read_list ast_read_set
      ast_read_dict ast_read_joined_str ast_read_formatted_value ast_read_list_comp ast_read_lambda
      ast_read_arguments ast_read_arg ast_read_keyword ast_read_alias ast_read_comprehension
      ast_read_withitem ast_read_match_case ast_read_match_value ast_read_match_or ast_read_match_as

  pub node-Reads : (x : Node) (n : ℕ) → Reads n (serialize x) (ast_read_node n) (native x)
  node-Reads none_node n = Reads-err
  node-Reads (unlisted class) n = Reads-err
  node-Reads (stmt l s) n = stmt-Reads s l n
  node-Reads (expr l e) n = expr-Reads e l n
  node-Reads (part l p) n = part-Reads p l n

  all-Reads :
      (ns : PyAst.Nodes) (n : ℕ)
      → Reads n (serialize_all ns) (ast_read_nodes (ast_read_node n) (count ns)) (native_all ns)
  all-Reads PyAst.nil n = Reads-pure
  all-Reads (PyAst.cons x ns) n = Reads-seq _ (node-Reads x n) (Reads-map _ (all-Reads ns n))

  stmt-Reads :
      (s : Stmt) (l : Option ℕ) (n : ℕ)
      → Reads n
          (serialize_stmt s l)
          (ast_read_node n)
          (node (code (stmt_tag s)) (lineno_or_zero l) (native_stmt s))
  stmt-Reads (function_def nm args body decorators returns) l n =
      Reads-header _ l
        (λ m. Reads-seq _ (string-Reads m (some nm)) (
          Reads-seq _ (node-Reads args m) (
            Reads-seq _ (nodes-Reads _ body _ m (all-Reads body m)) (
              Reads-seq _ (nodes-Reads _ decorators _ m (all-Reads decorators m))
                (Reads-map _ (field-Reads _ returns _ m (node-Reads returns m)))))))
        n
  stmt-Reads (class_def nm bases keywords body decorators) l n =
      Reads-header _ l
        (λ m. Reads-seq _ (string-Reads m (some nm)) (
          Reads-seq _ (nodes-Reads _ bases _ m (all-Reads bases m)) (
            Reads-seq _ (nodes-Reads _ keywords _ m (all-Reads keywords m)) (
              Reads-seq _ (nodes-Reads _ body _ m (all-Reads body m))
                (Reads-map _ (nodes-Reads _ decorators _ m (all-Reads decorators m)))))))
        n
  stmt-Reads (return_stmt value) l n =
      Reads-header _ l (λ m. Reads-map _ (field-Reads _ value _ m (node-Reads value m))) n
  stmt-Reads (raise_stmt exc) l n =
      Reads-header _ l (λ m. Reads-map _ (field-Reads _ exc _ m (node-Reads exc m))) n
  stmt-Reads (expr_stmt value) l n =
      Reads-header _ l (λ m. Reads-map _ (field-Reads _ value _ m (node-Reads value m))) n
  stmt-Reads (if_stmt test body orelse) l n =
      Reads-header _ l
        (λ m. Reads-seq _ (field-Reads _ test _ m (node-Reads test m)) (
          Reads-seq _ (nodes-Reads _ body _ m (all-Reads body m))
            (Reads-map _ (nodes-Reads _ orelse _ m (all-Reads orelse m)))))
        n
  stmt-Reads (while_stmt test body orelse) l n =
      Reads-header _ l
        (λ m.
          Reads-seq _ (field-Reads _ test _ m (node-Reads test m))
            (Reads-map _ (nodes-Reads _ body _ m (all-Reads body m))))
        n
  stmt-Reads (for_stmt target iter body orelse) l n =
      Reads-header _ l
        (λ m. Reads-seq _ (field-Reads _ target _ m (node-Reads target m)) (
          Reads-seq _ (field-Reads _ iter _ m (node-Reads iter m))
            (Reads-map _ (nodes-Reads _ body _ m (all-Reads body m)))))
        n
  stmt-Reads (with_stmt items body) l n =
      Reads-header _ l
        (λ m.
          Reads-seq _ (nodes-Reads _ items _ m (all-Reads items m))
            (Reads-map _ (nodes-Reads _ body _ m (all-Reads body m))))
        n
  stmt-Reads (assign targets value) l n =
      Reads-header _ l
        (λ m.
          Reads-seq _ (nodes-Reads _ targets _ m (all-Reads targets m))
            (Reads-map _ (field-Reads _ value _ m (node-Reads value m))))
        n
  stmt-Reads (aug_assign target o value) l n =
      Reads-header _ l
        (λ m.
          Reads-seq _ (field-Reads _ target _ m (node-Reads target m)) (
            Reads-seq _ (op-Reads m o)
              (Reads-map _ (field-Reads _ value _ m (node-Reads value m)))))
        n
  stmt-Reads (ann_assign target annotation value) l n =
      Reads-header _ l
        (λ m. Reads-seq _ (field-Reads _ target _ m (node-Reads target m)) (
          Reads-seq _ (field-Reads _ annotation _ m (node-Reads annotation m))
            (Reads-map _ (field-Reads _ value _ m (node-Reads value m)))))
        n
  stmt-Reads (assert_stmt test msg) l n =
      Reads-header _ l
        (λ m.
          Reads-seq _ (field-Reads _ test _ m (node-Reads test m))
            (Reads-map _ (field-Reads _ msg _ m (node-Reads msg m))))
        n
  stmt-Reads break_stmt l n = Reads-bare _ l (λ m. Reads-pure) n
  stmt-Reads continue_stmt l n = Reads-bare _ l (λ m. Reads-pure) n
  stmt-Reads pass_stmt l n = Reads-bare _ l (λ m. Reads-pure) n
  stmt-Reads (import_stmt names) l n =
      Reads-header _ l (λ m. Reads-map _ (nodes-Reads _ names _ m (all-Reads names m))) n
  stmt-Reads (import_from source names) l n =
      Reads-header _ l
        (λ m.
          Reads-seq _ (string-Reads m source)
            (Reads-map _ (nodes-Reads _ names _ m (all-Reads names m))))
        n
  stmt-Reads (match_stmt subject cases) l n =
      Reads-header _ l
        (λ m.
          Reads-seq _ (field-Reads _ subject _ m (node-Reads subject m))
            (Reads-map _ (nodes-Reads _ cases _ m (all-Reads cases m))))
        n

  expr-Reads :
      (e : Expr) (l : Option ℕ) (n : ℕ)
      → Reads n
          (serialize_expr e l)
          (ast_read_node n)
          (node (code (expr_tag e)) (lineno_or_zero l) (native_expr e))
  expr-Reads (constant v) l n = Reads-header _ l (λ m. constant-Reads (ast_read_node m) m v) n
  expr-Reads (name id) l n = Reads-header _ l (λ m. Reads-map _ (string-Reads m (some id))) n
  expr-Reads (call func args keywords) l n =
      Reads-header _ l
        (λ m. Reads-seq _ (field-Reads _ func _ m (node-Reads func m)) (
          Reads-seq _ (nodes-Reads _ args _ m (all-Reads args m))
            (Reads-map _ (nodes-Reads _ keywords _ m (all-Reads keywords m)))))
        n
  expr-Reads (attribute value attr) l n =
      Reads-header _ l
        (λ m.
          Reads-seq _ (field-Reads _ value _ m (node-Reads value m))
            (Reads-map _ (string-Reads m (some attr))))
        n
  expr-Reads (subscript value slice) l n =
      Reads-header _ l
        (λ m.
          Reads-seq _ (field-Reads _ value _ m (node-Reads value m))
            (Reads-map _ (field-Reads _ slice _ m (node-Reads slice m))))
        n
  expr-Reads (bin_op left o right) l n =
      Reads-header _ l
        (λ m.
          Reads-seq _ (field-Reads _ left _ m (node-Reads left m)) (
            Reads-seq _ (op-Reads m o)
              (Reads-map _ (field-Reads _ right _ m (node-Reads right m)))))
        n
  expr-Reads (unary_op o operand) l n =
      Reads-header _ l
        (λ m.
          Reads-seq _ (op-Reads m o)
            (Reads-map _ (field-Reads _ operand _ m (node-Reads operand m))))
        n
  expr-Reads (bool_op o values) l n =
      Reads-header _ l
        (λ m.
          Reads-seq _ (op-Reads m o) (Reads-map _ (nodes-Reads _ values _ m (all-Reads values m))))
        n
  expr-Reads (comparison left ops comparators) l n =
      Reads-header _ l
        (λ m. Reads-seq _ (field-Reads _ left _ m (node-Reads left m)) (
          Reads-seq _ (Reads-one _ (length ops)) (
            Reads-seq _ (ops-Reads m ops)
              (Reads-map _ (nodes-Reads _ comparators _ m (all-Reads comparators m))))))
        n
  expr-Reads (if_exp test body orelse) l n =
      Reads-header _ l
        (λ m. Reads-seq _ (field-Reads _ test _ m (node-Reads test m)) (
          Reads-seq _ (field-Reads _ body _ m (node-Reads body m))
            (Reads-map _ (field-Reads _ orelse _ m (node-Reads orelse m)))))
        n
  expr-Reads (tuple elts) l n =
      Reads-header _ l (λ m. Reads-map _ (nodes-Reads _ elts _ m (all-Reads elts m))) n
  expr-Reads (PyAst.list elts) l n =
      Reads-header _ l (λ m. Reads-map _ (nodes-Reads _ elts _ m (all-Reads elts m))) n
  expr-Reads (set elts) l n =
      Reads-header _ l (λ m. Reads-map _ (nodes-Reads _ elts _ m (all-Reads elts m))) n
  expr-Reads (joined_str values) l n =
      Reads-header _ l (λ m. Reads-map _ (nodes-Reads _ values _ m (all-Reads values m))) n
  expr-Reads (dict keys values) l n =
      Reads-header _ l
        (λ m.
          Reads-seq _ (nodes-Reads _ keys _ m (all-Reads keys m))
            (Reads-map _ (nodes-Reads _ values _ m (all-Reads values m))))
        n
  expr-Reads (formatted_value value conversion format_spec) l n =
      Reads-header _ l
        (λ m. Reads-seq _ (field-Reads _ value _ m (node-Reads value m)) (
          Reads-seq _ (int-Reads m conversion)
            (Reads-map _ (field-Reads _ format_spec _ m (node-Reads format_spec m)))))
        n
  expr-Reads (list_comp elt generators) l n =
      Reads-header _ l
        (λ m.
          Reads-seq _ (field-Reads _ elt _ m (node-Reads elt m))
            (Reads-map _ (nodes-Reads _ generators _ m (all-Reads generators m))))
        n
  expr-Reads (lambda args body) l n =
      Reads-header _ l
        (λ m.
          Reads-seq _ (node-Reads args m)
            (Reads-map _ (field-Reads _ body _ m (node-Reads body m))))
        n

  part-Reads :
      (p : Part) (l : Option ℕ) (n : ℕ)
      → Reads n
          (serialize_part p l)
          (ast_read_node n)
          (node (code (part_tag p)) (lineno_or_zero l) (native_part p))
  part-Reads (module_root body) l n =
      Reads-header _ l (λ m. Reads-map _ (nodes-Reads _ body _ m (all-Reads body m))) n
  part-Reads (arguments args vararg defaults) l n =
      Reads-header _ l
        (λ m. Reads-seq _ (nodes-Reads _ args _ m (all-Reads args m)) (
          Reads-seq _ (field-Reads _ vararg _ m (node-Reads vararg m))
            (Reads-map _ (nodes-Reads _ defaults _ m (all-Reads defaults m)))))
        n
  part-Reads (arg nm annotation) l n =
      Reads-header _ l
        (λ m.
          Reads-seq _ (string-Reads m (some nm))
            (Reads-map _ (field-Reads _ annotation _ m (node-Reads annotation m))))
        n
  part-Reads (keyword nm value) l n =
      Reads-header _ l
        (λ m.
          Reads-seq _ (string-Reads m nm)
            (Reads-map _ (field-Reads _ value _ m (node-Reads value m))))
        n
  part-Reads (alias nm asname) l n =
      Reads-header _ l
        (λ m. Reads-seq _ (string-Reads m (some nm)) (Reads-map _ (string-Reads m asname))) n
  part-Reads (comprehension target iter ifs) l n =
      Reads-header _ l
        (λ m. Reads-seq _ (field-Reads _ target _ m (node-Reads target m)) (
          Reads-seq _ (field-Reads _ iter _ m (node-Reads iter m))
            (Reads-map _ (nodes-Reads _ ifs _ m (all-Reads ifs m)))))
        n
  part-Reads (withitem context_expr optional_vars) l n =
      Reads-header _ l
        (λ m.
          Reads-seq _ (field-Reads _ context_expr _ m (node-Reads context_expr m))
            (Reads-map _ (field-Reads _ optional_vars _ m (node-Reads optional_vars m))))
        n
  part-Reads (match_case pat guard body) l n =
      Reads-header _ l
        (λ m. Reads-seq _ (field-Reads _ pat _ m (node-Reads pat m)) (
          Reads-seq _ (field-Reads _ guard _ m (node-Reads guard m))
            (Reads-map _ (nodes-Reads _ body _ m (all-Reads body m)))))
        n
  part-Reads (match_value value) l n =
      Reads-header _ l (λ m. Reads-map _ (field-Reads _ value _ m (node-Reads value m))) n
  part-Reads (match_or patterns) l n =
      Reads-header _ l (λ m. Reads-map _ (nodes-Reads _ patterns _ m (all-Reads patterns m))) n
  part-Reads (match_as pat nm) l n =
      Reads-header _ l
        (λ m.
          Reads-seq _ (field-Reads _ pat _ m (node-Reads pat m)) (Reads-map _ (string-Reads m nm)))
        n
