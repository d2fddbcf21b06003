-- ===== src/AstSerial/RoundTrip/Nodes.antt =====
-- What `AstSerializer` writes, `AstDeserializer` reads back: the mutual induction over the tree.
use nathra.Common.{ℕ, Option, some}
use nathra.Wire.Monad.{when◌then◌otherwise◌}
use nathra.Wire.Reads.{Reads, Reads-pure, Reads-err, Reads-seq, Reads-map}
use nathra.AstSerial.Fields.{count}
use nathra.AstSerial.Writer.{
  serialize, serialize_all, serialize_stmt, serialize_expr, serialize_part,
}
use nathra.AstSerial.Reader.{read_times}
use nathra.AstSerial.ReadNode.{read_expr_fields, read_fields, read_node}
use nathra.AstSerial.Describe.{
  described, describe, describe_all, describe_stmt, describe_expr, describe_part, stmt_tag,
  expr_tag, part_tag, lineno_or_zero,
}
use nathra.AstSerial.Tags.{code}
use nathra.PyAst.{
  Operator, Constant, Node, none_node, stmt, expr, part, unlisted, Nodes, Stmt, function_def,
  class_def, return_stmt, raise_stmt, expr_stmt, if_stmt, while_stmt, for_stmt, with_stmt, assign,
  aug_assign, ann_assign, assert_stmt, break_stmt, continue_stmt, pass_stmt, import_stmt,
  import_from, match_stmt, Expr, constant, name, call, attribute, subscript, bin_op, unary_op,
  bool_op, comparison, if_exp, tuple, set, joined_str, dict, formatted_value, list_comp, lambda,
  Part, module_root, arguments, arg, keyword, alias, comprehension, withitem, match_case,
  match_value, match_or, match_as,
}
use nathra.PyAst
use nathra.AstSerial.RoundTrip.Fields.{
  set-cons, set-last, set-ops, Reads-header, Reads-bare, Reads-node_field, Reads-nodes,
  Reads-string_field, Reads-op_field, Reads-int_field, Reads-constant,
}

mutual
  unfolding serialize describe read_fields read_expr_fields when◌then◌otherwise◌ count read_times

  pub node-Reads : (x : Node) (n : ℕ) → Reads n (serialize x) (read_node n) (describe x)
  node-Reads none_node n = Reads-err
  node-Reads (unlisted class) n = Reads-err
  node-Reads (stmt l s) n = stmt-Reads s l n
  node-Reads (expr l e) n = expr-Reads e l n
  node-Reads (part l p) n = part-Reads p l n

  all-Reads :
      (ns : PyAst.Nodes) (n : ℕ)
      → Reads n (serialize_all ns) (read_times (read_node n) (count ns)) (describe_all ns)
  all-Reads PyAst.nil n = Reads-pure
  all-Reads (PyAst.cons x ns) n = Reads-seq _ (node-Reads x n) (Reads-map _ (all-Reads ns n))

  stmt-Reads :
      (s : Stmt) (l : Option ℕ) (n : ℕ)
      → Reads n
          (serialize_stmt s l)
          (read_node n)
          (described (code (stmt_tag s)) (lineno_or_zero l) (describe_stmt s))
  stmt-Reads (function_def nm args body decorators returns) l n =
      Reads-header _ l
        (λ m. set-cons _ _ (Reads-string_field _ _ (some nm)) (
          set-cons _ _ (node-Reads args m) (
            set-cons _ _ (Reads-nodes _ body _ m (all-Reads body m)) (
              set-cons _ _ (Reads-nodes _ decorators _ m (all-Reads decorators m))
                (set-last _ (Reads-node_field _ returns _ m (node-Reads returns m)))))))
        n
  stmt-Reads (class_def nm bases keywords body decorators) l n =
      Reads-header _ l
        (λ m. set-cons _ _ (Reads-string_field _ _ (some nm)) (
          set-cons _ _ (Reads-nodes _ bases _ m (all-Reads bases m)) (
            set-cons _ _ (Reads-nodes _ keywords _ m (all-Reads keywords m)) (
              set-cons _ _ (Reads-nodes _ body _ m (all-Reads body m))
                (set-last _ (Reads-nodes _ decorators _ m (all-Reads decorators m)))))))
        n
  stmt-Reads (return_stmt value) l n =
      Reads-header _ l (λ m. set-last _ (Reads-node_field _ value _ m (node-Reads value m))) n
  stmt-Reads (raise_stmt exc) l n =
      Reads-header _ l (λ m. set-last _ (Reads-node_field _ exc _ m (node-Reads exc m))) n
  stmt-Reads (expr_stmt value) l n =
      Reads-header _ l (λ m. set-last _ (Reads-node_field _ value _ m (node-Reads value m))) n
  stmt-Reads (if_stmt test body orelse) l n =
      Reads-header _ l
        (λ m. set-cons _ _ (Reads-node_field _ test _ m (node-Reads test m)) (
          set-cons _ _ (Reads-nodes _ body _ m (all-Reads body m))
            (set-last _ (Reads-nodes _ orelse _ m (all-Reads orelse m)))))
        n
  stmt-Reads (while_stmt test body orelse) l n =
      Reads-header _ l
        (λ m.
          set-cons _ _ (Reads-node_field _ test _ m (node-Reads test m))
            (set-last _ (Reads-nodes _ body _ m (all-Reads body m))))
        n
  stmt-Reads (for_stmt target iter body orelse) l n =
      Reads-header _ l
        (λ m. set-cons _ _ (Reads-node_field _ target _ m (node-Reads target m)) (
          set-cons _ _ (Reads-node_field _ iter _ m (node-Reads iter m))
            (set-last _ (Reads-nodes _ body _ m (all-Reads body m)))))
        n
  stmt-Reads (with_stmt items body) l n =
      Reads-header _ l
        (λ m.
          set-cons _ _ (Reads-nodes _ items _ m (all-Reads items m))
            (set-last _ (Reads-nodes _ body _ m (all-Reads body m))))
        n
  stmt-Reads (assign targets value) l n =
      Reads-header _ l
        (λ m.
          set-cons _ _ (Reads-nodes _ targets _ m (all-Reads targets m))
            (set-last _ (Reads-node_field _ value _ m (node-Reads value m))))
        n
  stmt-Reads (aug_assign target o value) l n =
      Reads-header _ l
        (λ m. set-cons _ _ (Reads-node_field _ target _ m (node-Reads target m)) (
          set-cons _ _ (Reads-op_field _ _ o)
            (set-last _ (Reads-node_field _ value _ m (node-Reads value m)))))
        n
  stmt-Reads (ann_assign target annotation value) l n =
      Reads-header _ l
        (λ m. set-cons _ _ (Reads-node_field _ target _ m (node-Reads target m)) (
          set-cons _ _ (Reads-node_field _ annotation _ m (node-Reads annotation m))
            (set-last _ (Reads-node_field _ value _ m (node-Reads value m)))))
        n
  stmt-Reads (assert_stmt test msg) l n =
      Reads-header _ l
        (λ m.
          set-cons _ _ (Reads-node_field _ test _ m (node-Reads test m))
            (set-last _ (Reads-node_field _ msg _ m (node-Reads msg m))))
        n
  stmt-Reads break_stmt l n = Reads-bare _ l (λ m. Reads-pure) n
  stmt-Reads continue_stmt l n = Reads-bare _ l (λ m. Reads-pure) n
  stmt-Reads pass_stmt l n = Reads-bare _ l (λ m. Reads-pure) n
  stmt-Reads (import_stmt names) l n =
      Reads-header _ l (λ m. set-last _ (Reads-nodes _ names _ m (all-Reads names m))) n
  stmt-Reads (import_from source names) l n =
      Reads-header _ l
        (λ m.
          set-cons _ _ (Reads-string_field _ _ source)
            (set-last _ (Reads-nodes _ names _ m (all-Reads names m))))
        n
  stmt-Reads (match_stmt subject cases) l n =
      Reads-header _ l
        (λ m.
          set-cons _ _ (Reads-node_field _ subject _ m (node-Reads subject m))
            (set-last _ (Reads-nodes _ cases _ m (all-Reads cases m))))
        n

  expr-Reads :
      (e : Expr) (l : Option ℕ) (n : ℕ)
      → Reads n
          (serialize_expr e l)
          (read_node n)
          (described (code (expr_tag e)) (lineno_or_zero l) (describe_expr e))
  expr-Reads (constant v) l n = Reads-header _ l (λ m. Reads-constant _ m v) n
  expr-Reads (name id) l n = Reads-header _ l (λ m. set-last _ (Reads-string_field _ _ (some id))) n
  expr-Reads (call func args keywords) l n =
      Reads-header _ l
        (λ m. set-cons _ _ (Reads-node_field _ func _ m (node-Reads func m)) (
          set-cons _ _ (Reads-nodes _ args _ m (all-Reads args m))
            (set-last _ (Reads-nodes _ keywords _ m (all-Reads keywords m)))))
        n
  expr-Reads (attribute value attr) l n =
      Reads-header _ l
        (λ m.
          set-cons _ _ (Reads-node_field _ value _ m (node-Reads value m))
            (set-last _ (Reads-string_field _ _ (some attr))))
        n
  expr-Reads (subscript value slice) l n =
      Reads-header _ l
        (λ m.
          set-cons _ _ (Reads-node_field _ value _ m (node-Reads value m))
            (set-last _ (Reads-node_field _ slice _ m (node-Reads slice m))))
        n
  expr-Reads (bin_op left o right) l n =
      Reads-header _ l
        (λ m. set-cons _ _ (Reads-node_field _ left _ m (node-Reads left m)) (
          set-cons _ _ (Reads-op_field _ _ o)
            (set-last _ (Reads-node_field _ right _ m (node-Reads right m)))))
        n
  expr-Reads (unary_op o operand) l n =
      Reads-header _ l
        (λ m.
          set-cons _ _ (Reads-op_field _ _ o)
            (set-last _ (Reads-node_field _ operand _ m (node-Reads operand m))))
        n
  expr-Reads (bool_op o values) l n =
      Reads-header _ l
        (λ m.
          set-cons _ _ (Reads-op_field _ _ o)
            (set-last _ (Reads-nodes _ values _ m (all-Reads values m))))
        n
  expr-Reads (comparison left ops comparators) l n =
      Reads-header _ l
        (λ m.
          set-cons _ _ (Reads-node_field _ left _ m (node-Reads left m))
            (set-ops m ops (Reads-nodes _ comparators _ m (all-Reads comparators m))))
        n
  expr-Reads (if_exp test body orelse) l n =
      Reads-header _ l
        (λ m. set-cons _ _ (Reads-node_field _ test _ m (node-Reads test m)) (
          set-cons _ _ (Reads-node_field _ body _ m (node-Reads body m))
            (set-last _ (Reads-node_field _ orelse _ m (node-Reads orelse m)))))
        n
  expr-Reads (tuple elts) l n =
      Reads-header _ l (λ m. set-last _ (Reads-nodes _ elts _ m (all-Reads elts m))) n
  expr-Reads (PyAst.list elts) l n =
      Reads-header _ l (λ m. set-last _ (Reads-nodes _ elts _ m (all-Reads elts m))) n
  expr-Reads (set elts) l n =
      Reads-header _ l (λ m. set-last _ (Reads-nodes _ elts _ m (all-Reads elts m))) n
  expr-Reads (joined_str values) l n =
      Reads-header _ l (λ m. set-last _ (Reads-nodes _ values _ m (all-Reads values m))) n
  expr-Reads (dict keys values) l n =
      Reads-header _ l
        (λ m.
          set-cons _ _ (Reads-nodes _ keys _ m (all-Reads keys m))
            (set-last _ (Reads-nodes _ values _ m (all-Reads values m))))
        n
  expr-Reads (formatted_value value conversion format_spec) l n =
      Reads-header _ l
        (λ m. set-cons _ _ (Reads-node_field _ value _ m (node-Reads value m)) (
          set-cons _ _ (Reads-int_field _ _ conversion)
            (set-last _ (Reads-node_field _ format_spec _ m (node-Reads format_spec m)))))
        n
  expr-Reads (list_comp elt generators) l n =
      Reads-header _ l
        (λ m.
          set-cons _ _ (Reads-node_field _ elt _ m (node-Reads elt m))
            (set-last _ (Reads-nodes _ generators _ m (all-Reads generators m))))
        n
  expr-Reads (lambda args body) l n =
      Reads-header _ l
        (λ m.
          set-cons _ _ (node-Reads args m)
            (set-last _ (Reads-node_field _ body _ m (node-Reads body m))))
        n

  part-Reads :
      (p : Part) (l : Option ℕ) (n : ℕ)
      → Reads n
          (serialize_part p l)
          (read_node n)
          (described (code (part_tag p)) (lineno_or_zero l) (describe_part p))
  part-Reads (module_root body) l n =
      Reads-header _ l (λ m. set-last _ (Reads-nodes _ body _ m (all-Reads body m))) n
  part-Reads (arguments args vararg defaults) l n =
      Reads-header _ l
        (λ m. set-cons _ _ (Reads-nodes _ args _ m (all-Reads args m)) (
          set-cons _ _ (Reads-node_field _ vararg _ m (node-Reads vararg m))
            (set-last _ (Reads-nodes _ defaults _ m (all-Reads defaults m)))))
        n
  part-Reads (arg nm annotation) l n =
      Reads-header _ l
        (λ m.
          set-cons _ _ (Reads-string_field _ _ (some nm))
            (set-last _ (Reads-node_field _ annotation _ m (node-Reads annotation m))))
        n
  part-Reads (keyword nm value) l n =
      Reads-header _ l
        (λ m.
          set-cons _ _ (Reads-string_field _ _ nm)
            (set-last _ (Reads-node_field _ value _ m (node-Reads value m))))
        n
  part-Reads (alias nm asname) l n =
      Reads-header _ l
        (λ m.
          set-cons _ _ (Reads-string_field _ _ (some nm))
            (set-last _ (Reads-string_field _ _ asname)))
        n
  part-Reads (comprehension target iter ifs) l n =
      Reads-header _ l
        (λ m. set-cons _ _ (Reads-node_field _ target _ m (node-Reads target m)) (
          set-cons _ _ (Reads-node_field _ iter _ m (node-Reads iter m))
            (set-last _ (Reads-nodes _ ifs _ m (all-Reads ifs m)))))
        n
  part-Reads (withitem context_expr optional_vars) l n =
      Reads-header _ l
        (λ m.
          set-cons _ _ (Reads-node_field _ context_expr _ m (node-Reads context_expr m))
            (set-last _ (Reads-node_field _ optional_vars _ m (node-Reads optional_vars m))))
        n
  part-Reads (match_case pat guard body) l n =
      Reads-header _ l
        (λ m. set-cons _ _ (Reads-node_field _ pat _ m (node-Reads pat m)) (
          set-cons _ _ (Reads-node_field _ guard _ m (node-Reads guard m))
            (set-last _ (Reads-nodes _ body _ m (all-Reads body m)))))
        n
  part-Reads (match_value value) l n =
      Reads-header _ l (λ m. set-last _ (Reads-node_field _ value _ m (node-Reads value m))) n
  part-Reads (match_or patterns) l n =
      Reads-header _ l (λ m. set-last _ (Reads-nodes _ patterns _ m (all-Reads patterns m))) n
  part-Reads (match_as pat nm) l n =
      Reads-header _ l
        (λ m.
          set-cons _ _ (Reads-node_field _ pat _ m (node-Reads pat m))
            (set-last _ (Reads-string_field _ _ nm)))
        n
