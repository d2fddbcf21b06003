-- ===== src/Tests/Analyses.antt =====
-- Runs of the native compiler's tree walks.
use nathra.Common.{codes, ◌≡◌, refl, true, false, some}
use nathra.StrMap.Hash.{str_eq}
use nathra.StrMap.Set.{strset_new}
use nathra.NativeAst.Types.{
  AstNode, null, node, nil, cons, ast_call, ast_name, ast_keyword, ast_return, ast_bin_op,
  ast_raise, ast_if,
}
use nathra.NativeAnalysis.Cold.{stmt_is_cold, body_is_all_cold}
use nathra.NativeAnalysis.Calls.{expr_calls_name, func_calls_self}

abbrev f_name : AstNode
f_name = node 0 0 (ast_name (some (codes "f")))

abbrev f_call : AstNode
f_call = node 0 0 (ast_call f_name nil nil)

-- `return x + f()` calls `f`.
sum_calls :
    func_calls_self
      (codes "f")
      (cons (node 0 0 (ast_return (node 0 0 (ast_bin_op null 0 f_call)))) nil)
    ≡ true
unfolding func_calls_self expr_calls_name str_eq
sum_calls = refl

-- `return g(x=f())` does, too, and is not found.
keyword_calls :
    func_calls_self (codes "f") (
      cons
        (node 0 0 (
          ast_return (
            node 0 0 (
              ast_call
                (node 0 0 (ast_name (some (codes "g"))))
                nil
                (cons (node 0 0 (ast_keyword (some (codes "x")) f_call)) nil)))))
        nil)
    ≡ false
unfolding func_calls_self expr_calls_name str_eq
keyword_calls = refl

-- A body that ends in an `if` is cold if both branches raise.
both_raise :
    body_is_all_cold (strset_new 16) (
      cons
        (node 0 0 (
          ast_if null
            (cons (node 0 0 (ast_raise null)) nil)
            (cons (node 0 0 (ast_raise null)) nil)))
        nil)
    ≡ true
unfolding body_is_all_cold stmt_is_cold
both_raise = refl

one_raises :
    body_is_all_cold
      (strset_new 16)
      (cons (node 0 0 (ast_if null (cons (node 0 0 (ast_raise null)) nil) nil)) nil)
    ≡ false
unfolding body_is_all_cold stmt_is_cold
one_raises = refl
