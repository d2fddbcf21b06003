-- ===== src/NativeAnalysis/Cold.antt =====
-- native/src/native_analysis.py, the cold statements and bodies.
use nathra.Common.{codes, Bool, true, false, ◌&&◌, ◌||◌, not, none, some, ◌==◌}
use nathra.StrMap.Hash.{str_eq}
use nathra.Wire.Bytes.{Bytes}
use nathra.StrMap.Set.{StrSet, strset_has}
use nathra.NativeAst.Types.{
  NrStr, AstNode, null, node, AstNodes, nil, cons, Payload, ast_raise, ast_expr_stmt, ast_if,
  ast_call, ast_name,
}

-- The comparison of a string with a text, and a set's answer for it; NULL is no string.
abbrev pub is_text : NrStr → Bytes → Bool
is_text none text = false
is_text (some s) text = str_eq s text

abbrev pub set_has : StrSet → NrStr → Bool
set_has names none = false
set_has names (some s) = not (strset_has names s == 0)

-- The constructor of the payload stands for the tag.
unfoldable pub stmt_is_cold : StrSet → AstNode → Bool
stmt_is_cold cold_funcs (node tag l (ast_raise exc)) = true
stmt_is_cold cold_funcs
      (node tag l
        (ast_expr_stmt (node tag' l' (ast_call (node tag'' l'' (ast_name id)) args keywords)))) =
    is_text id (codes "abort") || set_has cold_funcs id
stmt_is_cold cold_funcs _ = false

-- `orelse.count > 0`
abbrev has_any : AstNodes → Bool
has_any nil = false
has_any (cons x xs) = true

unfoldable mutual
  unfolding stmt_is_cold

  -- The last statement decides.
  pub body_is_all_cold : StrSet → AstNodes → Bool
  body_is_all_cold cold_funcs nil = false
  body_is_all_cold cold_funcs (cons last nil) = node_is_cold cold_funcs last
  body_is_all_cold cold_funcs (cons x (cons y ys)) = body_is_all_cold cold_funcs (cons y ys)

  pub node_is_cold : StrSet → AstNode → Bool
  node_is_cold cold_funcs null = false
  node_is_cold cold_funcs (node tag l payload) =
      stmt_is_cold cold_funcs (node tag l payload) || branches_are_cold cold_funcs payload

  -- An `if` with two cold branches.
  pub branches_are_cold : StrSet → Payload → Bool
  branches_are_cold cold_funcs (ast_if test body orelse) =
      has_any orelse && (body_is_all_cold cold_funcs body && body_is_all_cold cold_funcs orelse)
  branches_are_cold cold_funcs _ = false
