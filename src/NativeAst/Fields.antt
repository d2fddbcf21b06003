-- ===== src/NativeAst/Fields.antt =====
-- native/src/ast_nodes.py: strings, fields and node lists, over the reader of runtime/nathra_rt.h.
-- The first byte of a field is read and, but for `FK_NONE`, not looked at.
use nathra.Common.{ℕ, zero, suc, ◌+◌, ◌^◌, ℤ, pos, negsuc, [], ◌∷◌, none, some, ◌==◌, if◌then◌else◌}
use nathra.Wire.Result.{read_past_end}
use nathra.Wire.Bytes.{Bytes, le_value, of_twos}
use nathra.Wire.Monad.{Reader, ◌>>=◌, pure, read_exact, when◌then◌otherwise◌}
use nathra.NativeAst.Types.{AstNode, null, AstNodes, nil, cons, NrStr}

-- `nr_read_bytes` aborts the program when fewer than `n` bytes are left.
unfoldable pub nr_read_bytes : ℕ → Reader Bytes
nr_read_bytes = read_exact read_past_end

unfoldable pub nr_read_u8 : Reader ℕ
unfolding nr_read_bytes
nr_read_u8 = nr_read_bytes 1 >>= λ bs. pure (le_value bs)

unfoldable pub nr_read_u16 : Reader ℕ
unfolding nr_read_bytes
nr_read_u16 = nr_read_bytes 2 >>= λ bs. pure (le_value bs)

unfoldable pub nr_read_i32 : Reader ℤ
unfolding nr_read_bytes
nr_read_i32 = nr_read_bytes 4 >>= λ bs. pure (of_twos (2 ^ 31 + 2 ^ 31) (le_value bs))

unfoldable pub nr_read_i64 : Reader ℤ
unfolding nr_read_bytes
nr_read_i64 = nr_read_bytes 8 >>= λ bs. pure (of_twos (2 ^ 63 + 2 ^ 63) (le_value bs))

unfoldable pub nr_read_f64 : Reader ℕ
unfolding nr_read_bytes
nr_read_f64 = nr_read_bytes 8 >>= λ bs. pure (le_value bs)

-- `nr_arena_str_new` copies up to the first zero byte.
unfoldable pub c_str : Bytes → Bytes
c_str [] = []
c_str (b ∷ bs) = if b == 0 then [] else b ∷ c_str bs

unfoldable pub ast_read_str : Reader NrStr
unfolding nr_read_i32 c_str
ast_read_str = do
  n ← nr_read_i32
  elim n [ negsuc _ ↦ pure none | pos k ↦ nr_read_bytes k >>= (λ buf. pure (some (c_str buf))) ]

unfoldable pub ast_read_node_field : Reader AstNode → Reader AstNode
unfolding nr_read_u8
ast_read_node_field self = nr_read_u8 >>= λ kind. when kind == 7 then pure null otherwise self

unfoldable pub ast_read_nodes : Reader AstNode → ℕ → Reader AstNodes
ast_read_nodes self zero = pure nil
ast_read_nodes self (suc n) = do x ← self; xs ← ast_read_nodes self n; pure (cons x xs)

-- A count of zero or less gives the empty list.
unfoldable pub ast_read_counted : Reader AstNode → ℤ → Reader AstNodes
unfolding ast_read_nodes
ast_read_counted self (negsuc _) = pure nil
ast_read_counted self (pos n) = ast_read_nodes self n

unfoldable pub ast_read_node_list : Reader AstNode → Reader AstNodes
unfolding nr_read_u8 nr_read_i32 ast_read_counted
ast_read_node_list self = do kind ← nr_read_u8; count ← nr_read_i32; ast_read_counted self count

unfoldable pub ast_read_string_field : Reader NrStr
unfolding nr_read_u8 ast_read_str
ast_read_string_field = nr_read_u8 >>= λ kind. ast_read_str

unfoldable pub ast_read_int_field : Reader ℤ
unfolding nr_read_u8 nr_read_i64
ast_read_int_field = nr_read_u8 >>= λ kind. nr_read_i64

unfoldable pub ast_read_float_field : Reader ℕ
unfolding nr_read_u8 nr_read_f64
ast_read_float_field = nr_read_u8 >>= λ kind. nr_read_f64

unfoldable pub ast_read_bool_field : Reader ℕ
unfolding nr_read_u8
ast_read_bool_field = nr_read_u8 >>= λ kind. nr_read_u8

unfoldable pub ast_read_op_field : Reader ℕ
unfolding nr_read_u8
ast_read_op_field = nr_read_u8 >>= λ kind. nr_read_u8
