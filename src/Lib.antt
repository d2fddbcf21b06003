-- ===== src/Lib.antt =====
-- nathra compiles a typed systems language in Python syntax to C. A stage 0 compiler in Python
-- (compiler/) parses a source file with Python's `ast`; the native compiler (native/src/), written
-- in nathra itself, receives the tree as bytes. This library models the path between the two, the
-- hash tables that the native compiler's analyses keep their names in, and the analysis that
-- divides a program into shared libraries that can be reloaded.
--
-- Parts:
-- - Wire: the byte level of compiler/ast_serial.py. Wire.Bytes has the formats of Python's `struct`
--   module, little-endian and two's complement; Wire.Utf8 the strict UTF-8 codec; Wire.Monad the
--   writer (`Put`, the bytes that a call appends to `self.buf`, or an exception) and the reader (from
--   the bytes not yet read to a value and the rest, or an exception). Wire.Reads and Wire.Total state
--   when a reader reads back what a writer wrote and when a reader ends, with the rules by which
--   both are composed.
-- - PyAst: Python's nodes, by the dispatch table of compiler/ast_serial.py.
-- - AstSerial: `AstSerializer` (Tags, Fields, Writer) and `AstDeserializer` (Value, Reader,
--   ReadNode) method by method; Describe says which dicts a tree is to become.
-- - NativeAst: native/src/ast_nodes.py, one reader for each struct (Fields, Stmts, Exprs, Parts,
--   ReadNode), over the buffer reader of runtime/nathra_rt.h; Describe says which structs a tree is
--   to become, and Count has `ast_count_nodes`.
-- - StrMap: native/src/strmap.py, the hash map and the hash set of strings. Hash has `str_hash`;
--   Machine the products of 32-bit integers; Probe the slots and the loop of `_strmap_find_slot`;
--   Table the operations of `StrMap` and Set those of `StrSet`, each with its own loop; Locate
--   compares the loops that look a key up. Loops and Mask say what the loops find and that they
--   come to every slot; View, Invariant, Store,
--   Entry, Grow, Rehash and Delete carry the invariant `IsWellFormed` and the finite map that a
--   table stands for through the operations, SetAdd, SetGrow and SetRoom the same for
--   sets without tombstones; Laws, DeleteLaws, SetLaws, SetInsert and SetDuplicate conclude.
-- - TypeMap: compiler/type_map.py (Stage0) and its port native/src/native_type_map.py (Native), each
--   with its `map_type`; Mangle has both versions of `mangle_type`, Extract the readers of arrays,
--   lists, bit fields and function pointers, Pointers that of function pointers in the port; Bases
--   and Agree compare the two.
-- - NativeAnalysis: of native/src/native_analysis.py the tests on cold bodies (Cold) and on calls of a
--   name (Calls), over the trees of NativeAst and the sets of StrMap.
-- - Topology: compiler/topology.py, from the compiled modules to the build plan. Modules has
--   `add_module`, over what it asks of the compiler (the records FunctionSource and ModuleSource);
--   Classify the categories of modules and the heap violations; Clusters the greedy merging, whose
--   `merge_loop` is the loop under the safety cap; Overrides `pin_together` and `_apply_overrides`;
--   Edges `add_call_edges`; Analyze the cross-cluster edges and `analyze`; Plan the
--   three build plans, Plan.Calls their calls and ABI hashes; Emit the C text. Pick, Round, Totals, Loop, Partition and Uniform follow the
--   merging; Together, Pinned and Laws the pins; Tables, Libs, Linked and Cross the calls; Abi and
--   Bound the hashes, Groups and Registers the functions that register dispatch entries.
-- - Tests: the theorems at concrete inputs, and runs.
--
-- Modelling. A Python string is the list of its code points, a byte string a list of numbers, a
-- float its 64-bit pattern, an int an integer without bounds. A node carries the attributes that
-- the serializer reads, and the `orelse` of loops, which it does not; `lineno` is optional, as
-- `getattr` with a default treats it. The recursion of both node readers runs on fuel of one more
-- than the length of the input, which suffices as each node takes three bytes; `out_of_fuel` is no
-- outcome of the program. The native reader's arena is taken to have room: its nodes are immutable
-- once read, so a tree of values stands for them. An abort of the native reader past the end of its
-- buffer is the error `read_past_end`. An array of a table is a function on its indexes; that the
-- indexes stay below the capacity is a lemma of StrMap.Loops. `strmap_set` and `_strmap_grow` call
-- each other, on fuel of two calls, which suffices as a table that has just doubled does not grow
-- again. The counters of a table are natural numbers, and a product of two of them is `none` when
-- it is not below 2 ^ 31, as overflow of an `int32_t` is not defined in C; a table of capacity up
-- to 2 ^ 28 makes no such product. In Topology a set or a dict is a list in the order of its keys,
-- where Python leaves the order of a set open; a weight is a Python float, of which the interface Weight lists
-- what is used; a cluster, a library and a module are values at a position, as no two positions
-- share an object; `os.path.join` is a parameter; of a FunctionInfo the fields that are read are
-- kept; a warning is a constructor without its wording. What `add_call_edges` asks the compiler,
-- its weighted call graph and the imports, is an argument. `get_or` has a default that no call of
-- the code comes to.
--
-- In TypeMap the dict of tuple types is passed through `map_type`; Python's `str` of a constant,
-- the runtime's `str_from_int` and the native alias map, by its look-ups, are parameters. In the
-- port a payload's constructor stands for the tag of its node.
--
-- Not modelled: the rest of native/src/native_analysis.py, `get_vec_info` and `gen_typed_list` of
-- compiler/type_map.py, the `print` methods of compiler/topology.py, the C text that the code
-- generators emit, the command line, the build scripts and the runtime in C but for the functions
-- named above.
pub mod Common
pub mod Wire
pub mod PyAst
pub mod AstSerial
pub mod NativeAst
pub mod StrMap
pub mod TypeMap
pub mod NativeAnalysis
pub mod Topology
pub mod Tests
