-- ===== src/Lib.antt =====
-- The language Tx: its runtime, tx-runtime/include/tx.
--
-- A scanner turns the source into tokens, a parser of one pass writes a chunk of byte code, and a
-- virtual machine runs it. Modelled here:
--
-- * Scanner (scanner.hxx, scanner_inl.hxx, unicode.hxx; the kinds of token of tokens.inc are
--   TokenType): State has the class and its steps, `is_at_end`, `advance`, `peek`, `match` and the
--   loops over blanks; Keyword has `check_keyword` and `identifier_type`; Number has `number` and
--   `hex_number`; Text has the escapes, `string` and `raw_string`; Scan has `identifier` and
--   `scan_token`; Progress has the tokens, and its Numerals what a numeric literal is. A pointer
--   into the source is an index, and a string value is the list of its bytes. The conversion of
--   floating point literals is a parameter, which says how much of the text it has read.
-- * Chunk (chunk.hxx; the instructions of opcodes.inc are OpCode): the operands of instructions as
--   bytes, the table of lines, `write_line`, `write_bytes`, `write_instruction`, `get_line`.
-- * Value (value.hxx): the tagged union of values.
-- * HashMap (hash_map.hxx, `grow_capacity` of memory_inl.hxx): the table with open addressing;
--   `insert` is `HashMap::set`. Keys, hash and markers are parameters with the laws of equality.
--   Probe has the search, Good the invariant of the entries, Keep and Lookup the writes and reads,
--   Rehash, Update, Insert and Union the operations.
-- * TypeInfo (type.hxx, type_inl.hxx): static types, equality and sets of types, and
--   `type_check_assign` (`check_assign` on types, `assign_sets` on sets); Check has the checks of
--   operators, calls and casts.
-- * DynArray (dyn_array.hxx): the growing array as memory cells and a count.
-- * Utils (utils.hxx, hash_murmur.hxx): powers of two, the count of digits, the hash of bytes.
-- * Upvalues (vm_inl.hxx): `capture_upvalue` and `close_upvalues` on the list of open upvalues.
-- * Operators (vm_inl.hxx): `binary_op` and `negate_op` on the stack, whose arithmetic is a parameter,
--   and the test of the instruction DIVIDE.
-- * Parser (compiler.hxx, compiler_inl.hxx; the objects it makes are of object.hxx): State has the
--   parser, the stack of its compilers, the innermost first, and the monad of its actions; Tokens
--   has the errors, `advance`, `match`, `consume` and `synchronize`; Emit the constants and the
--   instructions with their jumps; Scopes `begin_compiler` to `begin_loop`; Loops the jumps out of a
--   loop; Variables the locals and upvalues; Globals the strings and globals; Types the types and
--   parameters; Rules the table of `get_rule`; Steps the parts of the grammar without recursion;
--   Grammar everything that is recursive, from `expression` to `statement`; Compile `compile`. A
--   function becomes an object of the heap when its compiler ends, an error is the token and the
--   message that are printed, and the hash maps of constants, globals and strings are lists of
--   entries here, of which HashMap has the table. The comparison of floats is a parameter. Keeps has
--   the rules by which an invariant passes through an action, and Invariant through the grammar;
--   Sound has the invariant of the compilers and Errors that of the errors; Jumps, Closures, Leads and
--   PoppedLocals are about what is written and found.
-- * Vm (vm_inl.hxx): the jumps of the run loop, on the bytes of the code.
--
-- The parts meet where the source has them meet: the checks of TypeInfo speak of what Operators runs,
-- the hash map and the array grow by the same `grow_capacity`, a chunk holds values, and the
-- parser takes its tokens from the scanner and writes its code by the operations of the chunk.
--
-- Loops run on fuel. A loop over the source has one round more than the source has bytes, since a
-- round that does not repeat its state passes a byte; `get_line` has one more than its table has
-- entries, since a round leaves out an entry; the search of a hash map has one for each entry, since
-- the probes meet each once. What runs out of fuel, or repeats its state for ever, is `stuck`, or
-- `none` for `get_line` and the hash map; undefined behaviour, and so an assertion
-- that fails, is a value of its own. The grammar is
-- recursive and runs on fuel that `compile` is given: the theorems on it speak of the runs that return,
-- and a test runs it on a program.
--
-- Not modelled: the run loop but for its operators and jumps, with its frames and calls, raw
-- allocation and the garbage collector, input and output, the layout of the text of errors, and the
-- text of the disassembler.
pub mod Prelude
pub mod OpCode
pub mod Value
pub mod Chunk
pub mod TokenType
pub mod Scanner
pub mod Utils
pub mod DynArray
pub mod HashMap
pub mod TypeInfo
pub mod Upvalues
pub mod Operators
pub mod Vm
pub mod Parser
pub mod Tests
