-- ===== src/Lib.antt =====
-- The Gab compiler, written in C under src/: its lexer, its scopes, its arena, its hash map, its
-- intermediate representation, the constant folding pass, liveness, and its borrow checker.
--
-- How the parts meet. The lexer (src/syntax/lexer.c) makes the tokens that the parser asks for one by
-- one, and scopes (src/scope.c) hold what the names stand for. Lowering builds a function of the
-- intermediate representation (src/mir/mir.h, src/mir/mir.c): blocks of instructions on values, places
-- and constants. `mir_fold` rewrites operations on constants into constants and drops the constants
-- that nothing reads. The borrow checker (src/mir/mir_borrowck.c) runs over the blocks with a state for
-- each (src/mir/mir_state.c), merges the states where paths meet, invalidates the borrows of what is
-- dropped, and asks liveness (src/mir/mir_liveness.c) whether a borrow is still read where the storage
-- that it names ends. The emitter (src/llvm/llvm_emit.c) builds LLVM instructions from what is left.
--
-- The files:
--   Lexer                src/syntax/lexer.h, src/syntax/lexer.c. Lexer/Tokens has the kinds of token,
--                        Cursor the state with `lexer_eat`, Trivia, Literal and Word the parts of
--                        `lexer_next`, which Next puts together. Moves, Total, Texts, Progress and
--                        Spans follow the cursor through them, Places is about lines and columns,
--                        Comments and Skipped about trivia, Ends about a whole text, and RoundTrip
--                        about literals and spellings
--   Prelude, Prelude/*   the names, tests and list lemmas that all share
--   Types, Types/Laws    src/type/type.h, src/type/type.c, src/constant.h, src/constant.c,
--                        src/decl_id.h: kinds, types as addresses, constants and their predicates
--   Types/Ids            src/decl_id.h and the end of src/type/type.c: the keys of declarations,
--                        instances and conformances, compared and hashed
--   Types/Kinds          src/type/type.c: the other queries that switch on a type's kind
--   Scope                src/scope.h and src/scope.c: scopes and symbols; Scope/Lookup is about looking
--                        names up, Scope/Bind about binding them
--   Word, Word/Laws      C's machine integers as bit patterns, with their wrap-around
--   Mir                  src/mir/mir.h: the data types of the representation
--   Mir/Build            src/mir/mir.c: `mir_block_create`, `mir_value_create`, `mir_emit` and the
--                        other operations on a function; Mir/Build/Laws has their theorems
--   Mir/Fold             src/mir/mir_fold.c: the pass, function by function. Mir/Fold/Words and
--                        Mir/Fold/Meaning relate what it stores to the target's words, Unary, Binary
--                        and Sound treat one instruction, Pass the loops, Unread the removal, and
--                        Usize folding at the width of a pointer
--   Mir/State            src/mir/mir_state.c: slots and states. Mir/State/Look reads a slot along a
--                        path of fields, Lattice is about the merge of slots, Merge about the merge of
--                        states, Invalidate about dropped values, Fields about opening the fields
--                        of a slot and setting it whole
--   Mir/Liveness         src/mir/mir_liveness.c: the places of a function, what an instruction does to
--                        a set of them, and the loop over the blocks. Meaning says what an
--                        instruction reads and writes and which places are live. Uses has the table
--                        that the code follows, Bits and Backwards follow one place by it, Sizes,
--                        Unions and Settle a turn of the loop, Fixpoint its end, Paths, Justified and
--                        Sound compare the sets with the table, Plain and Exact the table with the
--                        meaning; Queries and Answers are about the questions
--   Mir/Borrowck         src/mir/mir_borrowck.c: the walk over the instructions of a block. Places has
--                        the slots of places, Sources the values that a value borrows from, Reads
--                        and Stores the cases of `flow_inst`, Loop `mir_borrowck` itself; Whole and
--                        Errors are about what is reported, Search and Total about the search for
--                        sources and the walk ending
--   HashMap              src/util/hash_map.h: the table that `GAB_HASH_MAP` generates, which the states
--                        and the registries of the compiler are kept in. HashMap/Probe is about the
--                        loop of `probe`, Place and Count about one write, Search is the view that
--                        the operations are measured by, and Laws, Insert and Resize have the
--                        theorems on `lookup`, `delete`, `insert` and `resize`
--   Arena, Arena/Alloc   src/memory/arena.c and src/util/align.h: the bump allocator, as its chain of
--                        blocks split at the current one. Arena/Given says what an
--                        allocation takes, Arena/Rewind has the checkpoints, and Arena/Grown what
--                        allocations leave as it was
--   Llvm, Llvm/Machine   src/llvm/llvm_emit.c: what is emitted for constants and arithmetic; LLVM's
--                        own operations are a record of parameters with their documented laws
--
-- How C is read. A pointer is an address, `NULL` is `none`, and a growable array is a list.
-- Integers are natural numbers. The words of the compiled program, hashes, the sizes and offsets
-- of the arena and the bits of the parameters that a result borrows from wrap around at their
-- width; a signed integer is its bit pattern. Ids, indices and counts of elements in memory are
-- counted without a bound. A float is its bit pattern, and its arithmetic a parameter. Arrays and
-- nodes that the compiler copies into an arena are values of the model, so copying is the
-- identity. What the registry of types tells the passes, how many fields a struct has and whether
-- a type borrows memory or is unique, is a parameter, and so is what is known of the parameters of
-- a callee.
--
-- The bounds. The theorem on `arena_alloc` asks that a size fits in a `size_t`, as its test
-- `offset + size > capacity` wraps around. A shift by 32 or more, which C leaves undefined where a
-- function has so many parameters, gives no bit. Lines, columns and offsets of the lexer, which
-- are ints, are counted without a bound: no source file is as long as 2^31 bytes. The lexer skips
-- trivia in at most as many turns as bytes are left, and one more; a text has no more tokens than
-- that. Liveness takes at most as many turns as there are bits in its sets, and one more. The
-- search for the sources of a value follows definitions, whose ids decrease, and a lookup follows
-- scopes, whose parents are older. The loop of `mir_borrowck` over the blocks has fuel too, and no
-- theorem is about it. The probe of a hash map has as much fuel as there are slots: it meets an
-- empty slot before it has gone around. The fuel of `indexed_container` is the length of a chain
-- of references.
--
-- The theorems on liveness as a whole are about functions without stores to `*r` and `a[i]`, which
-- the code takes for a write of `r` and of `a`, and without the instructions that clear a place,
-- which come in with the elaboration of drops, after liveness was used. Those that the fold keeps
-- what is computed leave out arithmetic at `usize`, which the code folds at the width of an `i32`.
--
-- Not modelled: the parser, the checker of the syntax tree, the registries of types and functions,
-- lowering and drops, all of which come with the type registry; printing and the driver, which are
-- input and output; and the emission of memory accesses, calls and control flow, which is calls into
-- LLVM.
mod Prelude
pub mod Scope
pub mod Types
pub mod Mir
pub mod Word
pub mod Llvm
pub mod HashMap
pub mod Arena
pub mod Lexer
