-- ===== src/Lib.antt =====
-- NibLang: a compiler from a small typed language to bytecode, and the machine that runs it.
--
-- The compiler (compiler/) reads a source with the tokenizer, builds a tree with the parser, binds
-- names in a tree of lexical scopes, checks types, and emits the bytecode of each function through
-- an assembler; the program builder links the functions into an image, with a table for virtual
-- calls, and the machine (src/) runs the image. Errors are collected with their spans.
--
-- The files, and the code that they are about:
-- - Assembler: compiler/codegen/assembler.h and assembler.cc, with the opcodes of src/types.h.
--   `emit` is one call of a method of `Assembler`, with the arguments that the method has; `build`
--   is `Build` with its three loops over waiting addresses, which are kept in 32 bits as in the code;
--   `dump_byte_code` is `DumpByteCode`, a list of lines in place of the printing. An abort
--   (`std::abort`, `LOG(FATAL)`, an assertion, a read behind the end of a vector) is `none`.
-- - Tokenizer: compiler/parser/tokenizer.h and tokenizer.cc. `next` is `Tokenizer::next`; the state
--   holds the rest of the source in place of the offset into it, and the offset as a number.
--   Sources are bytes of the C locale.
-- - Parser: `AdvanceToken`, `ConsumeToken` and `SynchronizeOnError` of compiler/parser/parser.cc,
--   the token stream under the grammar.
-- - Scope: compiler/scope_manager.h and scope_manager.cc, with `NamedBinding` of compiler/types.h.
--   Identities of scopes index a list; the maps of names are association lists.
-- - Errors: compiler/error_collector.h, without the printing.
-- - Dispatch: `BuildDispatchTable` of compiler/codegen/virtual_dispatch.cc, the virtual section that
--   `GenerateImage` of compiler/codegen/program_builder.cc writes, the copy of it that `init_vm` of
--   src/vm.c makes, and the selection of a function by `OP_CALL_VIRTUAL`. The size of the section is
--   cast to 16 bits, and the machine's copy has no more bytes than that. Sums of slots wrap at 2^32
--   as the code's do; the sort of the code is an insertion sort by the same comparison.
-- - Types: the interning of unions, intersections, optionals and placeholders in
--   compiler/type_registry.h and type_registry.cc. The maps and the table are association lists.
-- - Vm: src/vm.c with the values of src/types.h and the functions of src/vm.h. `vm_run` is
--   `vm_run` with at most so many turns of the loop of `run_frame`, `step` one turn, `decode` the
--   opcode and its operands, `execute` the `switch`. The heap is a list of cells, one for each
--   object with a `ref_count_t`; a deleter is the list of the values that it releases. `Result`
--   holds what stops a run: a failed assertion, what C leaves undefined, a touch of a freed cell, and
--   the limits of the model, where the code goes on: a count that would pass 32 bits, and a bound
--   closure with too few arguments, for which the code takes the values left above the top of the
--   stack. Operands that other operations read there, or as of another type than they have, are
--   undefined. Native functions, built-in ones included, are values that a program carries, and the
--   result on runs ends where one is called. The arithmetic of `float` is a parameter.
-- - TypeContext: `IsTypeSubsetOf`, `AreDisjointTypes` and `GetUnionOf` of compiler/type_context.cc. A
--   `std::set` is a list in order; the symbols of structs are a function of their identities. What
--   types mean is a parameter of the results that speak of values.
-- - Base: lists, bytes, words and options that all of these share. Tests in each folder run the
--   definitions.
--
-- Loops that no list bounds run on fuel, with `none` where it runs out: one round for each byte
-- left and two more for the token stream, one more than the identity for the climb through the
-- scopes (parents come before their children), one more than the slots for the search for a shift
-- (behind the table every row fits), one more than the bytes for the listing of code, one more than
-- the values that cells hold for a release, the ranks of two types for the test of subsets. That the
-- fuel is enough is part of the results. A run of the machine is bounded by a number of turns, and
-- the results hold for every such number. Where the code narrows a size, results ask that it fits:
-- buffers have less than 2^32 bytes, the virtual section less than 2^16.
--
-- Not modelled: the grammar, the type checker, the generator of bytecode, the other sections of the
-- image, the loading of an image and the built-in functions of the machine with its containers, and
-- all printing and logging. The queue of promises calls functions between runs; no run is entered from
-- inside another. Numbers are natural numbers, or integers where the code's are signed; a
-- floating-point number is its 32 bits.

pub mod Base
pub mod Assembler
pub mod Tokenizer
pub mod Parser
pub mod Errors
pub mod Scope
pub mod Dispatch
pub mod Types
pub mod TypeContext
pub mod Vm
