-- ===== src/Lib.antt =====
-- A model of yosys-slang, the SystemVerilog frontend of Yosys that is built on the slang library
-- (https://github.com/povik/yosys-slang): what the frontend makes of slang's syntax tree, where it
-- computes on its own data.
--
-- The parts and the files:
-- - Base and its children: shared names, lists measured by native numbers, integers, Boolean tests.
-- - Rtlil: constants, bits and signals of Yosys (kernel/rtlil.h), as lists of bits, the lowest first.
-- - Variables (src/variables.h, src/variables.cc, class Variable of src/slang_frontend.h): bits of HDL
--   variables, and vectors of them in their two representations (a chunk, or a vector of bits).
-- - Addressing (src/addressing.cc): the resolver of a select, and what it extracts, embeds and shifts.
--   The selects with a signal as index are read at one instant, at which the index has a value.
-- - Builder (src/builder.cc): the folding of comparisons by three-valued logic, the gates that are
--   replaced by wires where an operand is constant, and the initial data of memories. Cells and the
--   evaluation of constants are Yosys's; they are parameters, with the documented meaning of each cell
--   as a law.
-- - State (VariableState of src/slang_frontend.cc): the values of variables while a process is
--   executed, and how a branch is entered and left.
-- - Cases (src/cases.h, src/cases.cc): the tree of switches and cases that a process becomes, its
--   lowering to RTLIL and the enable signals of latches.
-- - Async (src/async_pattern.cc): the decision whether an `always` block is combinational or clocked, and
--   the asynchronous loads of a clocked one, with as much fuel as there are triggers.
-- - Procedural (src/procedural.cc): assignments of a process, what a variable is read as, escapes from
--   loops and functions, and the limit on unrolling.
-- - Statements (src/statements.h): the execution of a process. Merge is what SwitchHelper::finish makes of
--   the branches' updates, Context is SwitchHelper on the tree that is being built, Guards is what is
--   done around a body, Foreach is the indices of a foreach loop, and Executor the handlers, with their
--   parts in Executor/Steps. Kept, Discipline, Fuel and Initial are about runs of the handlers.
-- - Lvalue (src/lvalue.cc): left-hand sides, and the bits that a static one stands for.
-- - Readmem (src/slang_frontend.cc, str_to_state_vect and handle_readmem): the words of a memory file, its
--   comments, the loop over the words (Load) and where they are assigned (flush_words).
--
-- The parts interact as in the source: the bits of Variables are the keys of State and the left-hand
-- sides of the actions of Cases, and selects of Addressing cut them. The handlers of Statements pass
-- a context on, whose process is that of Procedural with the values of State, and leave a tree of Cases.
--
-- A run that the source ends by `log_assert` or `log_abort` has the value `none`. Unsigned machine
-- integers are natural numbers and `int` is an integer without bounds, except where the value of an
-- index of the design enters: the offsets of a resolved constant index are read as the lowest 32 bits, and
-- the sums and products of AddressingResolver::embed wrap at 32 bits, as the overflow does that C++ leaves
-- undefined. Other widths and offsets stay far below the limits. The tree of adders in Builder recurses on fuel, the number of operands, and each
-- level halves it. A loop of the design is executed on fuel, two rounds more than the limit on
-- unrolling, which ends the loop before. A hash table is a list of entries, and a placeholder signal is a
-- wire with the next number.
--
-- Not modelled: slang's syntax tree and what walks over it (elaboration, most of src/slang_frontend.cc,
-- src/memory.h), LValue::analyze, calls of functions and assertions in src/statements.h, diagnostics
-- and black boxes; of $readmemh and $readmemb, the arguments and the opening of the file.
-- What an expression of the design evaluates to, and what it changes, is a parameter of Statements (the
-- record Language), and so is the order of symbols, which the source reads off the syntax tree.
pub mod Base
pub mod Rtlil
pub mod Variables
pub mod Addressing
pub mod Builder
pub mod State
pub mod Cases
pub mod Async
pub mod Procedural
pub mod Lvalue
pub mod Readmem
pub mod Statements
