-- ===== src/Lib.antt =====
-- A model of the programs of this repository, with the theorems that make them correct. It covers the
-- simulator of a pipelined RISC-V processor, riscv-pipelined-cpu-sim, the virtual machine
-- leechVM-master, the translator to x86 code BinaryTranslator-main,
-- the processor of ProgrammingLanguage-main, whose byte code it translates, and of the compiler JIT-AOT-Compilers-master the markers that its passes put on blocks
-- and loops, the map of free registers and the disjoint sets for dominators.
--
-- The program. The simulator runs RV32I programs on a processor of five stages. Its parts are the
-- combinational modules and memories of riscv-pipelined-cpu-sim/modules, and the control unit, the
-- instruction fields, the stages and the hazard unit of riscv-pipelined-cpu-sim/pipeline.
-- `Pipeline::tick` runs the stages from the last to the first on the registers between them, then
-- clocks these registers and the program counter and asks the hazard unit what the next tick shall
-- hold, clear or bypass. `Pipeline::run` ticks until an exception ends the program.
--
-- The passes of the compiler ask a `MarkerManager` for a marker, set it on the objects that they
-- have seen, which are `Markable`, and release it at their end. The register allocator takes registers from a
-- `RegMap` and gives them back. The search for dominators keeps a forest of blocks in a `DSU` and asks it
-- for the ancestor of least semi-dominator.
--
-- leechVM runs a byte code like that of Python. A file has functions, each with its constants and its
-- names, and one list of instructions; `LeechFile` writes it to a stream of bytes and reads it back. The
-- executor keeps a stack of frames, each with a stack of objects and a map of variables; it takes the
-- instruction at `pc` and calls the callback of its opcode, which works on the topmost frame, calls a
-- function, which adds a frame, or returns from one.
--
-- BinaryTranslator-main translates the byte code of a stack machine to x86-64 code. `main` reads the
-- bytes of a program into an array of commands, lets the optimizer merge some of them, which marks the
-- others as skipped, gives each command that is left its address in the program and in the x86 code,
-- replaces the targets of the jumps, and writes the code of each command to a buffer. `WriteInelf`
-- appends the code of printf and scanf, which the code for OUT and IN calls. The processor of
-- ProgrammingLanguage-main runs the same byte code itself: `Execute` takes the command at `ip` and carries it
-- out on a stack, registers and memory.
--
-- The files. Base has the names that all modules share: Base/Tests the Boolean tests, Base/Word the
-- machine words, Base/Int signed integers, Base/Bits bit operations, Base/Exits the outcome of a
-- member function that may throw, Base/Lists lists with their length. Riscv has a module for each part of the simulator:
--   Riscv/Exceptions    address_exceptions.h, ebreak_exception.h, unsupported_instruction.h
--   Riscv/Extension     common.h (signExtendFromByte, signExtendFromByte2)
--   Riscv/Gates         gates.h (Add, And, Or, Multiplexer2, Multiplexer3)
--   Riscv/Alu           alu.h (ALUControl, ALU)
--   Riscv/Cmp           cmp.h (CmpControl, Cmp)
--   Riscv/Register      register.h
--   Riscv/RegFile       regfile.h
--   Riscv/Bytes         the byte-wise accesses of the two memories
--   Riscv/DataMem       data_mem_unit.h
--   Riscv/InstrMem      instr_mem_unit.h
--   Riscv/Instruction   instruction.h
--   Riscv/ControlUnit   control_unit.h
--   Riscv/State         the states of pipeline.h, hazard_unit.h, and the members of Pipeline
--   Riscv/Stages        pipeline.cpp (doMemory, doExecute, doDecode, doFetch)
--   Riscv/Hazard        pipeline.cpp (hazardUnitTick, haltPipeline, restartPipeline)
--   Riscv/Pipeline      pipeline.cpp (tick, run, setProgramCounter), and the constructors
-- Jit/Marker is JIT-AOT-Compilers-master/ir/marker/marker.h, Jit/RegMap is
-- JIT-AOT-Compilers-master/codegen/RegMap.h, and Jit/Dsu is DSU.h and DSU.cpp of
-- JIT-AOT-Compilers-master/analysis.
-- Leech has a module for each part of leechVM:
--   Leech/Opcodes       include/common/opcodes.ii, opcodes.hh
--   Leech/Stubs         src/executor/callbacks.cc (the opcodes that are not implemented)
--   Leech/Values        include/leechobj/leechobj.hh (the objects and their clones)
--   Leech/Objects       include/leechobj/leechobj.hh, src/leechobj/leechobj.cc (their operations)
--   Leech/Machine       include/executor/executor.hh (StackFrame, State)
--   Leech/Callbacks     src/executor/callbacks.cc (but for classes)
--   Leech/Classes       src/executor/callbacks.cc (classes and methods)
--   Leech/Executor      src/executor/executor.cc, and the table of callbacks
--   Leech/Streams       include/common/common.hh (numbers and strings in streams)
--   Leech/File          leechfile.cc and leechobj.hh (constants and functions in streams)
--   Leech/Images        src/leechfile/leechfile.cc (files in streams, copies of functions)
-- Translator has a module for each part of BinaryTranslator-main:
--   Translator/Commands    include/parser.h, codegen/cmds.h (the commands and their sizes)
--   Translator/Doubles     the arithmetic of double, a parameter
--   Translator/Parser      src/parser.cpp (ParseOnStructs and what it calls)
--   Translator/Addresses   src/parser.cpp (FillCmdIp, FillJumpLables, FindJumpIp)
--   Translator/Optimizer   src/optimizer.cpp
--   Translator/Opcodes     include/translation.h
--   Translator/Units       src/translation.cpp (the units)
--   Translator/Buffer      src/translation.cpp (the writes and StartTranslation)
--   Translator/Program     src/main.cpp
--   Translator/Elf         src/write_in_elf.cpp
-- Of ProgrammingLanguage-main, Language/Stack is utils/stack.cpp, Language/Commands is
-- execution/general_includes/codegen/cmds.h, and Language/Processor, which has the operands of the commands,
-- and Language/Execution are execution/proc/proc.cpp.
-- Translator/Parser/Encoding describes the format of a program and Translator/Optimizer/Meaning what
-- straight-line commands compute, both without the code.
-- The modules below them hold the proofs, named for what they prove; Riscv/Tests, Jit/Tests,
-- Leech/Tests, Translator/Tests and Language/Tests have runs at concrete inputs, among them programs from riscv-pipelined-cpu-sim/tests and
-- leechVM-master/test/frontend.
--
-- The correspondence. A class is a record with its members as fields. A function that changes
-- members takes the object and returns it in an `Outcome`: done, or left by an exception, with the
-- object as it stands then. A stage is cut into the statements that can throw, in their order. The
-- fields of a 32-bit word are natural numbers, and every operation that can wrap is written with its
-- remainder. Arrays are functions of the index, with their bounds in the operations that read
-- them; an access outside of an array gives the outcome `undefined`. The two memories are arrays of
-- bytes in the order of a little-endian host, and the bit fields of `imm_layout` start at the lowest
-- bit, as compilers for that host lay them out. The hash map with which the data memory is filled is
-- the list of its entries in the order of iteration.
--
-- In leechVM an object other than a class never changes, so a pointer to it is its value; a class is an
-- address in a store, so that what shares it sees its changes. A callback takes the state and returns
-- or throws, with the state as it stands then. A map is the list of its entries; a map of functions
-- keeps the order in which the entries came. What C++ leaves undefined, a null pointer that is
-- dereferenced or an overflow of `int64_t`, is an error of its own, `undefined`. The arithmetic of
-- `double` on its 64 bits is a parameter, and printing is the list of the values printed. Of a stream
-- that is written the bytes are modelled where nothing throws.
--
-- In the translator a double is its 64 bits, and the operations on doubles are a parameter, `Doubles`; the
-- theorem about jumps assumes of it, in `ExactInts`, what IEEE 754 says of integers up to 2 ^ 53, and for a
-- jump backwards, in `WrapsNegative`, that the host converts a negative double to `uint32_t` modulo
-- 2 ^ 32, which C++ leaves undefined. A unit is the list of its writes. The array of commands is a
-- list, addresses and sizes are natural numbers, and a read or write outside of an array, of the file
-- or of the buffer is `none`. The search for the target of a jump reads only addresses, which the
-- replacement of the targets does not change. The processor has the same parameter, the functions of math.h and the
-- order in which the compiler evaluates operands; an access outside of its arrays is `undefined`.
--
-- Bounds and fuel. `run` takes fuel, one unit for each tick, and gives `none` when it is used up. A
-- program may run forever, so that no fuel is enough for all of them; the theorems about safety are
-- therefore about the states that ticks reach, and the one about termination gives the fuel that is
-- enough once the program counter has left the instructions. The loop of the virtual machine, `run_loop`, takes fuel for
-- the instructions; it may run forever too. The reader
-- of constants, `deserialize_obj`, takes the nesting of tuples as fuel, one unit more than the deepest
-- constant has; `compress_universum` takes the length of a chain of blocks. The loops of the
-- translator are bounded by the code itself: `parse_loop` by the length of the file, `optimize_from` by the
-- number of commands. The loop of the processor, `execute_loop`, takes fuel for the commands, as a program may
-- run forever.
--
-- Not modelled: the log, the dumps and the files of BinaryTranslator-main, its `RunCode`, which nothing calls,
-- and the constants of its ELF headers; printing and the command line of the simulator and of leechVM, the lexer and the parser of
-- leechVM, which flex and bison generate, its timer and the interface of its garbage collector, which
-- nothing uses, the other parts of JIT-AOT-Compilers-master, and the other programs of the repository:
-- the rest of ProgrammingLanguage-main, Derivative-Calculator-main, Mandelbrot-Fractal-main and
-- Load-Screen-Application-master.
pub mod Base
pub mod Riscv
pub mod Jit
pub mod Leech
pub mod Translator
pub mod Language
