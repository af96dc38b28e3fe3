-- ===== src/Lib.antt =====
-- RSmicro: the portable ladder-logic runtime in C (runtime/core), the framing of RSM Link
-- (protocol/c), and the command queue of rsm-node (runtime/node).
--
-- A host loads a program image into the runtime, changes its mode, and calls the scan in a loop. A
-- scan reads the inputs through the HAL, runs the instructions of every rung over the tags, writes
-- the outputs through the HAL, and kicks the watchdog. The host reads and writes tags, forces and
-- diagnostics between scans. RSM Link carries frames between controllers and tools; the command
-- queue is a ring of 64 commands, which the process shell of rsm-node does not use yet. These
-- parts share no state. runtime/ports has a HAL for tests.
--
-- The files and the code that they model:
--
--   Prelude            shared names, Boolean tests on numbers, lists by native index, DINT numbers, xor
--   Core/Words         u16, u32 and i32 of runtime/core/src/rsm_runtime.c: little-endian reads
--   Core/Types         runtime/core/include/rsmicro/*.h and the private structs: statuses, modes,
--                      values, tags, states, diagnostics, faults, impl_t, rsm_runtime_t, rsm_hal_t
--   Core/Opcode        rsm_opcodes.h and opcode_known; Opcode/Generated is the table of
--                      runtime/generated
--   Core/Tags          value, put, members, forces, write trace; Tags/Access has the public functions
--   Core/Machine       operand, numeric, number, destination, state_for_slot, fail, and how an
--                      instruction ends
--   Core/Execute       execute, with the mnemonics in Execute/Bits, Execute/Timing, Execute/Arith
--   Core/Run           run_until: instructions and parallel branches
--   Core/Nested        rungs by their nesting, the description that Core/Run is proved to refine
--   Core/Lifecycle     lifecycle_outputs, rsm_runtime_prescan, _postscan, _set_mode, _get_mode, _init,
--                      _deinit, _unload_program
--   Core/Scan          rsm_runtime_scan
--   Core/Image         Sections, Layout, Operands, Rungs, Code and Validate are the parts of
--                      rsm_runtime_validate_image and of the memory layout; Load is
--                      rsm_runtime_required_memory and rsm_runtime_load_image
--   Core/Snapshot      rsm_runtime_snapshot and rsm_runtime_snapshot_members
--   Core/Names         the version numbers and the name tables
--   Conformance        runtime/generated/rsm_conformance_fixtures.h and fifteen of its fixtures, run on
--                      the core by Conformance/Runner, which follows
--                      runtime/core/tests/test_conformance.c
--   Ports/TestHal      runtime/ports/native_test/src/rsm_test_hal.c
--   Ports/Demo         runtime/ports/native_test/src/rsmcore_demo.c
--   Node/Queue         runtime/node/src/command_queue.c
--   Node/Options       runtime/node/src/main.c: the options
--   Node/Main          runtime/node/src/main.c: the rest of main
--   Link/Frame         protocol/c/src/rsm_link_frame.c
--   Link/Stream        protocol/c/src/rsm_link_stream.c
--   Link/Ids           protocol/generated/*.h: the numbers of messages and errors
--
-- Proofs about the core stand in Core/Host (the calls of a host in any order, as a step relation),
-- Core/ForceTypes (the types of forced values), Core/Frame (what runs never change), Core/Outcome
-- (how an instruction ends), Core/Ranges (the range of ACC), Core/Timing (TON, CTU and CTD over
-- scans), Core/Numbers (DINT arithmetic), Core/Slots (the search of a state slot), Core/Boundary
-- (where instructions begin), Core/Modes, and in child modules of Core/Tags, Core/Scan and
-- Core/Image. Modules named Tests hold small programs and the theorems at concrete inputs.
--
-- State is passed explicitly. Live is what the code behind a loaded runtime works on: impl_t, the
-- mode, and the context of the HAL; an operation that can fail returns its status with the state
-- that it leaves. The HAL is a record of functions on an abstract context, as rsm_hal_t is: the
-- clock, and optionally the input, output and watchdog callbacks. They are arbitrary functions,
-- and no theorem assumes anything of them. Null pointer arguments are not modelled.
--
-- Numbers are natural numbers with the wrap-around of the C types written out; a DINT is an
-- integer, and a REAL is its bit pattern. The operations of binary32 and double arithmetic are the
-- fields of the record Floats, a parameter, because the source leaves them to the C compiler and
-- math.h; no theorem assumes anything of them. The sizes of the C structs are the record Sizes, a
-- parameter. What main of rsm-node asks of libc and the system is the record Os, a parameter, of
-- which the theorem on its end assumes that a signal comes within some number of naps, and that an
-- observer sees the calls that concern the socket (Node/Main/Calls); what the demo gets from its
-- file and from malloc are arguments.
--
-- Loops run on fuel or on a structural measure. The instruction loops of the loader, the validator
-- and the lifecycle passes have the size of the code as fuel, and each round goes on by 12 bytes
-- or more. run_until and the rung loop return no result when their fuel is used up; the theorems
-- on their ends give bounds under which that does not happen, and run_rung uses the code size plus
-- one. The wait of rsm-node spends one unit of fuel on a nap.
--
-- A read outside of a byte buffer gives 0 in the model. The placement of the tables in the arena
-- is modelled by its size and alignment only. Not modelled: rsm_runtime_object_size, the
-- conformance fixtures with REAL values (their results depend on the floating-point operations
-- that are a parameter here) and the largest ones, and the Python code.
pub mod Prelude
pub mod Core
pub mod Node
pub mod Link
pub mod Ports
pub mod Conformance
