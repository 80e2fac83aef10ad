-- ===== src/Lib.antt =====
-- Verification of the out-of-order RV32IM superscalar simulator.
--
-- The program is a cycle-accurate model of a Tomasulo core: fetch puts instructions into a queue,
-- decode turns words into micro-operations and captures bundles into a dispatch register, rename
-- gives each a slot of the reorder buffer and maps its destination register to it, reservation
-- stations and the load/store queue wait for operands, execution units compute, an arbiter grants
-- results the common data bus, and the reorder buffer retires in program order. A mispredicted
-- branch squashes what is younger and restores the alias map from a checkpoint.
--
-- Files. Each module models one class or file of the repository and has the source's operations as
-- functions from the old state to the new; an operation that asserts, or reads out of range, returns
-- an Option whose `none` is the failure.
--   Common        lists, circular windows, words, bits and counting: no code of the program
--   Types         include/types.hpp: micro-operations and fetched instructions
--   Rat           src/register_alias_table.cpp
--   Checkpoints   src/rat_checkpoints.cpp (Tracking: a checkpoint and the commits after it)
--   Rob           src/reorder_buffer.cpp (InOrder: its contract; Invariant, Contents, Refine,
--                 Squash, Undo: the proofs, one operation or invariant each)
--   FetchQueue    src/instruction_fetch_queue.cpp (Fifo: its contract)
--   DispatchReg   src/dispatch_reg.cpp
--   Station       src/reservation_station.cpp
--   Cdb           src/cdb_arbiter.cpp (Loop, Fairness, Beats, Liveness: proofs)
--   ReturnStack   src/return_address_stack.cpp
--   Gshare        src/gshare_predictor.cpp
--   Execute       src/execution_engine.cpp, the free functions of the operations
--   Decode        src/decode.cpp
--   Engine        src/execution_engine.cpp, the pipelined units and the engine (Bus: its side of the
--                 buses and the cycle; InFlight, Delay, Choice: proofs)
--   MemTypes      include/mem/mem_types.hpp
--   LoadStoreQueue src/load_store_queue.cpp (Lanes: bytes and masks; Forward: dispatchLoad; Memory and
--                 Cycle: the way to memory and the bus; Bytes, Lanewise, Flags, Sources, Sight,
--                 Assemble, Reads, Starts, Buffer, Arrival: proofs)
--   Dram          src/mem/dram_simple.cpp (Lines, Slots, Timing: proofs)
--   IdealMemory   src/mem/memory_system.cpp, the ideal system (Answers: a proof)
--   DCache        src/mem/dcache.cpp (State, Line, Pipes, Fills: the code; Shape, InFlight, Conserve,
--                 Sizes, Moves, Runs, Plain, Words, Filled, Victim, Address, Order, Pending,
--                 Asking: proofs)
--   ICache        src/mem/icache.cpp (State: the code; Quiet, Flushed, Fetch: proofs)
--   CachedMemory  src/mem/memory_system.cpp, the cached system (Route: a proof)
--   Processor     src/processor.cpp: operands, broadcast, branch resolution (Info: the instruction table;
--                 Stores: store permission; Loop, Permitted, Finish, Steps, Outcome: proofs)
--
-- Numbers. A value of the simulated machine is its 32-bit pattern, a natural number, and wrapping is
-- written out as a remainder; an `int` that names a register or a tag is an integer where the code
-- tests its sign. Indices and counts are natural numbers: the invariants bound them by the sizes
-- that the constructors are given. Sizes of a cache are such that their products fit an `int`.
--
-- Fuel. The loop of `clog2_pow2` has as much fuel as the number it halves. All other loops are
-- bounded in the source and recur on a list or on the rounds left.
--
-- Not modelled: the stages of the processor that call these parts in each cycle and its early recovery (the
-- other code of src/processor.cpp); the golden model; the loaders of traces and programs; the printing
-- functions and the command line, which are output and input. Where the proofs hold an index in range
-- by a condition, such as that of the store buffer on its head and tail, the model reads a default there.
pub mod Common
pub mod Types
pub mod Decode
pub mod Execute
pub mod Engine
pub mod Rat
pub mod Checkpoints
pub mod Rob
pub mod FetchQueue
pub mod DispatchReg
pub mod Station
pub mod MemTypes
pub mod LoadStoreQueue
pub mod Dram
pub mod IdealMemory
pub mod DCache
pub mod ICache
pub mod CachedMemory
pub mod Cdb
pub mod ReturnStack
pub mod Gshare
pub mod Processor
