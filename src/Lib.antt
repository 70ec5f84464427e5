-- ===== src/Lib.antt =====
-- Poplar is a microkernel and userspace in Rust for x86_64 and RISC-V. This library models the
-- parts of it that are logic rather than hardware access, and states what makes them correct.
--
-- The parts, and how they interact:
-- * Hal (lib/hal/src/memory): the vocabulary of the rest. An address, a frame or a page is the
--   `usize` of its start; `Arch` stands for the `cfg` attributes of the three targets.
--   Hal/PAddr, Hal/VAddr, Hal/Frame, Hal/Page and Hal/Flags are physical_address.rs,
--   virtual_address.rs, frame.rs, page.rs and the flags of paging.rs; Hal/PageTable is the trait
--   of paging.rs, whose `map` is a parameter. Hal/Usize has the checked `usize` operations.
-- * Mulch (lib/mulch/src): alignment and division (math.rs), splitting ranges (ranges.rs), and
--   bitmaps (bitmap.rs).
-- * Syscall/Repr (lib/poplar/src/syscall/result.rs): the one word a system call returns. BitField
--   is what the code uses of the crate bit_field, as parameters.
-- * MapArea (lib/hal_x86_64/src/paging.rs and lib/hal_riscv/src/paging.rs): `map_area`, one text
--   in three page tables, over any `map`. MapArea/Step and MapArea/Loop are one run of its loop,
--   MapArea/Laws the whole.
-- * PageWalk (lib/hal_x86_64/src/paging.rs, and the same text in lib/hal_riscv/src/paging.rs): `map`,
--   `translate` and `unmap` over tables in memory, for any format of entries. PageWalk/Tree is the
--   invariant, PageWalk/Write and PageWalk/Grow are the changes of an entry that keep it, and
--   PageWalk/Impl is `PageTableImpl`. A table is a function from indices to words at the address by
--   which the code reaches it, so that two tables never overlap in part.
-- * HalX86 and HalRiscv: the entries of the two architectures and their page tables. BitFlags is what
--   the code uses of the crate bitflags, as parameters.
-- * Kernel/Buddy (kernel/src/pmm/buddy.rs): the buddy allocator, and Kernel/Pmm
--   (kernel/src/pmm/mod.rs): the manager of physical memory over it, which is built from the
--   boot loader's memory map (seed/seed_bootinfo/src/lib.rs).
-- * Kernel/Scheduler (kernel/src/scheduler.rs), with the states of Kernel/Task
--   (kernel/src/object/task.rs and address_space.rs): the queues of tasks and switching between
--   tasks.
-- * Kernel/Handles (kernel/src/object/task.rs), Kernel/Channel (kernel/src/object/channel.rs) and
--   Kernel/Message (kernel/src/syscall/mod.rs): a task's handles, channels, and the system calls
--   `send_message` and `get_message` that move bytes and objects from task to task.
-- * Kernel/Waiting (kernel/src/syscall/mod.rs, kernel/src/object/event.rs and interrupt.rs): the system
--   calls `create_channel`, `wait_for_event` and `poll_interest`, and the flags of events and
--   interrupts. What other tasks do while a task waits is a parameter.
-- * Kernel/MemoryObject (kernel/src/object/memory_object.rs): memory objects and what backs them.
-- * Kernel/Vmm (kernel/src/vmm/mod.rs): the part of kernel space that is given out.
-- * Ginkgo (ginkgo/src): the script language. Ginkgo/Value is its values, objects and chunks of
--   bytecode (vm.rs and object.rs), Ginkgo/Integer the `i64` and `i16` they use, Ginkgo/Opcode the
--   opcodes, Ginkgo/Chunk the chunks' operations and the parser's emitters (parse.rs), and Ginkgo/Vm
--   the machine, whose loop runs on fuel: a program need not end. Ginkgo/Vm/Jumps is the jumps that the
--   emitters write, as the machine runs them, and Ginkgo/Vm/Laws calls, locals and globals.
--   Ginkgo/Lex is the lexer (lex.rs) over the characters of the source: Ginkgo/Lex/Text and
--   Ginkgo/Lex/Reading are its place in the source, Ginkgo/Lex/Ahead its two tokens of lookahead, and
--   Ginkgo/Lex/PeekingIter the iterator over characters, of which the lexer sees the items left. Its
--   loops are recursion on the characters left. The crate unicode_xid is two parameters.
--   Ginkgo/Parse is the parser (parse.rs): its state and what its functions share, with
--   Ginkgo/Parse/Expression for the parselets and Ginkgo/Parse/Statement for statements, functions and
--   `parse`. Ginkgo/Parse/Reference is an independent description of the expressions without names,
--   strings and calls: their tokens, their bytecode and how their operators may nest, and
--   Ginkgo/Parse/Evals is their values. Ginkgo/Parse/Stream, Emitted, Chunks, Fuel and Steps are
--   the lemmas on tokens, on emitted code, on fuel and on single calls, Ginkgo/Parse/Compiles relates
--   the parser to the reference, Ginkgo/Parse/Placed, Ginkgo/Parse/Runs and Ginkgo/Vm/Reaches the
--   reference to the machine, and Ginkgo/Parse/Alone and Ginkgo/Parse/Program the text of a program to
--   its value. Ginkgo/Parse/Scopes is the locals of a block.
--
-- How state and failure are modelled:
-- * A lock is held for one operation at a time, so an operation is a function from the state
--   before to the state after. Objects behind an `Arc` are named by natural numbers and kept in
--   stores, functions of the name.
-- * Code that may panic gives an `Outcome`: a failed `assert!`, `unwrap`, `expect` or index, and an
--   arithmetic operation that leaves the range of `usize`, as under overflow checks.
-- * A `BTreeSet` is the ascending list of its elements (Prelude/BTreeSet), a `BTreeMap` and a
--   memory of objects are functions, a `VecDeque` is a list from front to back.
--
-- Fuel: `free_block` and `allocate_block` call themselves for the next order, of which there are
-- 13, so 13 and 14 calls are enough; the loop of `map_area` runs at most four times before its
-- test fails, so five are enough; `map_range` has one run for each page and one for the test. The
-- loop of `wait_for_event` has one run for each time that the task gives way. The parser takes one
-- unit for each call and each run of a loop, and two for each token of an expression are enough; a
-- parser that needs more says so by a result of its own. Running out elsewhere counts as a panic,
-- and the theorems give results that are no panic, so they show the fuel to be enough.
--
-- Not modelled: hardware access, inline assembly, pointers and formatting; the platform's context
-- switch; the polling of tasklets, which is a parameter of the scheduler; access to userspace
-- memory, which is a parameter of the system calls; the flush of the TLB. The system calls on
-- memory objects, address spaces, tasks and devices, `wait_for_interrupt`, which repeats
-- `wait_for_event` over another flag, serialisation (lib/ptah), the boot loaders (seed) and
-- userspace (user) are not modelled either.
pub mod BitField
pub mod BitFlags
pub mod Ginkgo
pub mod Hal
pub mod HalRiscv
pub mod HalX86
pub mod Kernel
pub mod MapArea
pub mod Mulch
pub mod PageWalk
pub mod Prelude
pub mod Syscall
