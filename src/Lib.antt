-- ===== src/Lib.antt =====
-- The allocators, the parallel sort and the number translations of the operating-systems labs.
--
-- Labs/CP/src holds two memory allocators over one `mmap`ed region and two programs that measure
-- them: usage_factor.cpp drives an allocator with random requests, cock.cpp times it. Labs/Lab2/src
-- is a bitonic sort with a bounded number of threads. Labs/Lab4/src has two libraries with the same
-- function `Translation`, which prints a `long` in base 2 or in base 3. Labs/Lab5/src is a tree of computing
-- nodes that pass messages, under a controller that reads commands. Labs/Lab3/src hands lines to two
-- children through shared memory, and Labs/Lab1/src through two pipes.
--
-- Which file models what, with paths of the code from the repository's root:
-- - BestFit.antt: Labs/CP/src/list_of_free_blocks.cpp. `BestFitAllocator` has the address `head`, the
--   size of the mapping and the memory, a function from addresses to block headers; `init` is the
--   constructor, `alloc` and `free` are the methods, and the assignments through pointers are
--   `set_size`, `set_free`, `set_next` and `set_prev`. Its children read the memory as a list of
--   blocks (Segments), say what the operations do to that list (Blocks), and relate the two (Writes,
--   Search, Take, Release, State, Alloc, Free, Overflow, Session, InUse, Taken).
-- - McKusick.antt: Labs/CP/src/Mckusey-Carels.cpp, with the children Buckets, Pages, Blocks,
--   Layout (pages by their indices), Large (the loops over a range), RoundTrip,
--   Ownership (whose the pages are, kept by each operation in its children Moves to Regions), Session (the
--   histories of a client) and Start (the constructor). There a linked list is the
--   list of what it links. McKusick/Linked.antt models the same class with the pointers that the code keeps:
--   `freelistarr` holds the heads of the buckets, `block_next` and `page_next` the fields `next` by address.
--   Its child Chain says what list the pointers lead through, Spelling when they stand for the lists of the
--   other model; Refill, Small, SmallFree, Search, LargeRequest, Insert and LargeFree compare the operations of the two,
--   Refinement, Calls, Histories and Start their histories. The memory of the free blocks is also that of
--   the client, whose writes to what it holds are steps of the histories.
-- - Usage.antt: the test loops of Labs/CP/src/usage_factor.cpp and `run_test` of Labs/CP/src/cock.cpp
--   over the interface `Allocator`; its children Accounts and Requests are about their counters and pointers,
--   Contract says what the loops need of an allocator and what they do to one that keeps it, and Answers
--   what an allocator answers to `run_test`.
-- - Bitonic.antt: Labs/Lab2/src/main.cpp. `compare_and_swap`, `bitonic_merge`, `bitonic_sort` and
--   `make_calculations` are the functions of these names there, over a vector and a counter of
--   threads. Network is the same sort on lists; Loops relates the two; ZeroOne, Sorted and Order are
--   about the network, and Main about the program.
--   Interleaving has the runs of the threads in any order, and Program the arguments of `main`.
-- - Translation.antt: Labs/Lab4/src/tr_bin.cpp and Labs/Lab4/src/tr_tri.cpp, with the children Digits,
--   Binary and Ternary.
-- - Switcher.antt: Labs/Lab4/src/program2.cpp, which switches between the two libraries.
-- - Channel.antt: Labs/Lab3/src/parent.cpp, child1.cpp and child2.cpp as a relation of steps;
--   Channel/Vowels.antt is about `removeVowels`, Channel/Phases.antt, Channel/Delivery.antt and Channel/Ending.antt
--   about lines, and
--   Channel/Startup.antt models what the programs do before and after their loops.
-- - Measured.antt: the loops of Usage.antt on both allocators. Pages and Blocks are the allocators' proofs
--   of the contract, Mapped makes an allocator, Random is one loop; Factors is `main` of
--   Labs/CP/src/usage_factor.cpp and Benchmark that of Labs/CP/src/cock.cpp.
-- - Pipes.antt: the loops of Labs/Lab1/src/parent.c, child1.c and child2.c. Input is what `fgets` and
--   `scanf` read, Table the descriptors of a process, Launch what the parent does before its loop, and
--   System the steps of the three processes; Files, Invariant, Progress and Program are about them.
-- - Controller.antt: the class `Controller` of Labs/Lab5/src/control.cpp, with the children Pending,
--   Known, Invariant and Answered.
-- - Nodes.antt: the handlers of `ComputingNode` in Labs/Lab5/src/nodes.cpp, and in Nodes/Answers.antt
--   what a node answers and passes on.
-- - Network.antt: a tree of such nodes and a round of messages through it, down from parent to children
--   and up again; Network/Routing.antt and Network/Answer.antt follow a question for a word.
--   Network/Turn.antt is a turn of the loop with its timer.
-- - Sockets.antt: the class `Node` of Labs/Lab5/src/include/nodes.h with its moves and destructor, and
--   `create_node` and `create_process` of Labs/Lab5/src/nodes.cpp; Sockets/Making.antt and Sockets/Balance.antt
--   are about who closes what.
-- - Prelude.antt: shared names, tests, lists and words of 64 bits. Examples.antt: concrete runs.
--
-- Numbers: a `size_t` is a native number, and its sums, differences and products are `add64`,
-- `sub64` and `mul64`, which wrap around. The `int` indices of the sort are below the length of the
-- vector, and the `long` of `Translation` is a signed integer whose range is a hypothesis.
--
-- Fuel: the search of the best-fit allocator has one step for each byte of the mapping and one more,
-- and a block has at least 32 bytes; the sort has one more than the length, and each level halves
-- `cnt`; the digits of base 3 have the room of `temp`, and running out of it is a write behind its
-- end; the counts of binary digits have the 64 and 32 steps of the words that they read. The loops over
-- `fgets` have one step for each byte of the input and one more, and each call takes a byte at least.
-- The loops over the page infos by pointers have one step for each page of the mapping, and the lists
-- have no more entries; the walk along a range has one for each page asked for.
--
-- Undefined behaviour (counting the zeros of 0, shifting by the width of the word), a thrown
-- exception and exhausted fuel are `none`; the measuring programs have no result where one of their
-- allocators gives `none`. `mmap`, the dynamic loader, `create_process` and the clock
-- are parameters: `mmap` is a function from the length to the address or to a failure. In what concerns valid
-- best-fit allocators its addresses are at least 4096, as the operating system keeps the first page
-- unmapped. The socket library and `fork` are parameters too; `pipe`, `close`, `dup2`, `sem_open` and
-- `unlink` are their effects on descriptors and names.
--
-- Threads: a run of the sort is a list of comparisons, since which entries a thread compares does not
-- hang on the vector; two threads at once may take turns in any way. The parent and the children of Lab3
-- take turns in any way too, where what stands between `sem_wait` and `sem_post` is one step. The three
-- processes of Lab1 take turns in any way, a `write` of less than `PIPE_BUF` bytes being one step, and the
-- children's reading and their loops are apart: a child filters what it has read at its end.
-- A child whose `fopen` fails exits, and a `write` to a pipe that no process can read kills the parent.
-- What each child writes is told apart: where both file names are one, both write to one file. The clock of
-- the heartbeats in Lab5 counts milliseconds; the source cuts its durations to them.
--
-- Not modelled: timers, printing and floating-point quotients; the destructors of the
-- allocators; the numerical integrals of Labs/Lab4/src and program1.cpp there, which reads, calls
-- and prints; the descriptors and mappings of Labs/Lab3/src; and of Labs/Lab5/src the
-- bytes that go through a socket, zmq_operations.cpp and utils.cpp, which only call the libraries.
pub mod Prelude
pub mod BestFit
pub mod Bitonic
pub mod Channel
pub mod Controller
pub mod McKusick
pub mod Measured
pub mod Network
pub mod Nodes
pub mod Pipes
pub mod Sockets
pub mod Switcher
pub mod Translation
pub mod Usage
pub mod Examples
