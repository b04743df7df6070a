-- ===== src/Lib.antt =====
-- Beelzebub, an operating system kernel: the containers, pools, locks and numbers that its memory
-- manager, its scheduler and its modules stand on.
--
-- Parts of the program and their models:
--
--   BigInt    libs/common/src/utils/bigint.cpp and libs/common/amd64/src/utils/bigint.asm: `BigIntAdd`,
--             `BigIntSub` and `BigIntMul` (BigInt), `BigIntCmp` (BigInt/Comparing), `BigIntShL` and
--             `BigIntShR` (BigInt/Shifting), `BigIntAnd`, `BigIntOr`, `BigIntXor` and `BigIntNot`
--             (BigInt/Logic) and `BigIntGetPow10` with its tables (BigInt/Powers). An array of 32-bit
--             words is the list of its words from a place on, the lowest first, and a loop over it is
--             structural in the number of words left. A `Source` is `same` where it is the array that is
--             written, and `apart` where it is another; arrays that overlap in part are left out. 64-bit
--             intermediate results wrap; `|` of numbers without a common bit is `+`. Where `BigIntShR` reads
--             outside of the array, its result is the index, on the left of a sum; an operator's is
--             `none`. `BigUInt` of sysheaders/common/beel/utils/bigint.hpp is BigInt/Number, with its
--             logical operators in BigInt/Number/Bitwise: `MaxSize` is a parameter, and so are the
--             words, `fresh`, that a new object holds before it is written. BigInt/Words has the number
--             that words stand for, to which the theorems compare. `BigIntDiv` has no body beyond its
--             special cases, so division is left out.
--   Handles   sysheaders/common/beel/handles.h: the result codes that operations return, as numbers;
--             `Handle` (Handles/Handle) and `HandlePointer` (Handles/Pointer) as 64-bit words, with
--             masks and shifts written as division and remainder by powers of two and the union of
--             disjoint bits as a sum. `OFFSET` of a `HandlePointer` is a parameter, at most 48. The
--             other parts use the code of a `Handle` that is a result, and not the word.
--   Avl       sysheaders/common/beel/utils/avl.tree.hpp: `AvlTreeNode` (Avl/Node), the recursive
--             static functions of `AvlTree` (Avl/Edit), its iterations and `Clear` (Avl/Visit) and
--             its public operations (Avl/Tree). The kernel's address spaces and user-space modules
--             keep their regions in such trees. A node carries the address that the allocator gave
--             it, its cached height and its payload. A `Node *` is the subtree below it: the tree
--             owns its nodes, and no two pointers of it meet. The allocator, which each client
--             specialises, is a parameter: a state behind `cookie` and two functions on it.
--             Comparisons are parameters: the theorems name what they ask of them (Avl/Order). The
--             two overloads of each operation, by key or by pointer to a key, are one function, and
--             so are the forms with and without an out parameter. `int` heights are numbers,
--             since no tree of height 2 ^ 31 fits in memory. `NodeCount` wraps at 2 ^ 64.
--   IdPool    sysheaders/common/beel/utils/id.pool.hpp on amd64: a pool of identifiers whose free
--             entries form a queue. Words are numbers below 2 ^ 64 with masks and shifts written as
--             arithmetic. A call is one step.
--   Memory    beelzebub/inc/memory/regions.hpp and beelzebub/src/memory/regions.cpp: ranges of
--             addresses and the comparisons of regions (Memory/Regions), which Avl takes as its
--             parameters. Memory/Vas is `Vas` of beelzebub/inc/memory/vas.hpp and
--             beelzebub/src/memory/vas.cpp: a space is the tree of its regions, `First` and
--             `LastSearched`; `AllocateOperation` and `FreeOperation` are the constructors of
--             `Manipulation` with `Check`, `Repurpose` and `Spawn` by cases; Memory/Vas/Execute is
--             `OperationParameters::Execute`, a function for each of its nine cases, over the writes
--             and jumps of Memory/Vas/Writes, and
--             Memory/Vas/Calls has `Initialize`, `Allocate`, `Free` and `Modify`. A `MemoryRegion *`
--             is the address of its node in the tree, 0 for null; Memory/Pointers reads and writes
--             through it. The object allocator for the nodes is a parameter with laws
--             (Memory/Vas/Holding). A call is one step under the lock, so `lock` and the interrupt
--             state are left out, and so are `PreOp` and `PostOp`, which `Vas` does not implement
--             itself. Memory/Vas/Space says when a space is well formed: balanced, its regions linked
--             both ways and without a gap, showing what a map from addresses to content and flags
--             says.
--   Sync      sysheaders/common/beel/sync: the locks, as step relations. Sync/Rw is `RwSpinlock` of
--             rw.spinlock.hpp: each constructor of `Move` is one atomic access of one thread, in the
--             order of the source, and any interleaving of any number of threads is a `Reach`. The
--             accesses are taken as sequentially consistent. Its bound on the number of threads, 2
--             ^ 30, is what the counter in the word has room for. Sync/Ticket is `TicketLock` of
--             ticket.lock.hpp in the same way, with 16-bit tickets and so fewer than 2 ^ 16 threads;
--             Sync/Ticket/Line is the queue of threads that its tickets stand for.
--   Utf8      libs/common/src/utils/utf8.cpp: `GetUtf8Codepoint` over memory as a function from
--             addresses to bytes. `Char` is a 32-bit pattern that wraps.
--
-- The loop of `Traverse` in level order runs on fuel, of which a balanced tree needs its height and
-- one more. The loop of `GetUtf8Codepoint` runs on fuel too, the distance from `chr` to `Next`: each
-- round makes it one less. `Execute` runs on fuel: an anonymous allocation takes one unit for each
-- region it passes and two more, and a call in one region takes one. A sparse `Free` takes one for each
-- region, and in any tree no more than its range has bytes and one more, since each call of itself is
-- about a smaller range. Every other recursion is structural.
--
-- Not modelled: page tables, allocators of objects beyond what the laws say, the scheduler, terminals,
-- drivers and the boot loader, which work on hardware or raw memory; `FindPred`, and the printing of
-- trees.
pub mod Common
pub mod Handles
pub mod Avl
pub mod BigInt
pub mod IdPool
pub mod Memory
pub mod Sync
pub mod Utf8
