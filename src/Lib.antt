-- ===== src/Lib.antt =====
-- JamVM, a Java virtual machine in C: the parts of its core that are modelled here, and what is proved
-- of them. Paths are from the root of the repository, in which the sources stand under src/.
--
-- The heap (src/alloc.c, src/alloc.h) is modelled by the modules below Heap. Memory between heapbase
-- and heaplimit is a list of blocks (Heap/Block), each a header word and what the collector reads of
-- the object in it; the address of a block is heapbase plus the sizes before it, as in the loops that
-- advance `ptr += size`. Block sizes are those of a 64-bit machine. doSweep (Heap/Sweep) is two
-- mutually recursive loops over that list, with handleMarkedSpecial and handleUnmarkedSpecial; its
-- correctness goes through one invariant rule (Heap/Sweep/Rule). Heap/Malloc is the search of gcMalloc
-- with the split of a chunk: the free list is a zipper whose gap is `chunkpp`. Heap/Collect is the
-- switch over the failure states of gcMalloc, over an interface `Collector` for gc0 and
-- runFinalizers0, which Heap/Collect/Sweeping fills by doSweep. Its `for(;;)` takes fuel, and two rounds
-- are proved to be enough on a fully expanded heap. Heap/Expand is expandHeap. Heap/Marks is the mark
-- bit array, markObject and the mark stack.
--
-- The mark phase is modelled by the modules below Heap/MarkPhase. Objects gives the fields of objects and
-- class blocks that markChildren reads, and markChildren itself; Edges lists the same references as edges,
-- each with the strongest mark it passes on. Heap/MarkPhase holds the loops of markStack, scanHeap and
-- scanHeapAndMark, on fuel: three for every object, and one, are enough, since each push and each
-- overflow takes a mark that rises. Roots is the marking of the roots, with the conservative scan of the
-- stacks; ObjectList the circular lists of objects to be finalized and enqueued; DoMark is doMark up to
-- these lists, and WeakRefs its end, with the tables of weak global references (src/jni.c) and the conversion
-- of objects to placeholders, and doMark as a whole; Placeholders, Marked and Whole have its proof. The
-- interned strings that doMark then drops from their table are not modelled, and neither is compaction. The
-- loader's class table and what the class library marks of its special objects are given by lists.
--
-- The interpreter (src/interp/engine/interp.c, interp.h and interp-indirect.h) is modelled by the modules
-- below Interp, for the opcodes that work on the operand stack, the local variables and arrays, with int,
-- long and reference operands. An instruction (Interp/State) is an opcode with its decoded operands, a slot
-- is a word of 64 bits, and the stack is listed from its top. Interp/Words is the arithmetic of C on words.
-- Interp/Plain has the handlers as they are compiled without USE_CACHE, and Interp/Cached those with it,
-- where up to two slots are held in variables and a handler is entered at one of three levels. The second
-- slot of a long, which no verified code reads as such, holds a word that is a parameter of the handlers
-- without a cache. A read below the stack is an outcome of its own, and so is a division that is undefined
-- in C. The elements of arrays are bytes, the lowest first, and an access takes as many of them as the type
-- that its opcode names is wide. Interp/Run goes on from instruction to
-- instruction as DISPATCH does, for a number of instructions. Exceptions end a run with their kind and the
-- frame; arrayStoreCheck (Cast/Arrays) is a parameter here. Arithmetic on float and double, field access,
-- calls, object creation and the decoding and rewriting of opcodes are not modelled.
--
-- Object locks (src/lock.c, src/lock.h) are modelled by the modules below Lock, for one object and
-- the monitor that findMonitor gives for it. Lock/Word is the lock word, Lock/Monitor the monitor with
-- its wait set, a list in the order of waiting, and Lock/Object the calls. A call runs from one point at
-- which the thread can be made to wait to the next, and its outcome says where it stopped: blocked on
-- the mutex, waiting on its condition variable, spinning in objectUnlock, or done. Between two such
-- points it is one step, so the retry loops of the compare-and-swaps are not modelled, and neither is
-- the cache that maps objects to monitors. Lock/Object/Spec is the abstract lock, a holder and a depth,
-- with the invariant of the thin and the fat state; a thread id is positive and less than 2 ^ 22, so that
-- the shifted id is an int. Tickets of the wait set are unsigned 32-bit numbers that wrap.
--
-- Strings in modified UTF-8 (src/utf8.c) are modelled by the modules below Utf8. A `char *` is the memory
-- from it on, a list of bytes, and a function answers none where it reads beyond that memory. Utf8/Chars
-- is GET_UTF8_CHAR and the loops over it; each round reads at least one byte, so that the length of the
-- memory is enough fuel. Utf8/Encode is the encoder and Utf8/Names the conversion of class names. The
-- table of interned strings (findHashedUtf8, copyUtf8) is not modelled.
--
-- The hash tables (src/hash.h, src/hash.c) are modelled by the modules below Hash. The macros HASH,
-- COMPARE, PREPARE, FOUND and SCAVENGE, which each user of a table defines, are an interface `Keys`.
-- Hash/Table is findHashEntry, resizeHash and initHashTable, Hash/Delete is deleteHashEntry; Hash/Walk is linear probing as such,
-- whose loops get as many rounds as the table has slots, enough for a table that is not full. The size
-- of a table is a power of two in the source, so that `& (size - 1)` is the remainder by it.
-- The iterations and the locking of a table are not modelled.
--
-- The initialisation of a class (initClass of src/class.c) is modelled by the modules below Class: a step
-- relation over the calls of all threads for one class, each part under the lock of the class being one
-- step. linkClass is its effect on the state only. The code that runs between the steps, for the superclass
-- and the static initializer, can call initClass again and fails or not; what it does is not modelled.
--
-- The cast tests (src/cast.c) are modelled by the modules below Cast, over the fields of a class block
-- (src/jam.h) that they read. The walks of implements and isSubClassOf take fuel, and the rank of a class in
-- an acyclic hierarchy is enough of it (Cast/Hierarchy). isInstanceOf and isInstOfArray0 call each other,
-- four levels deep at most, since the element class of an array class is no array class (Cast/Arrays).
--
-- Exception handling (src/excep.c) is modelled by the modules below Excep: the search of a method's table
-- for a handler and the walk along the frames that have methods (Excep/Handlers), with the locks it gives
-- up in their order, and the line numbers of a pc (Excep/Lines). The resolution of a caught class and
-- isInstanceOf are parameters, and a pc is its offset from the start of the code.
--
-- The access checks (src/access.c) are modelled by the modules below Access, with classlibAccessCheck and
-- isSubClassOf as parameters. Two different classes of one loader have different names, as the source
-- assumes too.
pub mod Base
pub mod Access
pub mod Cast
pub mod Class
pub mod Excep
pub mod Hash
pub mod Heap
pub mod Interp
pub mod Lock
pub mod Utf8
