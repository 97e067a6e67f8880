-- ===== src/Lib.antt =====
-- Verification of myskl, a library of skip lists in C, in its default configuration: single links
-- (MYSKL_DOUBLE_LL_TYPE not defined), levels drawn at random (MYSKL_USE_RAND), no locking around the
-- operations, checks of the arguments that return on a failure (CHECK_DATA_WARN_ON_ERROR). Where memory
-- is not given, include/private/skl_defs.h chooses that the process ends (CHECK_MEMO_EXIT_ON_ERROR); the
-- model has the other choice, CHECK_MEMO_WARN_ON_ERROR, by which an operation returns an error. Double
-- and Threads are about other configurations too.
--
-- How the parts correspond to the code:
--   Heap       the nodes (`MySKLnode` of include/private/skl_priv.h) at addresses, each with its
--              array `next`, and the counters of blocks (src/private/skl_priv.c,
--              include/private/skl_mstat.h). `val` is what the structure of the client around a
--              node holds. `avail` says which calls of `malloc` succeed: it is a parameter.
--   Rand       the generator of src/private/skl_rand.c, MT19937; `Digits` and `Words` bound its
--              words, `Ready` its array. `Register` is the published generator, a register of words
--              that is shifted at each draw, and `Twister` compares the code with it.
--   SkipList   `MySKLlist`, the status codes, the comparisons, the walk along a level, the descent
--              (include/private/skl_priv.h, skl_checks.h, skl_warn.h, and the loops that src/skl_ins.c
--              and src/skl_del.c share). Its children say what a list in the heap stands for: `Cells`
--              is the list of the addresses and data in order, `IsSkipList` the invariant that ties
--              list, heap and cells together: on each level the pointers lead through the nodes that
--              have that level, the cells are in order, the counts and the tail are right.
--   Gen        `genLevel` of src/skl_gen.c, with random numbers and (`Counting`) without.
--   Insert     `newNode`, `_insertPlain` and `MySKLinsertAD` of src/skl_ins.c.
--   Upsert     `addNodeAndUpdateLinks`, `_insertI`, `updateNodeData`, `MySKLinsertND`,
--              `MySKLinsertUPD` and `MySKLinsertUPD_ALL` of src/skl_ins.c.
--   Delete     src/skl_del.c: `deleteI`, `adjustCurLevel`, `MySKLdeleteNF` and `MySKLdeleteAF`.
--   Search     `search` and `MySKLsearch` of src/skl_search.c.
--   Iter       iterators: src/skl_iter.c, and `MySKLsearchALL` of src/skl_search.c.
--   Double     the code in IFDOUBLE of src/skl_ins.c and src/skl_del.c, and the iterators of
--              src/skl_iter.c that go both ways, of a build with MYSKL_DOUBLE_LL_TYPE.
--   Join       src/skl_join.c, and `MySKLcopy` of src/skl_ins.c.
--   Init       src/skl_init.c.      Destroy   src/skl_dst.c.      Misc   src/skl_misc.c.
--   RwLock     src/private/rwlock.c: each function up to its return or its condition wait, and from
--              the wait on; `System` has the threads that interleave them.
--   Threads    the macros of include/private/skl_threads.h that guard an operation in a build with
--              THREAD_READERS_WRITERS_V2, cut in the same way; `Guarded` has the threads, and the
--              list as a value that only a thread inside WRITER_ENTER and WRITER_EXIT changes.
--   Draw       src/skl_draw.c: the drawing and the listing of a list, as the pieces that are printed.
--   Container  src/skl_lc.c: the container of the created lists, each known by its address.
--   Failure    src/private/skl_priv.c: the text of the version, and the end of the process.
--   RoundTrip  an insertion followed by a search or a deletion.
--   Sorting    a client that inserts nodes one after the other and reads them with an iterator; `Session`
--              makes the list before and destroys it at the end.
--   Examples   small lists, a lock and a container, at which each property is applied.
--
-- An operation takes the list and the heap and returns them with a status; the whole result is an
-- Option, `none` where the C code would read or write out of bounds, compare a node that has no data,
-- or where a loop has not ended within its fuel. The comparison of the client is a function on data
-- into an Ordering, the sign of the result in C; what the operations need of it is `IsOrder`. A
-- destroyer of data is a function into Bool in a deletion and a function on the client's state in the
-- destruction of a list, a destroyer of nodes a flag: it takes the data away.
--
-- Bounds: addresses are numbers, 0 is NULL. A `uint` has its wrap-around written out (`% 2 ^ 32`). A
-- walk along a level has one round more than the list has nodes, which is enough on a list of the
-- invariant; loops over levels and over the words of the generator count down.
--
-- The lock: a status of the threads library is a parameter of a function of the lock; in a system of
-- threads its calls succeed, a wait may end at any time, a signal wakes some of the waiting writers
-- (`IsSignal`), and unless `calm` a wait may be cancelled. The integers of the lock wrap around; fewer
-- than 2 ^ 31 threads keep them in range. The function that a join or a copy calls for each node is
-- documented to make a node with the same data (`Copies`). `realloc` keeps the entries of the array and
-- counts as a call of `malloc`.
--
-- The macros: their calls of the threads library succeed, there are no cancelled waits, and fewer than
-- 2 ^ 32 threads keep the counters in range. The drawing: the sizes that the client's handler tells are
-- a parameter, its output for a node is one piece; an inner loop of it has as many rounds as a walk.
--
-- Not modelled: joins, copies and intersections of a list with itself, the first version of the macros
-- of skl_threads.h (calls of the lock), random doubles (floating point), the texts of the reports and
-- warnings, the memory of the second array that double links need, and the DBUG package, whose calls are
-- parameters.
pub mod Prelude
pub mod Heap
pub mod Rand
pub mod RwLock
pub mod Threads
pub mod Container
pub mod SkipList
pub mod Failure
pub mod Gen
pub mod Insert
pub mod Sorting
pub mod Upsert
pub mod Delete
pub mod Search
pub mod Misc
pub mod Init
pub mod Destroy
pub mod Double
pub mod Draw
pub mod Join
pub mod RoundTrip
pub mod Iter
mod Examples
