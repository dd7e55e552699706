-- ===== src/Lib.antt =====
-- smpcil, a C utility library for Linux: containers over a memory pool, and wrappers of the system.
--
-- The parts and how they interact. `smp_mpool` is the allocator: one block, a chain of further blocks
-- and a list of chunks that are too big for a block. The array, the list, the link and the stack of
-- `smp_stl` take their memory from a pool of their own; the queue and the red-black tree take nodes
-- one by one from `malloc`. `smp_error` keeps the text of the last error, which all parts set.
--
-- Base holds the names that all modules share: C's comparisons and fixed-width counters, sequences,
-- statuses. Libc is what the library calls in the C library (`malloc`, `posix_memalign`, `free`, the
-- page size, `strerror`): a parameter, with the documented laws of the allocator in `Libc.Laws`.
--
-- Error models smp_linux/smp_error/smp_error.c: `World` is the C library's memory with the buffer
-- `smp_errno`; `set_error` is `smp_set_error`.
--
-- Mpool models smp_mpool/smp_mpool.c and its header. A `Pool` is the chain of blocks, split where
-- `current` points, with `max` and the big entries. `mpalloc` is `smp_mpalloc`, `mpalloc_block` and
-- `mpalloc_bigpool` its two helpers, `create`, `mpfree_bigpool` and `mpdestory` the other functions.
-- Addresses are numbers, and `size_t` and pointer arithmetic wrap at 2^64. `smp_mpalloc` and
-- `smp_mpalloc_bigpool` call one another, so `mpalloc` runs on fuel; two are enough from a valid pool
-- whose `max` holds a big entry, and no fuel is where it is smaller.
-- Regions says who owns which byte; Chain, Age, Grow and Alloc prove what the loop over the chain, the
-- new block and the branch for small sizes do; Total is the theorem for the whole, Create is about
-- `smp_mpool_create` and the sizes that go wrong. Who owns a byte is modelled, what it holds is not.
--
-- PoolApi is what the containers ask of a pool, operations and laws; Mpool.Instance fills it with the
-- pool of smp_mpool.c, at fuel two. PoolApi.Counter is a small pool for tests.
--
-- Array models smp_stl/smp_array/smp_array.c over any `PoolApi`: a C function `smp_array_f` is `f`, and
-- its gotos and early returns are helpers that take the result of a call. An index cell is an option,
-- `none` until it is written; a result `none` is an access outside of the index, or to such a cell.
-- Elements says which addresses an array holds, Valid when it is well-formed; the other children
-- prove the operations. Only arrays that are there are modelled, not NULL.
--
-- PartList models smp_stl/smp_list/smp_list.c, in the same way: `list_push` is `smp_list_push`, and so
-- on. The parts from `head` on are a list, and `tail` is the last of them.
--
-- Stack models smp_stl/smp_stack/smp_stack.c, with nodes in a Store: `push`, `pop`, `recover` and the
-- tests are commands or functions over the record `Stack`. Counts pass through `int`, as SMP_VALUE
-- does. Chain says what a well-formed stack is: a chain of elements and one of nodes for reuse.
--
-- Strings models, from smp_linux/smp_string/smp_string.c, `__smp_str_split` (`split`, given the points of
-- the search) and the two trimming functions (`trim`, with the macro for a blank as an argument). A
-- buffer is its bytes up to its end; `none` is a read behind it. Loops go along the buffer.
--
-- Signals models smp_linux/smp_sig/smp_signal.c: a wrapper `smp_f` is `f`, over the record `Calls` of what
-- it calls; Mask states in `SetLaws` what POSIX documents of those calls.
--
-- Semaphores models smp_linux/smp_ipc/smp_sem.c likewise; the commands of `semctl` are the constructors of
-- `Command`, and `Values.Laws` states what POSIX documents of the values.
--
-- Store holds nodes at addresses, with a log of the calls that leave a component (through its function
-- pointers, and of `smp_set_error`), and commands that fault on NULL and on freed addresses. Dll has
-- the doubly linked nodes and the chains that they form.
--
-- Queue models smp_stl/smp_queue/smp_queue.c: the record `Queue` is `smp_queue_t`, an operation takes
-- it as an option (NULL is `none`) and returns the new one. Loops run on fuel `qlen + 1`, which the
-- theorems show to be enough. The address that `smp_calloc` gives is an argument. The mutex and the
-- condition variable are left out, since no function uses them.
--
-- Messages models smp_linux/smp_ipc/smp_msg.c, and Files smp_linux/smp_file/smp_file.c and smp_sio.c, in
-- the same way: Whole has the functions that use a whole file, Info those for types and times, Map
-- those that move in a file and map it, Dirs locks and directories, Streams the streams. A function
-- `smp_f` is `f`, but for names that a record of calls has: `smp_open` is `open_with`, `smp_close` is
-- `close_file`, `smp_read` is `read_some`, `smp_write` is `write_some`. Sample is a system for tests.
--
-- Rbt models smp_stl/smp_tree/smp_rbt.c with nodes in a Store, the sentinel among them; `rotate`, with a
-- side, is both rotations, and Fixup writes the branches for the two sides once. Ops has the functions
-- that look, insert and traverse, Remove those that take out. Loops run on fuel `size + 1`, for the
-- height of the tree. Rep says when the nodes form a tree and when its keys are in order. A proof about a
-- change works at a place: Place has the subtree and the path to it from the root, Steps the stores of a
-- link, Turn and Rotate the rotations, Zoom the moves of the place, State what holds on the way, Colors
-- the rule about red nodes, Heights the one about black nodes. Repair and Settle are the cases of a round of
-- `smp_insert_fixup`, Round the round, Loop its loop, Descend the way down by the comparison, Link
-- the link at its end, Sorted lists in order, Insert the whole of insertion.
--
-- Link models smp_stl/smp_link/smp_link.c with the nodes of Dll and the pool's addresses as arguments;
-- `enter` is `__smp_link_insert`, `set_up` is `__smp_link_init`, `take_out` is what the three functions
-- that remove a node share. Link/Valid says what a link stands for, with its kept nodes; Link/Insert and
-- Link/Remove are about the functions of these names. The searches and traversals run on fuel `size + 1`.
--
-- Not modelled: the creation and destruction of a link with its pool, the destruction of a whole tree,
-- the rest of the strings and the search, the title of the process. Output by `printf` is not modelled.
pub mod Base
pub mod Libc
pub mod Error
pub mod PoolApi
pub mod Mpool
pub mod Store
pub mod Dll
pub mod Queue
pub mod Link
pub mod Array
pub mod Stack
pub mod PartList
pub mod Strings
pub mod Signals
pub mod Semaphores
pub mod Messages
pub mod Files
pub mod Rbt
