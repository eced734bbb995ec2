-- ===== src/Lib.antt =====
-- eotan is a small operating system with a microkernel: the kernel (kernel/), its containers and C
-- library (lib/), file-system libraries (lib/libtfs, lib/libvfs), servers, drivers and commands.
-- This library models parts of it as functions over values and states, and proves what they
-- promise.
--
-- Prelude holds the shared names; Bits and Bitmap the words and arrays of words that the
-- allocators use, with a set bit for a free number. A pointer into a structure is an index, a
-- 32-bit word is a natural number with its wrap-around written out, a status of -1 or NULL is
-- `none`.
--
-- Kernel/Palloc is kernel/palloc.c: `palloc`, `pfree`, `pzero`, over the memory map and the words
-- of memory. Its loop runs over the blocks left, so it needs no fuel.
--
-- Kernel/State is the state of the scheduler: the threads by their key in the thread tree, the
-- ready queues and their bits, the running thread, and the `sync` flags of `sysinfo`. The calls
-- change it as one after another: Kernel/Ready is kernel/ready.c (`ready_enqueue`,
-- `ready_rotate`, `tick`, `ready_dequeue`, whose loop clears one of 32 bits in each round, so 32
-- rounds are enough), Kernel/Sync is kernel/sync.c, `dispatch` and `ipc_notify` (`wait`,
-- `release`, `release_all`, `leave_serialize`), Kernel/Thread is kernel/thread.c, built on both,
-- and Kernel/Ipc is kernel/ipc.c: Kernel/Ipc opens, closes and listens, Kernel/Ipc/Message calls
-- and Kernel/Ipc/Send receives, sends and replies; what a call does after it waited is an
-- operation of its own, `reply_tree` is a map from its keys, `reply_sequence` is that of
-- Set/Sequence, and the copying between the memories of threads (drivers/i686/memcpy.c) is any
-- partial function. A read through a null pointer sets `crashed`. The machine context is not
-- modelled: `context_switch` is the change of the running thread. Kernel/Thread/Steps makes the
-- kernel a step relation over these operations.
--
-- Set/Sequence is lib/libnc/set/sequence.c and sequence_initialize.c. Its loops are counted.
--
-- Set/Tree is lib/libnc/set/aatree.c, aatree_first.c, aatree_root.c and aatree_traverse.c: the tree
-- is a data type whose empty tree is `nil_node`, a key is counted from the smallest `int`, and
-- `tree_create` is given no comparison and no choice of a root. Set/Tree/Assoc is the map that it is
-- held against, and Set/Tree/Reached the trees that its operations make. To split the nil node is `none`, which would raise the level of every empty tree.
--
-- Set/Ring is lib/libnc/set/ring.c over a memory that is a function of the place; its loops run for
-- two rounds, after which a position that wraps round has done so, and Set/Ring/Put shows with
-- Set/Ring/Laws that nothing is left to do.
--
-- Set/Heap is lib/libnc/set/heap.c and include/set/heap.h over a buffer that is a function of the
-- index. A loop runs on fuel, as many rounds as the index it starts from, or as there are values;
-- Set/Heap/Up and Set/Heap/Down show that these are enough.
--
-- Set/Links is lib/libnc/set/list.c, list_release.c and include/set/list.h, on one store of links in
-- which an entry is an address; the other parts use a list as the sequence of its entries, and
-- Set/Links/Refine shows that this is what the links stand for. `list_release` runs on fuel, one
-- round for each entry and one more.
--
-- Rc/Zle is lib/librc/zle_encode.c and zle_decode.c; the streams are lists of bytes and the loops
-- run on fuel, one round for each byte of the input and one more, since every round reads a byte.
--
-- Fs/Cache is lib/libvfs/cache.c: the slots and the lists of them, the hash table, which has room for
-- every slot, as a map from channels and block numbers, and the blocks of the devices. The devices'
-- functions are parameters; a write that fails may leave anything in its block. Every loop goes
-- down a list. Fs/Cache/Valid says what every operation keeps, Fs/Cache/Pick takes a slot for another
-- block, Fs/Cache/Clean, Flush, Sync and Whole write the dirty blocks.
--
-- Libc/Gmtime is lib/libc/others/gmtime_r.c for times below 2^31; Libc/Gmtime/Calendar is the
-- calendar that it is held against. Libc/Utf8 is lib/libc/stdlib/wctomb.c, mbtowc.c and mblen.c
-- over memory that holds a byte at every index. Libc/Strtoul is lib/libc/stdlib/strtoul.c on the
-- bytes before the NUL, where every loop goes down the list; Libc/Strtol is strtol.c, which shares
-- that text. Libc/Strtoul/Text is what they are held against, the numbers as text.
--
-- Str is lib/libnc/string: strstr.c, memmove.c, memcpy.c, memset.c, strtok_r.c, strspn.c,
-- strcspn.c and strpbrk.c, on the bytes before the NUL or on a memory that is a function of the address, where no address wraps
-- round; `strstr` counts its places in an `int`, which wraps. It runs on fuel, one round more than
-- the string is long, since every round moves on. Str/Place says where a key stands.
--
-- Ctype is lib/libnc/ctype/ctype.c, its table included.
--
-- Not modelled: drivers, servers, commands, the starter, drawing and fonts, which are input and
-- output or glue over these parts; PROJECT.json lists them.
pub mod Bitmap
pub mod Bits
pub mod Ctype
pub mod Fs
pub mod Kernel
pub mod Libc
pub mod Prelude
pub mod Rc
pub mod Set
pub mod Str
