-- ===== src/Lib.antt =====
-- A verification library for the C projects of this repository.
--
-- Threads models the user-level threads of "2. Threading Library" and "3. Thread Synchronisation"
-- (threads.c, ec440threads.h):
-- - Threads/State: thread_control_block, jmp_buf and the globals; a call that switches threads ends by
--   a jump to saved registers.
-- - Threads/Scheduler: schedule, scheduler_init, pthread_create, pthread_exit, pthread_self. The
--   endless search of schedule runs on 128 rounds: as it changes nothing but the index, a full round
--   of the table without a ready thread never ends.
-- - Threads/RoundRobin, Fairness, Lifecycle, Exit, ExitCases, Execution: what these promise.
-- - Threads/WaitList, WaitQueue: the linked list of waiting threads on a heap, and the queue it is.
-- - Threads/Sync, Mutex: mutexes and the set-up of barriers. Threads/Barrier: pthread_barrier_wait in the
--   stretches between its calls of schedule. Threads/BarrierRun, BarrierHolds, BarrierOfOne: these on the
--   machine, where schedule and the alarm pick the thread that goes on. Threads/BarrierRounds: the order of
--   the stretches alone, on the control block.
-- - Threads/Tests, SyncTests, BarrierTests: runs at small states.
-- What the code gets from the machine and from libc (registers, blocks from malloc, the pointer guard,
-- the addresses of start_thunk and pthread_function_return_save) is an argument. Each stretch between
-- two calls of schedule is one step, so an alarm inside a stretch is not modelled.
--
-- FileSystem models "5. Virtual File System" (fs.c, disk.c):
-- - FileSystem/State: the structures and globals of fs.c, and the disk. A call returns a number, or
--   accesses an array out of its bounds (fault).
-- - FileSystem/Directory: fs_open, fs_close, fs_create, fs_delete, fs_get_filesize, fs_listfiles,
--   fs_lseek. The loops over a chain of blocks run on more fuel than the table has entries.
-- - FileSystem/Disk: block_read, block_write. FileSystem/Transfer: fs_read, fs_write, fs_truncate.
-- - FileSystem/Chain, Valid, OpenClose, CreateSearch, Created, Create, Delete,
--   Truncate: the chains of blocks, what holds of a mounted
--   file system between two calls, and the calls that change the directory.
-- - FileSystem/Contents, Grow, ReadWrite, Write, Read, WriteValid, WriteKeeps: the bytes of a file, and the calls on them.
-- - FileSystem/Layout: the images of the structures in a block, as gcc lays them out on x86-64 (8 bytes
--   for an inode, 32 for a directory entry, 28 for the superblock). FileSystem/Mount: make_disk, open_disk,
--   close_disk, make_fs, mount_fs, umount_fs over the files of the host.
-- - FileSystem/Images, TableBlocks, Remount, Format, LeftOpen: what these promise.
-- - FileSystem/Tests, MountTests: runs at small states.
-- The bytes of a name end where the C string does. In an image the bytes between two fields and those
-- behind the end of a name are 0. A superblock with a negative number has no model. The files of the host,
-- which of them it opens, creates and fills, and at which blocks of the open disk its calls fail, are
-- parameters or part of the state; what malloc and a variable without a value hold is a parameter.
--
-- Tls models "4. Thread Local Storage" (tls.c):
-- - Tls/State: pages, storages and items on a heap of numbered blocks, each live from malloc to free,
--   and the memory that mmap gives. Tls/Table: the hash table (Find, Add, Remove).
-- - Tls/Storage: tls_read, tls_write. Tls/Life: tls_create, tls_destroy, tls_clone.
-- - Tls/Shares, Isolation, Copy, Write, Protect, Access, ReadBack: storages that share pages, the private copy
--   that a write makes, and the calls. Tls/Create, NewPage, CreateLoop,
--   CreateShared, SharedPage, CloneLoop, CloneShared, Destroy, Unowned: the other calls. Tls/PageFault, Handler: tls_handle_page_fault, for a fault in the page of memory with a number.
-- - Tls/Tests: runs at two threads.
-- Each call is one step: tls_read and tls_write hold the mutex of tls.c around their accesses to the
-- pages, the other calls do not take it, and their interleavings are not modelled. A list of the table
-- is followed on fuel for as many items as blocks were ever given. The number of a block or mapping is
-- not given again. An access to memory that mprotect has not opened for it is a fault, as is an index from
-- 2 ^ 31 on, where the int of the loops is negative.
--
-- Shell models "0. Simple Shell Parser" (myshell_parser.c, myshell_parser.h), which "1. Simple Shell"
-- has a copy of:
-- - Shell/Text: strtok_r, findChars and deleteWords on the bytes of a C string before its 0. A loop runs on
--   one more round than the text has bytes, and each round takes a byte at least.
-- - Shell/Parser: struct pipeline_command and struct pipeline, p_command_link, pipelines and
--   pipeline_build. The next pointers are the order of a list. An access through a null pointer or beyond
--   command_args is the result crash. malloc and strdup succeed, and pipeline_free has no model.
-- - Shell/Tokens, Bounds, Argv, Printer, RoundTrip, RedirectIn: what these promise.
-- "1. Simple Shell" (myshell.c):
-- - Shell/Exec: execCommand, and the loop of main over a pipeline. A process has a list of descriptors
--   with the last change first, and the shell lists what it has done: a prompt, a child started with its
--   arguments and descriptors, a wait. The host is a parameter: each new descriptor is one that is not in
--   use, and there is always one, so that pipe succeeds; it says whether a fork succeeds.
-- - Shell/Main: main, with fgets on the text of the input, which has no byte 0. Each round of the loop
--   takes at least one byte, so that it runs on one more round than the input has bytes.
-- - Shell/Wiring, Foreground, Redirects, Session: what these promise. Shell/Tests: runs at small lines.
-- Which child a wait or the handler of SIGCHLD reaps is not modelled.
pub mod Base
pub mod FileSystem
pub mod Shell
pub mod Threads
pub mod Tls
