-- ===== src/Lib.antt =====
-- The kernel KaOS (MikuCOS): its containers, its scheduler and locks, its console and keyboard, its
-- strings, numbers and formatted output, its file descriptors, streams and filesystems, its devices,
-- its timer, its network and its shell.
--
-- The parts and their files:
-- - Base: the numbers, lists, Boolean tests and integers that the others share; Base/Outcome is a
--   result that can also be a panic or an endless wait.
-- - SpinLock: spin_lock.h, one word and its two exchanges.
-- - CharQueue: queue.c and queue.h, the ring buffer of the keyboard and the serial lines.
--   CharQueue/Fifo relates it to a list.
-- - Avl: avl.c and avl.h. A tree is an inductive type; a node is the structure that it is embedded
--   in, and the functions that the macros of avl.h generate per type are arguments. Avl/Balance is
--   about the skews and the height, Avl/Order about the items in order, Avl/Find about `avl_find`,
--   Avl/Keys about the comparison functions of a numeric key.
-- - Driver: driver.c, how a driver is found by its path, over Avl and CString. A name that does not
--   fit in its buffer is a panic.
-- - Methods: `invoke` of invoke.h, the lookup of a method in driver.c and device.c. It counts its
--   rounds on fuel; more rounds than an object has parents are enough.
-- - Mount: the comparison functions of the mount tree in filesystem.h, used with Avl.
-- - ListHead: list.h. The heap is two maps from addresses to addresses, `next` and `prev`;
--   ListHead/Ring says that a list of nodes is linked at a head, and Add and Del say what the
--   operations do to it.
-- - Vfs: file.c, how a path becomes a file, over `read_dir` of file_api.c and the mount tree. Calls
--   and rounds are counted on fuel: three calls more than the characters of the path, and more
--   rounds than a directory has entries, are enough. A name or a path that does not fit in its buffer
--   is a panic, as is a process without a free descriptor. What a filesystem does to enumerate a
--   directory is a parameter; Vfs/Walk says what the resolution relies on, Vfs/Mounts is about the
--   search of the mount tree, and Vfs/Path about the whole resolution.
-- - Rootfs: rootfs.c, the directories that are always there.
-- - Tarfs: tarfs.c, over Tar. The loop over the archive counts its rounds on fuel; more rounds than
--   there are files are enough.
-- - Fat: fat.c and fat_low.c. The disk is a function from block numbers to bytes. Fat/Listing is
--   about the root directory, Fat/Table about the table, Fat/Init about the mount.
-- - Partition: partition.c and mbr.h.
-- - Stdio: stdio.c, the streams that read. `read` and `write` are parameters; Stdio/Source says what
--   a stream relies on, Stdio/Chars is about `fgetc`, Stdio/Lines about `fgets`.
-- - Shell: shell.c, the command line, the search and the call of an application; Shell/Directory is
--   `builtin_cd` of shell_builtins.c, over PathName. The resolution of a path is a parameter of it.
-- - Timer: timer.c, the list of the delays; callbacks are functions on the rest of the kernel.
--   To remove a delay that is not in the list has no result, since the code then follows pointers
--   that are out of date. Timer/Calendar says when a delay is due, Timer/Events is about ticks, registrations and
--   removals in any order, Timer/Short about a delay that is rounded to 0 ticks.
-- - Thread: thread.c, over ListHead. The run queue is a ring; a thread is named by the address of
--   its control block. Thread/Schedule is about the order of the queue, Thread/Skip about the
--   functions that take a thread out of it.
-- - Sync: mutex.c and condvar.c, over Thread and SpinLock. The loops over waiting threads count
--   their rounds on fuel, and the theorems show that one round more than there are threads is
--   enough.
-- - CString: ctype.c, and the functions of libc.c that compare and search strings. A string is the
--   list of its characters without the final 0.
-- - Memory: the functions of libc.c that copy memory and strings, on a byte for each address. `strlen`
--   counts its rounds on fuel; more rounds than the string has characters are enough. The other
--   parts have strings as values.
-- - PathName: the functions of file.c that split a path.
-- - Numeral: libc_strtol.c and `itoa` of libc.c, over CString. `itoa` counts its digits on fuel, 32
--   of them, as many as 32 bits have in any base.
-- - Printf: `dprintf` and `dputs` of libc.c, over Numeral, as the characters that they hand to the
--   device.
-- - Console: virtual_console.c, virtual_console_ansi.c and virtual_console_line_mode.c, the text
--   console with its escape sequences and its line editing.
-- - Keyboard: keyboard.c with scancodes.h, over CharQueue. Keyboard/Keys is about the scancodes of
--   the keys, Keyboard/Interrupt about one interrupt, Keyboard/Strokes about a list of strokes. The
--   keymaps, which the build makes from defkeymap.map, are parameters.
-- - Descriptor: file_api.c, and the files of file.c and process.c behind the descriptors.
-- - Ngulfs: ngulfs_low_api.c, ngulfs_buffering.c, ngulfs_allocation.c and, in Ngulfs/Api, the reads
--   and seeks of ngulfs_api.c. Ngulfs/Cache is about the cache of clusters, Ngulfs/Extents about the
--   lists of extents, Ngulfs/Aligned about the bytes that are read. Where the record of a file
--   stands in its cluster is a parameter.
-- - Tar: tar.c. The search goes from header to header on fuel, one round more than there are blocks.
-- - Net: net/checksum.c, net/arp.c and byteorder.h, the checksum and the answer to an ARP request.
--
-- Integers of the source that only count or index are natural numbers, and integers with a sign are
-- those of Base/Int; where the source keeps a byte or a word, `% 256` or `% 2 ^ 32` is written.
-- The functions that read registers, ports or privileged state, and the drivers of hardware, are not
-- modelled: their effects are outside what the C code says. The memory allocator is a copy of a
-- library, and so is the formatted input of libc.c (`scanf`); a file is opened at an address that is
-- an argument. The registration of devices and drivers, the device filesystem, `filesystem_mount`
-- with its memory, the text screen of video.c, and the scan of the PCI bus are left out: they are
-- mostly calls of the allocator, of the drivers and of the hardware.
pub mod Base
pub mod SpinLock
pub mod CharQueue
pub mod Avl
pub mod Mount
pub mod PathName
pub mod CString
pub mod Memory
pub mod Driver
pub mod Methods
pub mod Keyboard
pub mod ListHead
pub mod Vfs
pub mod Tarfs
pub mod Fat
pub mod Partition
pub mod Stdio
pub mod Thread
pub mod Timer
pub mod Sync
pub mod Console
pub mod Numeral
pub mod Printf
pub mod Rootfs
pub mod Shell
pub mod Net
pub mod Ngulfs
pub mod Descriptor
pub mod Tar
