-- ===== src/Lib.antt =====
-- RISC-V OS1000, a teaching kernel for RV32, modelled from its C source.
--
-- The kernel boots on the virt machine of QEMU. An allocator hands out pages, the virtio transport
-- moves buffers between a driver and a device over two rings, the network driver feeds what it
-- receives to ARP and IPv4 from its interrupt handler and sends what they build, a process has a
-- page table that shared memory objects are mapped into, the scheduler goes round the processes,
-- two files are kept in a tar archive on a block device, system calls let a process read and write
-- them, the shell parses command lines, and printf writes to the console.
--
-- Files and what they model:
-- - Base: the library names that all parts share; arrays as lists, the search loop, sums over an
--   array, counted loops, machine words, bit operations, and panics as results.
-- - Memory: the byte loops of kernel/common.c (memset, memcpy) over a byte-addressed memory, in
--   Blocks, and between two arrays, with strcpy and strcmp, in Strings.
-- - Allocator: kernel/allocator.c. Heap is the region table with the memory; alloc_pages and
--   release_pages keep their names, and the body of the pair of loops of merge_free_regions is
--   merge_pair. Ownership says who owns a byte, Merge, Carve, Alloc and Release follow the
--   operations, Calls and Reach follow any sequence of them.
-- - Console: the output of kernel/common.c, printf and below, as the bytes handed to putchar. Decimal
--   and Hex read the digits back.
-- - Virtio: kernel/virtio.c. Virtq is a queue with the memory that driver and device share. Used and
--   Avail are the two rings as queues, Pop is one step of taking completions, Probe is the search for
--   a device.
-- - Net.Wire: the byte order of the packets.
-- - Net.Arp: kernel/arp.c. Arp is the cache with the pending reply. Slot and Cache follow the cache,
--   Packet the packet format.
-- - Net.Ipv4: kernel/ipv4.c. Ipv4 is the counters with the next identification; Checksum, Header and
--   Receive follow the checksum, the packet that is sent and the packet that is received.
-- - Net.Driver: kernel/virtio_net.c and kernel/interrupt.c. Nic is the static variables of the driver,
--   Net is the driver with the protocols above it. Captures is the capture ring, Drain, Sent and Irq
--   the interrupt handler, Send, Wait and Frame the sending of a frame and the wait for it.
-- - Net.Stack: the operations of kernel/arp.c and kernel/ipv4.c that send.
-- - Paging: the process record of include/process.h, and map_page and unmap_page of
--   kernel/process.c over the words of memory. Words is loads and stores, Root the soundness of the
--   first level, Mapping the translation, Fresh the page that a table starts from. Tree is a table
--   with its second levels, Keeps, Frame and Extend what a map_page leaves alone, Apart two tables,
--   Step all that one map_page does, Recorded what it leaves in the process record.
-- - Processes: the rest of kernel/process.c. Kernel is procs with the two pointers into it and what the
--   processes share. Stack, Range, Image and Create follow the parts of create_process, Steps, Made,
--   Others, Failure and Outcome what it makes, leaves alone and answers; Schedule follows yield, and
--   Release the end of a process. Count and Fit are the number of regions that a process records.
-- - Blk: kernel/virtio_blk.c. Blk is the static variables of the driver. Interrupt follows the handler
--   and the wait, Request what the device finds, Transfer read_write_disk, Archive the files over it.
-- - Files: kernel/filesystem.c. Fs is the files with the disk buffer, and Disk what it asks of the block
--   driver. Octal, Entry and Written follow one entry of the archive, Archive and Reading all of them,
--   Sectors the moves of the buffer, RoundTrip fs_flush and fs_init, Lookup fs_lookup.
-- - Syscall: the calls of kernel/syscall.c on files and on shared memory; Persist follows the files.
-- - Shell: user/shell.c. Digits, Address and Printed follow parse_ipv4, Commands the lines.
-- - Shm: kernel/shm.c. Pool is the object table with the heap. Keys follows shm_get, Attach follows
--   shm_attach and shm_detach.
--
-- Conventions. A word of w bits is a natural number below 2 ^ w, and its wrap-around is written out;
-- an int is its bit pattern, so -1 is 2 ^ 32 - 1. A panic is a result of its own, since nothing runs
-- after it. A null pointer is none. Where C leaves a behaviour undefined, printf gives none.
--
-- Loops and fuel. Loops over arrays are structural or count up to the size of the array. Two loops
-- have fuel that is enough by a theorem: fold_carries takes two rounds, and the loops that drain a
-- queue take one more than the number of waiting completions. The loop of print_num takes ten
-- rounds for the ten digits of a word. wait_for_interrupt runs over a list of rounds, what the
-- device has written by each interrupt; it gives none where the list ends while the loop still waits.
--
-- The waits of the block driver run over rounds in the same way, and the loop of its handler takes one
-- more round than completions wait. strcpy and strcmp take a bound on their rounds: the size of the
-- array that they read, or more than the length of the text that they compare with, which is enough
-- where there is a zero within it. The loops of create_process run for the pages of their range.
--
-- What the device does. Device-owned memory changes between rounds, so a handler sees one state of
-- the rings for its whole run, as if the completions of that time had all come before it. The block
-- device is a parameter, a function from the request to its rounds and its disk after them; the
-- theorems ask that it serves requests. The layout of the linker scripts is a parameter too.
--
-- Arrays that C overruns. The loops that clear the regions of a process run past the array: their
-- zeros are modelled where they fall. The table of regions that a process keeps is written as if it
-- had room for one more, and a write behind its end is dropped, where C is undefined: a process of
-- more than 64 regions is outside the model, and Processes.Fit bounds the image for which none is.
--
-- Not modelled. Control registers and the interrupt enable bit, the register writes that bring a
-- device up, assembly (boot, traps, context switch), the functions that only dump a table or report,
-- the dispatch of system calls and interrupts, and what the commands of the shell do.
pub mod Base
pub mod Memory
pub mod Allocator
pub mod Console
pub mod Virtio
pub mod Net
pub mod Paging
pub mod Blk
pub mod Processes
pub mod Files
pub mod Shell
pub mod Syscall
pub mod Shm
