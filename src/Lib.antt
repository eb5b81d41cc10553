-- ===== src/Lib.antt =====
-- The kernel of this repository, verified in part: a small 64-bit operating system in C, with a
-- physical frame allocator and a kernel heap below a preemptive scheduler for several CPUs and a
-- network stack.
--
-- Parts, with the file that models each:
-- - Pmm: src/kernel/pmm.c. The state is the bitmap (an array of 32-bit words), the stack of free
--   frames, the reference counts and the number of frames; alloc_frame, free_frame, ref_inc and
--   get_ref are pmm_alloc_frame, pmm_free_frame, pmm_ref_inc and pmm_get_ref, and init is pmm_init
--   on the tags of the Multiboot2 information, with the linker's kernel_end as an argument.
-- - Kmalloc: src/kernel/kmalloc.c. The state is the list of block headers with their addresses,
--   and the statistics; kmalloc, kfree and get_stats are the functions of these names, and
--   first_fit, take_block and merge_from are their loops.
-- - Lock: src/kernel/lock.c. Each atomic operation of spin_lock and spin_unlock is one step of one
--   CPU, so that every interleaving of any number of CPUs is a sequence of steps; Lock.Registry is
--   the table of named locks.
-- - Task: src/kernel/task.c and the part of src/kernel/cpu.c that it uses. Task.Runqueue has the
--   run queue with its pointers; the other modules take the list that these lead to.
--   task_schedule, pick_next, task_steal, task_timer_tick and pick_least_loaded_cpu are the
--   functions, or the loops of the functions, of these names.
-- - Tcp: src/kernel/tcp.c, with the port bindings of src/kernel/net.c. Segments that the code
--   hands to net_send_tcp are returned as a list.
-- - Vfs: src/kernel/vfs.c and the sector cache of src/kernel/tar.c. vfs_open, vfs_read, vfs_write,
--   vfs_size and vfs_close are the functions of these names; vfs_open takes the result of
--   tar_find_file as an argument. Vfs.Tar: the headers of the archive, with strcmp of
--   src/kernel/string.c; open_path is vfs_open with its search. Vfs.Wrapping: the loop of
--   vfs_write where the offset wraps round.
-- - Ext2: src/kernel/ext2.c; a buffer holds what was in its memory before, and the inode and the
--   kind of the node that ext2_finddir makes are kept.
-- - Task.Create: the creation of tasks and task_fork in src/kernel/task.c, over the heap of
--   Kmalloc and a memory of words; Task.Snapshot: task_get_all_info.
-- - Net: src/kernel/net.c and the layouts of include/kernel/net.h. Sent frames are lists of bytes,
--   a received packet is memory from a pointer on with a length, and the state keeps what was sent
--   and which handlers were called; Net.Receive has the handlers, whose TCP part is Tcp, and
--   Net.Transmit net_send_tcp with its checksum.
-- - Dhcp: src/kernel/dhcp.c over Net. A reply is memory with a length, as in Net; the hardware
--   address that the card reports is an argument.
-- - Vmm: src/kernel/vmm.c over Pmm. Memory maps the address of a table and an index to an entry;
--   ensure_next_table takes what another CPU does between its two looks as an argument.
--   Vmm.Sharing: the copy of an address space, whose pages are shared until one side writes, and
--   its release; Vmm.Fault: handle_page_fault of src/kernel/idt.c, over the page tables and the
--   bytes of memory.
-- - Elf: src/kernel/elf.c over Vmm; the file is memory from its first byte on, and no frame lies
--   in it.
-- - Printf: src/kernel/printf.c, with strlen of src/kernel/string.c. Memory maps an address to a
--   character; the format is the memory from its pointer on, the text written so far is a list
--   whose length is the index i, and its final 0 is left out.
-- - Mouse: mouse_handler of src/kernel/mouse.c, with what the two ports read as arguments.
-- - Window.Dirty: the rectangles of src/kernel/window.c and the list of those to draw again;
--   signed coordinates are their residues modulo 2 ^ 32, and the screen is an argument. Window:
--   the event ring of that file; push_event is window_push_event, and pop_event the part of
--   window_pop_event behind the search for the window.
-- - Window.Manager: the list of windows of src/kernel/window.c by their addresses, from the top,
--   with the reference counts and the calls that make, find, own and destroy windows;
--   Window.Update: window_update up to its drawing, and the snapshot of window_draw_all.
--   Window.Calls has the calls of any CPUs as steps; window_update and window_draw_all are two
--   steps each, as they let the lock go in between.
-- - Base: Boolean tests, lists, maps and bits that the other modules share.
--
-- How they interact: the frame allocator, the heap and the run queues are each entered under a
-- spin lock, so that their calls are modelled as one step. A call of task_schedule or of vfs_read
-- or vfs_write and a page fault are one step too, although the code takes several locks in turn,
-- or none, so that theorems on these say nothing of CPUs that act in between. The scheduler takes
-- tasks from run queues, gives those that have exited to task_reap, and is asked for by the timer;
-- segments reach TCP through the bindings of the network stack, and a connect adds a binding.
--
-- Numbers: machine integers are natural numbers, with the wrap-around written out where the code
-- can overflow (u8, u16, u32, u64). NULL is 0.
--
-- Bounds and fuel: the loops of pmm_init over an address range run on one more round than pages
-- lie between the addresses (rounds). The loops of vfs_read and vfs_write run on as many rounds as
-- bytes are to be transferred, which is enough as each round transfers one at least. The loop of
-- ext2_read runs on as many rounds as bytes are wanted; the rounds of ext2_finddir in a block are
-- an argument, as its loop need not end. The searches of tar headers run on 20001 rounds, which is
-- enough as each goes on by a sector at least and stops 20000 sectors behind the start. The loops
-- of itoa run on 64 and 65 rounds, as a number has at most 64 digits; the string loop of vsnprintf
-- runs on the size of the buffer. The loop of task_schedule runs on fuel: a number of rounds above
-- the total length of the run queues is enough, as each round takes one task and puts none back
-- while no queued task is marked as running.
--
-- Not modelled: assembly, the entry of interrupts and their dispatch but for the page fault,
-- device drivers and drawing; stacks and address spaces of tasks, which task_reap releases (the
-- model records which tasks it was called on); log messages; the frames that kmalloc_init takes
-- from the frame allocator, as the heap lies in memory that is mapped in any case; the set-up of
-- Ext2, and the drawing of windows; system calls, the shell, the keyboard and the log.
pub mod Base
pub mod Dhcp
pub mod Elf
pub mod Ext2
pub mod Kmalloc
pub mod Lock
pub mod Mouse
pub mod Net
pub mod Pmm
pub mod Printf
pub mod Task
pub mod Tcp
pub mod Vfs
pub mod Vmm
pub mod Window
