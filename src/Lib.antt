-- ===== src/Lib.antt =====
-- A verification library for Sol OS, an x86_64 kernel in C.
--
-- Parts, and the files that model them. Sources are named by their path from the repository's
-- root.
--
-- * Mm/Pmm and its children: kernel/mm/pmm.c. The static variables are the record `Pmm`, the
--   bitmap is memory by word (`ℕ → ℕ`). `alloc_page`, `free_page` and `init` are pmm_alloc_page,
--   pmm_free_page and pmm_init; Pmm/Init takes the memory map as a list of entries. Pmm/Owner has
--   the step relation of a client that allocates and frees.
-- * Mm/Heap and its children: kernel/mm/kheap.c. The block headers are a function from addresses,
--   the pointers addresses with 0 for NULL. The walks along the chain have as fuel the number of
--   headers that the heap has room for. Not the mapping of the heap's pages.
-- * Libc and its children: libc/string.c on memory as a function from addresses to bytes. A byte
--   string ends at the first 0; strlen, strcmp and strcpy loop on fuel, for which one more than
--   the length of the string will do: each round reads one byte and the 0 ends them.
-- * Arch/Keyboard and its children: kernel/arch/x86_64/keyboard.c. The handler takes the byte
--   from the data port.
-- * Arch/Mouse and its children: kernel/arch/x86_64/mouse.c, the interrupt handler and
--   mouse_get_delta. Not mouse_init.
-- * Arch/Rtc and its children: kernel/arch/x86_64/rtc.c. The CMOS is a function from the number
--   of a read to its registers, as the chip changes between reads.
-- * Virtio/Queue and its children: kernel/drivers/virtio/virtio.c, the queue operations. The
--   rings, which the device shares, are functions from index to element; what the device writes
--   (`used_pub`, `used_ring`) is a change between two steps. Not the search for the device and
--   its negotiation, which are bus accesses.
-- * Net and its children: kernel/netstack.c. `World` has the connection (`Conn`), the ARP cache,
--   the caller's buffer, the frames sent and the calls of the callback. Net/Bytes has the
--   checksum, Net/Arp the cache, Net/Send the frame builders, Net/Dns the queries and answers,
--   Net/Http the request and the header of the answer, Net/Tcp the segment handler, Net/Api the
--   dispatch of frames and ns_http_get, Net/Poll ns_poll. The functions of kernel/tls.c are a
--   record of operations on `World`. dns_skip_name recurs on fuel, one more than the message's
--   length; the loop of the checksum's carries has two rounds, which 32 bits need.
-- * Klog and its children: kernel/klog.c, from the format and the arguments to the characters
--   written. The digits have as fuel the size of their buffer, 32, and 64 bits have 20 digits at
--   most.
-- * Screen and its children: drawing in kernel/desktop.c. Screen/Clip has bb_clip and fb_clip of
--   kernel/framebuffer.c, Screen/Fill the primitives on the back buffer (a function from word
--   index to word), Screen/Damage the damage of a frame, Screen/Present blit_rect and
--   present_flip on the video memory with its two pages, Screen/Present/Clock the repaint of the
--   clock. Coordinates are integers; bb_clip has the wrap of its sums. Pages are counted in words
--   of 32 bits, and a row has no padding when there are two.
-- * Desktop/Fs and its children: the file table of kernel/desktop.c.
-- * Desktop/Windows and its children: the table of windows (`Desktop`), with win_open and the
--   other operations in Windows/Ops and the pointer of desktop_poll and handle_left_press in
--   Windows/Pointer. Redraws and the initialisation of an application are entries of a list of
--   calls.
-- * Desktop/Notepad and its children: the notepad, its text as memory, its names as lists;
--   Notepad/Files has the saves and the keys. The search for the next file takes at most 32
--   turns, one for each slot of the table.
-- * Desktop/Terminal and its children: the terminal; Terminal/Shell has its commands and keys.
--   Digits have as fuel the bound of the code's loop.
-- * Desktop/Manager and its children: the file manager.
-- * Png and its children: kernel/png.c, the chunks of a file (read_chunks) and the rows behind
--   the inflater (decode_rows). The walk over the chunks has a turn for each byte of the file,
--   and each turn moves on by 12 bytes or more.
--
-- The parts meet in the kernel as follows: the interrupt handlers put input into the rings, which
-- the desktop drains; the drivers take pages from the page allocator; the network drivers use the
-- virtqueues.
--
-- Integers are natural numbers with the wrap of their C type written out where a value can reach
-- it. Where the other files log, the log line is left out; the assembly files, interrupt tables
-- and port I/O have no model.
pub mod Base
pub mod Mm
pub mod Libc
pub mod Arch
pub mod Virtio
pub mod Net
pub mod Desktop
pub mod Klog
pub mod Screen
pub mod Png
