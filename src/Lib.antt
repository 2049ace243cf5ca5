-- ===== src/Lib.antt =====
-- A verification library of psplink, the debugger and remote shell for the PSP: the parts of it that
-- decide and compute, apart from the kernel calls around them.
--
-- The parts and how they interact. The shell splits a command line with parse_args
-- (psplink/parse_args.c) and reads addresses in its commands with memDecode (psplink/decodeaddr.c),
-- which evaluates an expression over numbers, registers, modules, threads, symbols and memory words,
-- and asks memValidate before it touches memory. Breakpoints and single steps are kept by
-- psplink/debug.c: its commands write break instructions into memory and remember the old ones, and
-- its exception handler takes them out again. The gdb stub (gdbcommon/gdb-stub.c,
-- gdbcommon/gdb-common.c) is a second debugger with a copy of the stepping code. It speaks packets
-- with the host (putpacket, getpacket), moves memory as hex digits or escaped bytes (mem2hex,
-- hex2mem), and drives the hardware breakpoints (handle_hwbp). On the other end of the USB cable,
-- usbhostfs_pc/main.c serves the host's files: it takes the requests of usbhostfs/usbhostfs.h (open,
-- read, write, list, rename and so on), turns their names into paths below the root of a drive, calls
-- the host's operating system and answers; bulk writes go to the one file that was opened for them.
-- The target's end of the cable is usbhostfs/main.c and usbhostfs/host_driver.c: the driver `host`
-- turns the calls of programs into those requests, exchanges them with the server under a semaphore,
-- and hands asynchronous packets to the channels that the shell, the stub and standard input read.
--
-- Which file models which part:
-- - Base: numbers, lists, Boolean tests and 32-bit words; Base/Memory: word memory. A memory is a
--   function from physical addresses, so that the mirrors of a word (cached, uncached, kernel) are one
--   cell, and `_lw` and `_sw` are `lw` and `sw`.
-- - Mips: the switch of step_generic in psplink/debug.c; Mips/Isa: where the architecture lets an
--   instruction continue, and what the switch makes of it.
-- - Debug: psplink/debug.c. `Debugger` holds g_bps, g_stepbp and the memory; the functions are
--   step_generic, debug_step (debugStep), find_bp, find_freebp, debug_set_bp (debugSetBP),
--   debug_delete_bp (debugDeleteBp), check_bp and debug_handle_exception (debugHandleException).
--   Debug/Image: the memory with every breakpoint taken out, which the operations are measured by;
--   Debug/Table: planting; Debug/Removal: deleting and the handler; Debug/Placed and Debug/Step:
--   single steps.
-- - Gdb/Hex: hex, hexToInt, strtohex, mem2hex and hex2mem, with GdbReadByte and GdbWriteByte;
--   Gdb/Transfer: memory out and in. Gdb/Packet: putpacket and getpacket; Gdb/Framing, Gdb/Termination
--   and Gdb/Resend: good packets, the end of the loop, and damaged ones. Gdb/Decode: the stub's
--   step_generic, written out apart from the debugger's; Gdb/Step: the two compared. Gdb/Hardware: handle_hwbp; Gdb/Registers: the debug registers behind it.
--   Gdb/Context: the registers of PsplinkContext in memory, and `Stub`, the state of the stub;
--   Gdb/Queries: handle_query; Gdb/Ranges and Gdb/Commands: computeSignal, build_trap_cmd and a
--   function for each command; Gdb/Stub: GdbHandleException, with a `Turn` for each round of its loop.
--   Gdb/Untouched, Kept, Rounds, Outside and Safety: what a command leaves alone, and the whole loop;
--   Gdb/Numbers, Requests and Exchange: a write and a read of the debugger; Gdb/Contexts: the
--   registers out and in.
-- - DecodeAddr/Memory: g_memareas, memValidate, deref_addr; DecodeAddr/Operators: do_op;
--   DecodeAddr/Line: the scanners of parse_line, exceptionGetReg (psplink/exception.c) and strtoul;
--   DecodeAddr/Parse: parse_line and memDecode; DecodeAddr/Shorter and DecodeAddr/Termination: its
--   end; DecodeAddr/Bounds: the areas and chains of dereferences.
-- - ParseArgs: psplink/parse_args.c; ParseArgs/Round and ParseArgs/Bounds: the room it takes;
--   ParseArgs/Plain: lines of plain words.
-- - Tty: the ring buffer of standard input in psplink/tty.c (inputHandler, ttyAddInputData), one step
--   for each section with interrupts disabled; Tty/Queue: the queue that it implements; Tty/Session:
--   the steps of several threads, interleaved.
-- - HostFs: usbhostfs_pc/main.c. HostFs/Host: the host's system calls and the USB transfers, as a
--   record of functions. HostFs/Paths: gen_path (Tokens), calc_rating, find_nocase, make_nocase and
--   make_path (Resolve), what is left of a path (Names, and told apart from the code in Left), the
--   directory's spelling of it (Nocase), where it leads (Below), and the directories that are opened
--   on the way (Opened). HostFs/Server: `Server` holds open_files, open_dirs, g_bulkfd, g_drives
--   and the sockets, with the world of the system calls; a handler is an action on it, a do block.
--   HostFs/Wire: the commands as bytes, and what the handlers have in common. HostFs/Transfer:
--   fixed_read and fixed_write; HostFs/Files, HostFs/Dirs and HostFs/Entries: the handlers;
--   HostFs/Dispatch: do_hostfs, do_async and do_bulk; HostFs/Session: add_drive, init_hostfs,
--   close_hostfs and the loop of start_hostfs. HostFs/Replies: what is written to the device;
--   HostFs/Safety: the invariants, by one rule for each action that changes the server (Keeps,
--   Invariant, Calls, Requests), the roots of the paths (Confinement, Roots), the tables (Handles,
--   Listing) and the reads (Contents).
-- - Device: the target's end. Device/Async: the channels of usbhostfs/usbasync.h (fill_async,
--   usbAsyncRegister, usbAsyncRead and so on), a step for each section with interrupts disabled;
--   Device/Async/Queue, Sound, Providers, Fifo and Wakeups: the queue that an endpoint is, what every
--   interleaving of the steps keeps, and who is woken. Device/Commands: the requests as bytes;
--   Device/Usb: read_data, write_data, command_xchg and send_async, as actions on a `Device`, in do
--   blocks; Device/Driver and Device/Entries: the functions of the driver; Device/Session:
--   usbAsyncWrite, usbWriteBulkData and usb_thread. Device/Link joins the device to the server of
--   HostFs by a cable: what the device sends waits, transfer by transfer, and the server takes a
--   packet when the device reads. Device/Exchange, Served, Requests, Blockwise, Reading, Spread,
--   Blocks and Whole: an exchange, an open and a read over it; Device/Steady: the flags of the
--   connection.
-- - Base/Slices: take and drop of what was joined; Base/Texts: strcmp, strcasecmp and C strings.
-- - Util/Chars: the character classes of psplink/util.c; Util/Path: its normalize_path, with
--   Util/Stack, a stack of directories, beside it, and Util/Segments, the parts of a path between its
--   slashes; Util/Handle: handlepath and isdir, with Util/Clean, Util/Ends and
--   Util/Handled on what they give.
--
-- State and errors. Mutable state is a record that the functions take and return. A value that the
-- source returns as 0, -1 or NULL for an error is `none`, or a constructor of its own where several
-- outcomes differ. Words of 32 bits wrap by `% 2 ^ 32`, and an `unsigned char` by `% 256`.
--
-- Fuel. GdbHandleException has a round more than the bytes that its link still brings. getpacket has
-- one round more than the bytes of its input, and each round takes one at least. memDecode reads at
-- most 1023 characters; its loop has 2048 rounds, of which a character needs at most two. The loop of
-- parse_args has as many rounds as the line has characters. The loops of fixed_read and fixed_write
-- have as many rounds as bytes are wanted, since each round moves one at least or ends them; do_bulk
-- has a round for each block of 64 KB and one more. So have the loops of read_data, write_data and
-- usbAsyncWrite a round for each byte, and each of them moves one at least. The loop of normalize_path
-- has as many rounds as characters stand behind the first slash, and each round takes one slash at
-- least.
--
-- Parameters. What the kernel says of modules and threads, and the symbol tables, are functions of the
-- environment of an expression (`Env`). The USB bus of the device and its semaphore are a record
-- (`Usb`). The kernel that the stub calls is a record (`Kernel`). The link of the stub is the list of
-- bytes that arrives before it is closed. The host's operating system is a record of functions (`Os`)
-- over a state of the world of which nothing is known: any answer of a call is possible, also any
-- failure. A call that signals interrupt is repeated finitely often. Where a theorem needs more of a
-- call, a record states it (`Reads`: what a read of a file brings). The ghosts `calls` and `sent` of
-- `Server` record the paths that were handed to the system and what was handed to usb_bulk_write, the
-- newest first.
--
-- Not modelled: printing, cache maintenance, semaphores and threads; GdbTrapEntry and GdbMain; the
-- shell's commands, scripts, symbol files, configuration, the disassembler and the other programs on
-- the host, which are kernel or library calls for the most part. Of usbhostfs/main.c and
-- usbhostfs/host_driver.c: the descriptors, the start and the end of the driver, and what a transfer
-- that failed leaves in the caller's buffer. Of usbhostfs_pc/main.c: its shell, options and mapping
-- file, the threads and sockets that the asynchronous channels lead to, and the lock on the drives.
-- The buffers of paths and of data have no end in the model, where the source overruns them: path
-- and the blocks of data in usbhostfs_pc/main.c, outputbuffer and output in gdbcommon/gdb-stub.c; a name
-- without a terminator ends with its data. The host is little-endian. Characters of 128 or more are
-- negative in the source where `char` is signed, and are in no class there as here. The addresses of
-- the debugger are taken as they are: an unaligned `_lw` would raise an exception on the machine.
pub mod Base
pub mod Debug
pub mod DecodeAddr
pub mod Device
pub mod Gdb
pub mod HostFs
pub mod Mips
pub mod ParseArgs
pub mod Tty
pub mod Util
