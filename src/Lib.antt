-- ===== src/Lib.antt =====
-- Verification library of Rusty Penguin, an operating system and desktop in Rust.
--
-- The program is a workspace of crates. ternary-core has the balanced ternary number (a Tryte of nine
-- trits); mathematics, hardware-abstraction and ai-runtime compute with it. The kernel (kernel/src) has
-- a frame allocator (pmm.rs), used by its virtual memory, and a filesystem (rpfs.rs) over a block device
-- that diskfs.rs wires to the AHCI driver; ramfs.rs has the files of the boot archive. The desktop
-- (desktop-metal/src) runs on a heap of its own and has windows, an editor and a filesystem in memory
-- that it mirrors to RPFS by system calls. The shell (shell/src) installs packages. This library models
-- these parts, by translation of the functions; a module stands for a source file or a part of one:
--
-- Ternary/Trit, Ternary/Tryte: ternary-core/src/lib.rs. Ternary/Arith: mathematics/src/lib.rs. A Tryte is
-- a list of nine trits; an operation that indexes past the end or unwraps a missing value returns none.
-- Runtime: ai-runtime/src/lib.rs and hardware-abstraction/src/lib.rs. A tensor is a shape and a list of
-- trits; the statistics of TernaryLinear::forward are returned with its result.
-- Pmm: kernel/src/pmm.rs. The statics are the record Pmm; the bitmap is a function from word indices to
-- 64-bit words, and every access is guarded by MAX_PAGES as in the code. The counters wrap at 2^64.
-- Rpfs/Layout, Rpfs/Volume: kernel/src/rpfs.rs, the geometry, the state kept in memory, the block bitmap
-- and the directory entries. A byte buffer is a function from offsets to bytes, so the lengths that the
-- code checks by slicing are taken as given: the directory has 2048 entries, and the bitmap covers
-- total_blocks. A superblock that breaks the latter is read by the code without a test.
-- Rpfs/Device, Rpfs/Dirs, Rpfs/Files: the rest of kernel/src/rpfs.rs. The device is a record BlockDev of
-- its two calls, on a state of its own, which the operations take. The theorems hold of every device,
-- since the code ignores the results of its flushes, but the one on refusals, which takes that the
-- device's writes succeed. Rust's open is open_volume here.
-- Ramfs: kernel/src/ramfs.rs, the cpio archive of the boot loader, as a function from offsets to bytes.
-- Desktop/Heap: desktop-metal/src/heap.rs, the free list behind the desktop's allocator. Memory is a
-- function from addresses to words; Blocks says what list of blocks it holds, and the children prove the
-- walk of the pointers against that list.
-- Desktop/Vfs: desktop-metal/src/vfs.rs, the files in memory and their mirror, and the system calls 25 and
-- 26 of kernel/src/syscall.rs that it makes. The files of diskfs.rs below them are parameters, of which a
-- theorem takes only what a write that succeeds promises. Rust's name data is contents here.
-- Desktop/Window: desktop-metal/src/wm.rs without its drawing.
-- Desktop/Editor, Desktop/Ansi: desktop-metal/src/editor.rs, ansi.rs and clipboard.rs. Editor/Files opens
-- and saves through Desktop/Vfs. A string is its bytes in UTF-8, and a panic is none.
-- Shell/Packages: shell/src/pkg.rs, the index of packages and the order of installation. The test of
-- what is installed is a parameter; a text is its code points. The order is kept newest first.
-- Base: shared names. Base/Int has signed integers with i8, i32 and i64 wrap-around, Base/Division
-- truncated division, Base/Bits the bits of a word, Base/Runs the first-fit scan that pmm.rs and rpfs.rs
-- both write out.
--
-- Loops are structural recursion on the rounds that are left, a number that the code's own bound gives
-- (words of the bitmap, blocks of the volume, entries of the directory). In Rpfs/Device and Rpfs/Files the
-- loops over chunks of 64 sectors carry fuel equal to the number of sectors, each round covering at least
-- one; alloc and locate of Desktop/Heap carry the end of the arena, since addresses go up along the list;
-- visit of Shell/Packages carries the length of the index, since the names on the way are distinct packages
-- of it; the walk of Ramfs carries the size of the archive, since each round goes on; the digits of a
-- number n carry n; tighten carries the number of blocks, which each round lowers by one.
--
-- Not modelled: pmm::init, virtual memory, scheduling, the network, cryptography, drivers, drawing,
-- the desktop's other applications, and the shell beyond its packages. Concurrency is not modelled: each
-- operation runs alone, as it does under the locks that the kernel holds.
pub mod Base
pub mod Desktop
pub mod Pmm
pub mod Ramfs
pub mod Rpfs
pub mod Runtime
pub mod Shell
pub mod Ternary
