-- ===== src/Lib.antt =====
-- The kernel of NACHOS with a file system (nachosWithFS-DFSFinal/code): a simulated MIPS machine
-- runs user programs under a kernel of threads whose file system keeps its files on a simulated disk.
--
-- The parts and how they meet. A file's header (FileHeader) lists the sectors that hold it; it
-- takes them from a bitmap of free sectors (Bitmap) and keeps its indirect headers on the disk
-- (Disk). A directory (Directory) leads from names to the sectors of the headers. User programs
-- run on the machine (Machine), whose memory accesses go through a page table or a TLB.
--
-- - Bitmap: lib/bitmap.cc. A record of the size and the 32-bit words; Test, Mark, Clear,
--   FindAndSet, NumClear, Print and the constructor are the functions of the same names.
-- - Directory: filesys/directory.cc. The table is a list of entries; a name is the list of the
--   characters of its array. CString holds strncmp and strncpy of the C library, as far as the
--   directory uses them.
-- - Disk: filesys/synchdisk.cc and the requests of machine/disk.cc. The disk leads from a sector
--   number to the bytes of the sector; a transfer is one step, since the caller waits for it.
-- - FileHeader: filesys/filehdr.cc and filehdr.h. An object is 32 integers, the image of a sector.
--   FileHeader.Extend holds extendFileSize.
-- - Machine: machine/machine.cc, machine/machine.h, and DelayedLoad of machine/mipssim.cc;
--   Machine.Translate and Machine.Memory: machine/translate.cc.
-- - Machine.Decode, Machine.Multiply and Machine.Simulate: machine/mipssim.cc and mipssim.h, with
--   SIM_FIX set as in the makefiles. `execute` is the switch of OneInstruction; Machine.Word holds
--   the arithmetic on `int` that it uses.
-- - OpenFile: filesys/openfile.cc, opening, seeking and reading; positions and lengths
--   are no negative ints, and the sum of a position and a count wraps around. WriteAt: its writes, which have
--   the file system extend the file.
-- - FileSystem: filesys/filesys.cc, Create, Open, Remove and extend. The directory and the bitmap, which the
--   code fetches from their files at the start of a call and writes back at its end, are values of
--   the state; a call that fails leaves them.
-- - Scheduler: threads/scheduler.cc and the switches of threads/thread.cc. Synch: threads/synch.cc,
--   the semaphores and locks. A thread is a number. A list that
--   gets a thread which it has fails the ASSERT of Append: Kernel keeps whether one has failed, and from
--   then on its state is not the program's, which has ended. Synch.Steps is the relation of the steps that
--   threads take on one lock, in any order; a turn of the loop of `P` is one step, since it runs
--   with interrupts off up to the switch.
-- - Condition: the condition variables of threads/synch.cc. A waiter is the address of its semaphore;
--   Condition.Apart says which threads and waiters must differ for the ASSERTs of the lists to pass.
--   Broadcast gets as many rounds as threads wait and one more.
-- - NodeHeap, LinkedList and SortedList: lib/list.cc and list.h. The nodes stand at addresses of a
--   heap, and `new` returns an address that is an argument; a pointer that leads nowhere, a failed
--   ASSERT and a loop that outlasts its fuel are outcomes of their own. LinkedList.Chain says what a
--   heap represents; LinkedList.Queue is the abstract sequence. A loop over the list gets `numInList`
--   rounds and one more.
-- - FileManager: threads/filemanager.cc, the table of the files' semaphores. FileManager.Steps is the
--   relation of the steps of the threads that read and write one file, with the requests and
--   releases that userprog/exception.cc makes; its system call Write asks for leave to read. AddNewFile
--   has no result when it writes behind the arrays of FILEMAXNUMBER entries.
-- - VirtualMemory: Project2/code, `allocatePage` of threads/kernel.cc and the destructor in
--   userprog/addrspace.cc. The frames, page tables, swap files and main memory are functions of the
--   page; VirtualMemory.Consistent says how they agree and what a page holds.
-- - Interrupt: machine/interrupt.cc, the pending interrupts and the clock. A handler is an argument:
--   it answers with the calls that it makes on the object, whose fields are private. The loop of
--   CheckIfDue gets as many rounds as the list is long. Timer: machine/timer.cc and threads/alarm.cc,
--   as such a handler; the numbers that RandomNumber returns are an argument.
-- - Sender: network/sender.cc, ParseAddress, the requests of WriteTo and ReadFrom, and TrasferString
--   with the server's `read` in userprog/exception.cc. A character that is written behind the end of
--   its array is left out.
-- - Base: what the parts share. An assertion that fails ends the program: a function with
--   assertions returns `Run A`, which is `ok a` or `aborted` (Base.Asserts).
--
-- All paths but those of Project2 stand below nachosWithFS-DFSFinal/code. A 32-bit `int` is its bit
-- pattern, a number below 2 ^ 32, so that -1 is 2 ^ 32 - 1; `char` is signed, and the host is
-- little-endian. Every loop but that of `P`, those of CheckIfDue and Broadcast, and those over a list
-- is a `for` loop with a bound known at its start: it is recursion on the number of rounds left, and
-- no fuel is needed. The bytes that `new` leaves in a directory's memory are an argument.
--
-- Not modelled: console output, statistics and debug messages; the time that the disk takes; the
-- TLB variant of the constructor (USE_TLB is not set); the sockets; the synchronized list, the
-- persistent bitmap and the other system calls; the processes of Project1; start-up and the console.
pub mod Base
pub mod Bitmap
pub mod CString
pub mod Condition
pub mod Directory
pub mod Interrupt
pub mod LinkedList
pub mod Machine
pub mod NodeHeap
pub mod Sender
pub mod SortedList
pub mod Disk
pub mod FileHeader
pub mod OpenFile
pub mod FileManager
pub mod FileSystem
pub mod WriteAt
pub mod Scheduler
pub mod Synch
pub mod VirtualMemory
pub mod Timer
mod Tests
