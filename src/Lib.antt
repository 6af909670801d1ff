-- ===== src/Lib.antt =====
-- Racez: a data race detector that samples memory accesses with the performance counters of the
-- processor. A preloaded library keeps the locks of every thread and writes the samples, with the locks
-- held, to a log; offline tools search the log for races by the lock set algorithm.
--
-- The parts of the program and their models:
--
-- Record, Record/Views: `struct Record` of racez_bufferdata.h, one event of a log. The members of its
-- union are views of the bytes of the largest one, by the layout of x86-64 Linux.
-- Lockset: racez_lockset.h, racez_lockset.cc and racez_mutex.cc, the locks that a thread holds. The steps
-- of add_one_mutex and remove_one_mutex that a signal handler can come between are functions of their
-- own; Lockset/Interrupt puts a handler between them. Lockset/History runs sequences of locks and unlocks
-- beside a bag of ten locks.
-- Buffer: racez_bufferdata.cc, the buffer of the log. The memory of the buffer is a function from an
-- index to a record; whether `malloc` and `open` succeed are arguments. Buffer/Writes is about one call
-- of WriteRecord, Buffer/Log about a session and its log, Buffer/Overrun about a full buffer.
-- Buffer/Interleave runs calls of several threads, each in two steps, in any order.
-- Flags, Preload: racez_preload.c, the settings, and the wrappers of the mutex, condition and allocation
-- functions over one state of the process. What the real functions return is an argument.
-- Preload/Mutexes is about the lock set of the calling thread, Preload/Allocation and Preload/Conditions
-- about the records that the wrappers log.
-- Sample: the records that racez_pmuprofiler.cc makes of a sample. Sample/Traces is about the stack
-- trace, Sample/Locks and Sample/Writes about the locks in the log, and Sample/Shown says what the record of
-- a sample shows of it.
-- Profiler: the signal handler, the start and the stop of racez_pmuprofiler.cc and racez_preload.c.
-- Profiler/Attach attaches a thread to its counter: what libpfm and the kernel give is an argument, what
-- they are asked is a list of requests (Profiler/Kernel). Profiler/Attach/Registers is about these requests,
-- Profiler/Attach/Threads about threads that are attached, sampled and stopped.
-- RecordSet, LockSet, AddressMap: the std::set and std::map containers of tools/detect.cc, as lists in
-- the order of their keys.
-- Eraser: core_detection of tools/detect.cc, a function for each case of its switch. Eraser/Spec says
-- what the state of an address should be by the history of the accesses to it, and Eraser/Due when a
-- warning is due; Eraser/Candidates, Eraser/Switch and Eraser/Tracks relate the code to them.
-- Report: report_error of tools/detect.cc. It calls get_filename (Report/Filename) for every code address,
-- which reads the file and line from what addr2line prints; what `system` returns and the file that it
-- leaves are an argument, the Symbolizer. A run of the detector stops where get_filename does, at its exit
-- or its assertion: Report/Laws, and Detect/Safe for the loops.
-- Detect: offline_detection and the loops of main in tools/detect.cc. Detect/Entries is about the maps,
-- Detect/Access and Detect/Run about the run over a log, Detect/Warnings about its warnings and
-- Detect/Races about the races that they tell; Detect/Reuse is about the memory reuse filter on two records
-- and Detect/Blocks about runs with it. Detect/Second is about the set of the records of the second file
-- (RecordSet/Search), Detect/Order about the order in which main takes the records of its two files.
-- Detect/Command is main, from what getopt gives for the command line: it opens the files in the order of
-- the source, so that the output is emptied before the records are read (Detect/Command/Ends).
-- Convert: the address file and ConvertIP of tools/convert.cc on lines that are kept as what they tell;
-- std::sort and the result of strcmp are arguments. Convert/Nearest is about the function found.
-- Convert/Files is Combine over the bytes of its files, and Convert/Lines is about it. Convert/Numbers
-- holds strtoll and the digits that printf writes. Convert/Symbols is ReadSymFile over the bytes of the
-- symbol table; Convert/Symbols/Print says how readelf prints one: a size below 100000 in decimal, a larger
-- one in hexadecimal behind 0x. Convert/Main puts the parts together as main does, over the texts of the
-- files: Convert/Main/Addresses is about the lines of ip.txt, Convert/Main/Functions about those of
-- functions.txt and Convert/Main/Run about the run.
-- Printer: tools/read.cc, whose output is kept as what printf is given.
--
-- A fault (a failed assertion, an index out of bounds, a NULL pointer, a wrong iterator, an exit) is a
-- result of the model, Base/Faults. An int is kept as its 32-bit pattern, Base/Int. Every loop of the
-- program that is modelled is structural recursion on a list or on the number of its rounds, but for
-- the loops over the lines of a file in Convert, which run on fuel: one round more than the file has lines
-- is enough, and so one more than it has bytes, which convert_main gives.
--
-- Not modelled: the calls of libpfm, libunwind, readelf and addr2line, the command line of tools/convert.cc
-- and the names of its files, the standard output but for tools/read.cc, util/util.cc, whose functions do
-- nothing, print_simple_record and print_record of tools/detect.cc, which nothing calls, the patch of
-- mao-patch, and the benchmarks. Memory is sequentially consistent, and the entry that a call of
-- WriteRecord has taken is filled in one step.
mod Base
pub mod Record
pub mod Flags
pub mod Sample
pub mod Preload
pub mod Profiler
pub mod Convert
pub mod Printer
pub mod Lockset
pub mod AddressMap
pub mod Report
pub mod Detect
pub mod Buffer
pub mod RecordSet
pub mod Eraser
pub mod LockSet
