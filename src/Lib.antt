-- ===== src/Lib.antt =====
-- A model of jbm, the Java Blocking Monitor, and the properties that make it correct.
--
-- jbm watches the threads of one JVM process. An eBPF program (jbm-ebpf/src/main.rs), called on each
-- context switch, notes when a thread of the target goes off the CPU; when the thread comes back after a
-- time within the configured bounds it writes a record with the kernel and user stacks to a ring buffer
-- and signals the thread. The signal makes async-profiler, in the JVM, write the Java stack of the thread
-- to a file. The control program (jbm/src) reads both, queues them by thread, and in each round pairs
-- records with Java stacks by their times.
--
-- Files and code:
-- Prelude, HashMap: shared notation, words, results, and std's HashMap as an association list.
-- Common: jbm-common/src/lib.rs (Config, BlockEvent, the constants).
-- Ebpf: jbm-ebpf/src/main.rs. Ebpf.StartTimes is the interface of the BPF hash map START_TIMES. Ebpf.Probe
--   has `jbm` and `try_jbm`; Effects, History and Intervals are about one call, many calls, and the
--   refinement of the history of switches, Sizes about the widths of the fields, and Swaps about calls
--   on two CPUs. History.Blocked says when a record is of a thread that was blocked.
-- Wire: the bytes of a BlockEvent (jbm-common/src/lib.rs, and the copy in `process` of jbm/src/lib.rs).
-- Events: JvmEvent, JvmFrame, BpfEvent (jbm/src/lib.rs).
-- Matching: `find_matching_jvm_event` (Find) and the inner loop of `sweep` (Drain), with its laws below:
--   among them Nearest and Fresh are about the nearest of the events that match, Fair about what a JVM
--   event that was passed over gave way to, and Apart about blocks that do not overlap.
-- Stream: `EventStream` with `add_bpf_event` (Add), `compute_timestamp` (Clock) and `sweep` (Sweep);
--   Sweep.Apart and Sweep.Crosses are about blocks that do not overlap and blocks of two threads that do.
-- Resolver: `Resolver::resolve` (jbm/src/symbol.rs).
-- Provider: the trait `JvmStackTraceProvider` and jbm/src/async_profiler.rs: `fill_queue` in AsyncProfiler,
--   the start and stop of the profiler in Lifecycle, and in Reader the file that grows between two calls.
-- Process: `Jbm::process` (jbm/src/lib.rs), which decodes, adds, fills and sweeps. Accounts and Traces are
--   about the events of the two sides, Expired about what waits, Errors about a round that fails, and
--   Kernel3x has the build that signals from user space (`send_signal`).
-- Report: the text of a report (jbm/src/main.rs) and of `trash_jvm_event` (jbm/src/lib.rs); Digits and Lines
--   are about numbers and lines, Laws about the texts.
-- Monitor: the loop of `main` (jbm/src/main.rs), and its laws, named as those of Process; Ends is about how
--   it ends, and Output about the texts that it prints.
-- System: `pid_alive`, `time_now`, `format_time` (jbm/src/lib.rs) and `has_done` (jbm/src/main.rs).
-- Bindings: jbm-ebpf/src/vmlinux.rs, as far as it is code: BitfieldUnit is `__BindgenBitfieldUnit`, Layout the
--   form of the bit-field accessors and constructors, and Structs has those of every struct with
--   bit-fields, Structs.Padding the units that only fill up a struct. Bits is about binary digits.
-- Loader: `Jbm::new` and `load_bpf` (jbm/src/lib.rs), over the answers of aya.
-- Program: `main` (jbm/src/main.rs) as a whole; Complete is about it with async-profiler.
-- EndToEnd: the eBPF program, the bytes of its records, and the loop of `main`, put together.
-- Xtask: xtask/src. BuildEbpf and Run have the commands of the tasks, Words the splitting of the runner,
--   Architecture the names of the targets.
-- Tests: runs at concrete inputs, and the theorems at inputs that meet their conditions.
--
-- State. A call of the eBPF program takes and gives the map and the list of effects so far (records and
-- signals); what was done before an error stays done. `EventStream` is a record with the two maps of queues
-- and the count. `sweep` holds `ret` newest first, so that `ret.last_mut()` is the head of a list, and
-- reverses it at the end; the trashed JVM events, which the code logs, are kept in a list. The order in
-- which a HashMap gives its keys is the order of its association list, over which the theorems range.
--
-- Words. Numbers are natural numbers with the wrap-around of Rust's release profile written out; an i64 is
-- its bit pattern, and a cast between u64 and i64, or from pid_t to u32, keeps the pattern. The theorems on
-- times assume them below 2 ^ 63 milliseconds, where the casts to i64 keep the value. Only
-- the printing of a number has fuel, the number of digits of a u64; every other loop takes an element off
-- a queue or a list, or counts the bits of a field.
--
-- Parameters: the BPF map and the results of the BPF helpers, the stack maps and symbol tables,
-- blazesym, the JSON parser, tokio's `Lines`, the UTF-8 decoding of names, the clocks, libc's `kill`,
-- chrono, what the ring buffers and the profiler's file give, and the answers of aya and of the commands
-- that are run.
-- The provider has a law besides the code's operation: the events that it adds have times below 2 ^ 63 and
-- are in the queues of their threads. For async-profiler this is a condition on the lines of its file, which
-- its states carry; of the parser nothing is assumed.
-- aya fills no more buffers than it is given, and each with a whole record; the model does not say
-- what happens otherwise.
--
-- Not modelled: the declarations of jbm-ebpf/src/vmlinux.rs (structs, unions and constants that bindgen
-- writes, of which the program reads pid and tgid of a task) and the casts of `__IncompleteArrayField` and
-- `__BindgenUnionField` to a pointer; the parsing of the command lines by clap; and log lines other than
-- that of a trashed event.
pub mod Prelude
pub mod HashMap
pub mod Events
pub mod Matching
pub mod Bindings
pub mod Report
pub mod Stream
pub mod System
pub mod Common
pub mod Ebpf
pub mod Wire
pub mod Resolver
pub mod Provider
pub mod Process
pub mod Monitor
pub mod Loader
pub mod Program
pub mod EndToEnd
pub mod Xtask
pub mod Tests
