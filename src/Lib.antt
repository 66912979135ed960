-- ===== src/Lib.antt =====
-- usbscope captures USB requests (URBs) on Linux by BPF programs, moves them to user space as
-- records, and reassembles, filters, stores and reports them.
--
-- The kernel programs (crates/usbscope-ebpf) observe submissions and completions, test each
-- submission against a few installed predicates, and emit BEGIN, DATA, ISO and END records through
-- a ring buffer. User space (crates/usbscope-capture) decodes the metadata, reassembles the
-- records of each event into a spooled file, and hands complete events to the capture loop (src/),
-- which evaluates the filter expression on them and writes them out.
--
-- The files and the code they model:
--   Prelude/      what the Rust code takes from its language and standard library: tests on
--                 numbers, bits, two's complement integers, byte order, lists, and results with
--                 an enumeration of the error messages.
--   Common/       crates/usbscope-common/src/lib.rs: the records (Meta), their little-endian
--                 encoding (Wire) and the kernel's predicate (KernelPredicate).
--   Capture/Event crates/usbscope-capture/src/lib.rs, `Event`. The spooled payload is a file of
--                 the package `tempfile`; it is the interface `Spool`, a record of operations and
--                 the laws that file positions and overwriting obey, and every theorem on the
--                 reassembler takes it as a parameter.
--   Capture/Decode         `decode_meta` and the readers of one field.
--   Capture/Ranges         the operations that the reassembler uses of a BTreeMap of intervals.
--   Capture/Reassembler/   `Reassembler`: State (the pending events), Data (payload records and
--                 the merge of intervals), End (the tests for completeness), Push (the dispatch
--                 on a record); and the theorems: Merge, Covers, Fragments, Maps, Outcome,
--                 Delivery, Track.
--   Capture/Archive        the raw archive of records: `write_kernel_summary`, `read_raw_header`,
--                 `read_record`, and the loop of src/main.rs that reads it.
--   Capture/Submissions    the map from the URB of a source to a number, which the pcapng reader
--                 keeps for requested lengths and src/main.rs for times.
--   Capture/Pcapng/        crates/usbscope-capture/src/pcapng.rs (Writer) and pcapng_read.rs: the
--                 sections and interfaces (Reader), the parts of a packet (Packets) and the loop
--                 over the blocks (Blocks); and the theorems: Total, Sound and Delivered (that
--                 reading ends, and what it delivers), Written, Layout and Validity (what writing
--                 leaves), Frames, Header, Records, Packed, RoundTrip, Telling and Retelling (that
--                 what was written is read back, from its frames up to a whole capture).
--   Filter/       crates/usbscope-capture/src/filter.rs: three-valued truth (Truth), expressions
--                 (Syntax), the payload search (Search), the evaluation (Evaluate), the choice of
--                 predicates for the kernel (Pushdown), the tokenizer (Tokens), numbers
--                 (Numbers), the parser (Parser) and its balanced trees (Balance), and that the
--                 capture loop of src/main.rs may leave out a latency that is not needed (Latency).
--   Kernel/       crates/usbscope-ebpf/src/main.rs with the reads of core-shims/usb.c: the
--                 prefilter of submissions (Prefilter), the maps and the kernel around the programs
--                 (Machine), the reads of an URB (Urb), the copies of a payload in one buffer
--                 (Copy), in a scatter-gather list (Scatter) and of isochronous frames (Iso), the
--                 records of one observation (Emit) and the programs (Programs); and the theorems:
--                 Quiet (which operations leave the URBs in flight alone), Accounting (the counters
--                 and the URBs in flight) and Delivery (the records that are published).
--   Live/         src/live.rs: the drain of the ring (Drain), and what it delivers of the records
--                 that the kernel programs publish (Items to Observation); the records that are archived
--                 (Archiving) and their replay (Replay), and what becomes of the events that are
--                 begun (Census).
--   Output/       src/output.rs, the rotation of output files (Rotation) over the
--                 interface `Sink`, which the pcapng writer fills (Pcapng), and src/audio.rs, the
--                 statistics of isochronous endpoints (IsoStats).
--   Main/         src/main.rs: the consumption of events and the loops over a capture or an archive
--                 (Consume), the latencies (Latency), the limit of events (Limits), the loop
--                 over a pcapng capture (Replay), the sums of losses (Losses) and the end of a
--                 capture (End).
--   Tests/        instances, runs at concrete inputs and examples of the theorems.
--
-- Numbers are native natural numbers; a signed field is an integer, and every wrap-around,
-- checked or saturating operation is written out. A record whose numbers fit their machine types
-- satisfies a predicate such as `MetaInRange`. A `Result` is an anyhow::Result whose error is the
-- message of the `ensure!`, `bail!` or `context` that raised it.
--
-- The kernel outside the BPF programs is the record `World`, which answers by a tick: the memory, the
-- fields of an URB, room in the ring, whether `bpf_loop` or a map insertion succeeds. Every answer
-- may change from one question to the next and every read may fail, except where a theorem has a
-- hypothesis on it. A program is an action on the maps. Programs run one at a time.
--
-- Fuel: the parser recurses on fuel, one unit for each call of a parsing function; it starts with
-- more than the tokens and the depth limit can use. The tokenizer and the balancing of nodes take
-- one unit for each character or node, of which every step consumes at least one.
-- The loops of the pcapng reader start with one unit more than there are bytes to read, and every
-- block, option and event takes at least one of them.
--
-- Not modelled: programs on several processors at once, whose map operations may interleave; the
-- translation of scatter-gather pages to addresses (core-shims/usb.c, `core_sg_segment`), which
-- reads kernel structures by their layout; failing writes of the pcapng writer to its output, and
-- reads of an input that fail otherwise than at its end; the set-up and the end of a live capture
-- (src/live.rs); the choice of a memory layout (src/kernel_config.rs), which matches the text of
-- configuration files. Left out as well are the loading of BPF objects, probes and maps, argument
-- parsing, the terminal's output, device snapshots and build scripts, glue around third-party
-- packages.
pub mod Prelude
pub mod Common
pub mod Capture
pub mod Kernel
pub mod Filter
pub mod Output
pub mod Main
pub mod Live
mod Tests
