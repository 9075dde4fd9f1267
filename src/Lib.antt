-- ===== src/Lib.antt =====
-- A model of bsdtrace, the Intel PT tracer of this repository (Sources/bsdtrace), and what holds of
-- it. A trace collects HWT records and writes them to a sidecar file; a decode, live or from the
-- sidecar, takes the image sections of the trace, builds from the ELF files the image that libipt
-- decodes with and a symbol table, and turns the decoded instructions into reports.
--
-- Files, by the source that they are about:
--   Types                 bsdtrace.h: records, sections, 64-bit address arithmetic
--   Sections, /Unique, /Exists    elf.c: section_should_use()
--   Elf, /LoadAddr, /MmapAddr    elf.c: what is read off an ELF file, and the load address
--   Ranges, /Limit, /Lookup, /Added   elf.c: add_elf_to_image(), elf_get_interp(),
--                         build_bin_ranges(), find_binary_for_ip()
--   Symbols, /Search, /Load   symbols.c: the symbol table
--   Json, /Escape, /OneLine   format.c: json_escape(), json_string(); /Reader is a JSON reader
--   Stdio and children    no file of the repository: what printf(), fgets() and sscanf() do for the
--                         formats that meta.c uses, with their round trips
--   Meta, /Line, /Fits, /Offline, /Session, /Seeded    meta.c: the sidecar's writer, and the reader
--                         of its sections
--   Meta/Readers, /ReadBack   meta.c: the readers of single values
--   Trace, /Sections, /Pages    trace.c: the accumulator of a trace, struct trace_state
--   Decode, /Loop, /Counting    decode.c: the loops over libipt's decoder, the counters, the
--                         probe's test
--   Image, /Segments      decode.c: build_pt_image() and decode_pt_probe()
--   Snapshot, /Extent, /Drain   trace.c: the drain after a stop, the extent that is decoded
--   Hwt                   hwt.c: struct hwt_ctx, hwt_ctx_alloc(), hwt_ctx_close(), default timing
--   Hwt/Process           the process as hwt.c sees it: descriptors, mappings, ioctl() calls
--   Hwt/Operations        hwt.c: the operations on a context that is allocated
--   Hwt/Detect            hwt.c: whether tracing is available
--   Hwt/Buffer            hwt.c and trace.c: the snapshot of the buffer, the buffers of threads
--   Hwt/Balance, /Held, /Alloc, /Threads, /Kept, /Lifecycle, /Open   what a session holds and gives
--                         back
--   Hwt/Numbers, /Write, /Broken   the numbers of hwt.c, and the file of a snapshot
--   Resolve, /Vmmap, /Specs   resolve.c: ranges of `-r`, the VM map of a process, the slide
--   Resolve/Parse, /Found, /Filter, /Slide, /Mappings   what these give
--   Poll, /Woken          trace.c: emit_and_process(), resolve_backend(), check_hwt_hooks(),
--                         derive_meta_path()
--   Finalize, /Shots, /Files    trace.c: the snapshots of the further threads, their files and sidecars
--   Finalize/Whole, /Released   trace.c: snapshot_and_decode() and trace_finalize() as a whole
--   Profile, /Counts      decode.c: profile_record() and filter_matches()
--   Collapsed, /Stack, /Limits, /Total   decode.c: the collapsed stacks
--   Collapsed/Output, /Tokens, /Frames, /Samples   decode.c: collapsed_print() and speedscope_print(), as values
--   Calltree              decode.c: the call tree, and the pointers of its shadow stack
--   Calltree/Memory, /Live, /Safe   where these pointers lead
--   Calltree/Names, /Added, /Counts, /Calls   what the tree counts
--   Callers, /Edges, /Sums, /Totals   decode.c: ct_collect_edges(), ct_node_count()
--   Callers/Stored, /Trace   this view of the calls of a trace
--   Dwarf                 dwarf.c: the source line of an address, the cache of opened binaries, and
--                         the lookup that profile_record() makes with them
--   Dwarf/Nearest, /Found which line is found
--   Dwarf/Cached, /Room, /Named, /Ready   what the caches hold, and for which sections
--   Dwarf/Lookups, /Answered  the lookups of a whole decode
--   Prelude and children  shared names, Boolean tests, lists, strings, integers
--   Tests and children    examples at concrete data
--
-- Functions keep the source's names. State is a record that is passed and returned; a failure is
-- `none`; an address of 64 bits is a natural number with its wrap-around written out. Counters of
-- type int are taken as unbounded. What the program calls and the repository does not hold is an
-- argument: an ELF file is the record Elf of libelf's answers; open(), strdup(), basename() and
-- libipt's pt_image_add_file() are the record Ranges.System; libipt's decoder is the record
-- Decode.Decoder; what the system answers to hwt.c is the record Hwt.Kernel, whose answers may depend
-- on all that has happened, and to resolve.c the record Resolve.Host; qsort() is a function; whether
-- realloc() and strdup() have memory is an argument of each operation that calls them. The functions
-- of libdwarf are the record Dwarf.Libdwarf. The source line of a new entry is an argument of Profile,
-- which Dwarf.source_of gives.
--
-- Fuel: the search of sym_table_lookup() has as many rounds as entries, since each round shrinks the
-- interval; the decode loop, the drain and the loop over write() end with the fuel that their
-- theorems state, and so do the two loops over the units of a binary in Dwarf; lines_from of Stdio
-- has one round for each byte of the file.
--
-- Not modelled: the constant text of the speedscope output and the free() calls of the reports, the
-- printing of the call tree and of the callers, the packet dump, the output of records, the commands
-- and their options, the messages to standard error, and the Swift and D programs of the repository.
-- What is decoded of a snapshot is what is saved of it.
pub mod Prelude
pub mod Types
pub mod Sections
pub mod Elf
pub mod Ranges
pub mod Symbols
pub mod Json
pub mod Stdio
pub mod Meta
pub mod Trace
pub mod Decode
pub mod Image
pub mod Snapshot
pub mod Profile
pub mod Collapsed
pub mod Calltree
pub mod Callers
pub mod Dwarf
pub mod Hwt
pub mod Resolve
pub mod Poll
pub mod Finalize
pub mod Tests
