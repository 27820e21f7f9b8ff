-- ===== src/Lib.antt =====
-- A model of the telemetry persistence library: spans are kept in a memory-mapped file, so that those
-- that were not exported when a process died can be recovered by the next one.
--
-- The parts, and the files here that model them. Paths are from the repository's root; D stands for
-- include/firebase/telemetry/persistence/detail, and I for the folder that holds it.
--   CopyString       D/copy_string.h: strings cut to fixed buffers, and the comparison of keys. In its
--                    folder: Length and Characters (where a string is cut), Buffers (what a buffer
--                    reads as), Keys (key_equals), Crash (interrupted copies).
--   Layout           I/mmap_size.h, D/mmap_config.h, D/marked_span.h, D/header.h (the struct),
--                    D/memory_layout.h: the structs in the file and their sizes.
--   Span             I/span.h: the span as a value, and its conversion to and from the file.
--   RawSpanData      D/raw_span_data.h: the slots of one file. In its folder: Valid, Remove and Clear
--                    (the invariant under each operation), Attributes and Dictionary (the attributes
--                    of a span), Recoverable, Crash, Erasure and CrashRemove (interrupted calls),
--                    SameFile (what of the header the calls leave), Survivors.
--   SpanDataImpl     src/span_data_impl.cpp: the choice among the three layouts at run time.
--   MutableSpanData  src/mutable_span_data.cpp: spans by their id. In its folder: Invariant, one file
--                    for each operation, History (sequences of calls), and Promise (the bounded map
--                    that the class stands for) with Kept in its folder.
--   Header, Entry    src/header.cpp and D/entry.h.
--   ManagedMmap      D/managed_mmap.h: who owns a mapped region.
--   Context          src/initialize.cpp: the handle, and the functions on it.
--   RecoveredSpanData  src/recovered_span_data.cpp: the view that recovery reads through.
--   Initialize       src/initialize.cpp and D/page_size.h: opening, recovery and preparation of a file.
--                    In its folder: Sizes, Recovery, Success, Prepared (a file that is recovered
--                    from), StartsOver (one that is not), Reopened (what one process leaves to the
--                    next), AfterCrash, CrashReopened and RemoveReopened (a process that dies inside a
--                    call), Corrupt, Held and Resources (what is given back).
--   Main             main.cpp: the demonstration program. In its folder: Again (two runs of it).
--   Android          the binding for Java, in one module for each part:
--     Java           the functions of JNI that the binding calls, as a record, and the code on it.
--     Strings        I/android/detail/managed_jstring.h. In its folder: Survive (a string from Java
--                    to the file and back).
--     LocalRef       I/android/detail/managed_local_ref.h, and the class of managed_jstring.h.
--     References     how many local references a piece of code holds and leaves.
--     ClassCache     src/android/span_jclass_cache.cpp. In its folder: Ownership.
--     Registration   src/android/android_span_data.cpp, loading and unloading. In its folder:
--                    Lifecycle.
--     Spans          the same file, the conversions. In its folder: Sent and Received (the references
--                    that are held), Clipped (the lengths of the strings).
--     Natives        the same file, the native methods. In its folder: Protocol (what may be called
--                    when), Follows, Carried, Once and Total (no call fails,
--                    and what the calls are to the store).
--   Common           tests, lists, results with faults, interrupted sequences of stores.
--   Tests            the theorems at concrete inputs.
-- Initialize makes a SpanDataImpl of a mapping, reads the spans of the last process through it, and
-- hands it to a Context, which clears it and holds a MutableSpanData over it. Main and the native
-- methods of Android go through the Context. MutableSpanData calls
-- SpanDataImpl, which calls RawSpanData, which writes slots with Span and CopyString.
--
-- How the code is read:
--   * Methods are functions from a state to a result with the new state. A failed assert, an access
--     outside an array and the use of a null pointer are faults (Common.Results).
--   * Numbers are natural numbers; counters of 64 bits wrap around where the code adds or subtracts. A
--     variable of type MmapSize is any number, since it is read from a file; a template argument of
--     that type is one of the three enumerators.
--   * A char array is the list of its bytes. A mapping is the MemoryLayout that it shows, except in
--     ManagedMmap, where it is an address and a length.
--   * The unordered_map of MutableSpanData is a function from ids to optional indices. The object that
--     it refers to by a reference is a field of it. The clock's time is an argument.
--   * Loops are structural recursion on the number of rounds left, or on a list; none needs fuel.
--   * For crashes, a method's effect on the file is a list of stores in program order. A crash leaves
--     the effect of some first stores and of a part of the next one. An aligned store of 8 bytes is not
--     torn. A memset or memcpy of a string may be torn at any byte, and the copy of a whole span may
--     leave any bytes. Reordering of stores by a compiler is not modelled.
--   * size_t has 32 or 64 bits where the length of the file is computed; other sizes and indices in
--     memory stay far below both bounds.
--   * The operating system is a record of what open, fstat, sysconf, mmap and ftruncate answer. What a
--     mapped file shows is a header, and the slots as each of the three layouts reads them.
--
--   * Of Java, the machine is a record of what the functions of JNI answer. References, classes and
--     methods are numbers; none is the null pointer. The code counts the local references that it
--     holds. A jsize is written as the number of its 32 bits. Loading is modelled apart, with the answers of the look-ups as a record and the references
--     taken and dropped as a list of events.
--   * A handle that Java holds is the context or null. Numbers that Java passes are given as the
--     unsigned numbers that the casts make of them.
--
-- Not modelled: access from several threads, which the library leaves to its caller; the use of a
-- handle after shutdown_native, which leaves a dangling pointer with Java; calls of JNI without an
-- environment; exceptions that are pending in Java; the names and signatures in the tables of native
-- methods; the tests and the build files.
pub mod Common
pub mod CopyString
pub mod Layout
pub mod Span
pub mod RawSpanData
pub mod SpanDataImpl
pub mod MutableSpanData
pub mod Header
pub mod Entry
pub mod RecoveredSpanData
pub mod Context
pub mod ManagedMmap
pub mod Initialize
pub mod Main
pub mod Android
pub mod Tests
