-- ===== src/Lib.antt =====
-- scalloc: the allocator and the style checker of the repository, modelled and verified.
--
-- The repository holds scalloc, a concurrent memory allocator in C++ (src/), and the linter that its
-- sources are checked with, tools/cpplint.py. The two parts share no code and no state.
--
-- The allocator. A thread asks the core of its allocation buffer; the core takes an object of the hot
-- span of the size class (size_classes.h), a span of 2 MiB that carves objects from its own memory
-- and keeps two lists of free ones (span.h): the owner's (free_list.h) and a stack without locks
-- (stack.h) that other threads push to, on tagged words (atomic_value.h). The epoch of a span says
-- whether it is hot, floating, reusable or full; the reusable spans of a core are linked in a deque
-- (deque.h) behind a spin lock (lock.h). Empty spans go to the pool (span_pool.h), which gets new
-- ones from the arena (arena.h). Larger requests go to mmap (large-objects.h). The entry points with
-- an alignment tag what they return (glue.h), for the span to find the start of the object again.
--   Alloc/Globals, Alloc/Utils  src/globals.h, src/utils.h: constants, PadSize, Log2.
--   Alloc/SizeClasses           src/size_classes.h, src/size_classes_raw.h and the tables of src/glue.cc.
--   Alloc/TaggedValue           src/atomic_value.h: TaggedValue, swap.
--   Alloc/Memory                The words that free objects are linked through.
--   Alloc/Stack                 src/stack.h: Stack; Stack/Threads interleaves PushReturnTag and PopAll.
--   Alloc/FreeList              src/free_list.h: IncrementalFreeList.
--   Alloc/Span                  src/span.h: Span; Span/Epoch has the marks, and Span/Objects the steps
--                               of a span with the objects that the program holds.
--   Alloc/Deque, Alloc/Lock     src/deque.h, src/lock.h: Deque, SpinLock, LockHolder.
--   Alloc/SpanPool              src/span_pool.h: SpanPool; SpanPool/Spans has the calls of a program with
--                               the spans that it holds.
--   Alloc/Arena                 src/arena.h: Arena.
--   Alloc/LargeObjects          src/large-objects.h: LargeObject.
--   Alloc/Glue                  src/glue.h: calloc, posix_memalign and its kin, free and realloc.
--   Alloc/Bits, Alloc/Bytes     Bitwise laws, and the bytes of a word.
--   Alloc/Tests                 Runs on small inputs.
--
-- The linter. A run of it reads each file into lines, removes comments and strings (CleansedLines),
-- and hands every line to the checks, which keep a stack of blocks (_NestingState), the includes seen
-- (_IncludeState) and the function under way (_FunctionState). A check calls Error, which asks the
-- filters and the NOLINT suppressions, writes to stderr and counts (_CppLintState). Code of
-- tools/cpplint.py by file:
--   Common and Common/...      Python strings as lists of code points, dicts as association lists, and
--                              the part of `re` that the patterns use, as a backtracking matcher.
--   Lint/World                 The module state: _cpplint_state, _error_suppressions, the flags, stderr.
--   Lint/Tables                _ERROR_CATEGORIES, _DEFAULT_FILTERS, _CPP_HEADERS.
--   Lint/Filters               SetFilters, _ShouldPrintError, IsErrorSuppressedByNolint.
--   Lint/Report                _CppLintState, Error, ParseNolintSuppressions.
--   Lint/Include               _IncludeState and its order of headers.
--   Lint/Cleanse               CleanseRawStrings, CleanseComments, CleansedLines; Cleanse/Comments has
--                              RemoveMultiLineComments.
--   Lint/Brackets              FindEndOfExpressionInLine, CloseExpression and their mirror images.
--   Lint/Functions             _FunctionState, CheckForFunctionLengths.
--   Lint/Nesting               The blocks; Nesting/Preprocessor has UpdatePreprocessor, and Nesting/Update
--                              has Update, with its parts in Nesting/Heads and Nesting/Tokens.
--   Lint/OsPath                The functions of posixpath that the linter calls.
--   Lint/Paths                 FileInfo, _DropCommonSuffixes, FilesBelongToSameModule.
--   Lint/IncludeLine           _ClassifyInclude, CheckIncludeLine.
--   Lint/HeaderGuard           GetHeaderGuardCPPVariable, CheckForHeaderGuard.
--   Lint/Arguments             PrintUsage, PrintCategories, ParseArguments.
--   Lint/Checks                Checks that read one line or the whole file.
--   Lint/Tests                 Runs on small inputs.
--
-- Conventions of the allocator. A word is a natural number with its wrap-around written out, an address
-- is its number, and NULL is 0. The masks and shifts of the source are remainders and quotients by
-- powers of two. Memory is a function from addresses to words, or to bytes where the code writes
-- bytes. mmap, malloc, hwrand, the number of cores and the width of an int_fast32_t are parameters.
-- The step relations of the stack and of the lock interleave any number of threads at their accesses
-- of shared words, which are sequentially consistent; the operations of a span, of the deque (under
-- its lock) and of the pool follow one another, each as a whole.
--
-- Conventions of the linter. A function that calls `error` takes the callback as a parameter and gives a World for a World;
-- what may raise returns an Outcome. -1 for "not found" is none. Line numbers and verbosities are
-- natural numbers: the flag --verbose with a negative number is left out. `isalnum` of non-ASCII
-- characters is a parameter; upper and lower case are those of ASCII. The file system, the working
-- directory, what `re` makes of the flag --root, the result of getopt and `int` are parameters. Stacks have the innermost block first.
--
-- Fuel. The loops of Update over the namespaces and the braces of a line take as many rounds as the
-- line has characters, that of RemoveMultiLineComments as many as there are lines, and a loop of a
-- pattern as many as there are characters left: each round consumes at least one. The walks up the
-- directories take one round more than the name has characters; the one for Subversion may not end. MoveRemoteToLocalObjects
-- takes as many rounds as there are remote objects, RemoveAll one more than the deque has nodes.
--
-- Not modelled: core.h and lab.h (the choice of spans and buffers, with malloc of glue.h above them), New and Delete of spans, logging and the overrides of the platforms; in
-- cpplint.py the remaining checks and the processing of files.
pub mod Alloc
pub mod Common
pub mod Lint
