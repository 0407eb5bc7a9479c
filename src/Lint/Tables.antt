-- ===== src/Lint/Tables.antt =====
-- The tables of tools/cpplint.py: the error categories, the default filters and the standard C++
-- headers.
use scalloc.Common.{List, [], ◌∷◌, map}
use scalloc.Common.Text.{Text, codes}

-- _ERROR_CATEGORIES
unfoldable pub error_categories : List Text
error_categories = map codes (
    "build/class" ∷ "build/deprecated" ∷ "build/endif_comment" ∷ "build/explicit_make_pair"
    ∷ "build/forward_decl" ∷ "build/header_guard" ∷ "build/include" ∷ "build/include_alpha"
    ∷ "build/include_order" ∷ "build/include_what_you_use" ∷ "build/namespaces"
    ∷ "build/printf_format" ∷ "build/storage_class" ∷ "legal/copyright" ∷ "readability/alt_tokens"
    ∷ "readability/braces" ∷ "readability/casting" ∷ "readability/check"
    ∷ "readability/constructors" ∷ "readability/fn_size" ∷ "readability/function"
    ∷ "readability/multiline_comment" ∷ "readability/multiline_string" ∷ "readability/namespace"
    ∷ "readability/nolint" ∷ "readability/nul" ∷ "readability/streams" ∷ "readability/todo"
    ∷ "readability/utf8" ∷ "runtime/arrays" ∷ "runtime/casting" ∷ "runtime/explicit" ∷ "runtime/int"
    ∷ "runtime/init" ∷ "runtime/invalid_increment" ∷ "runtime/member_string_references"
    ∷ "runtime/memset" ∷ "runtime/operator" ∷ "runtime/printf" ∷ "runtime/printf_format"
    ∷ "runtime/references" ∷ "runtime/string" ∷ "runtime/threadsafe_fn" ∷ "runtime/vlog"
    ∷ "whitespace/blank_line" ∷ "whitespace/braces" ∷ "whitespace/comma" ∷ "whitespace/comments"
    ∷ "whitespace/empty_conditional_body" ∷ "whitespace/empty_loop_body" ∷ "whitespace/end_of_line"
    ∷ "whitespace/ending_newline" ∷ "whitespace/forcolon" ∷ "whitespace/indent"
    ∷ "whitespace/line_length" ∷ "whitespace/newline" ∷ "whitespace/operators" ∷ "whitespace/parens"
    ∷ "whitespace/semicolon" ∷ "whitespace/tab" ∷ "whitespace/todo" ∷ [])

-- _DEFAULT_FILTERS
abbrev pub default_filters : List Text
default_filters = map codes ("-build/include_alpha" ∷ [])

-- _CPP_HEADERS
unfoldable pub cpp_headers : List Text
cpp_headers = map codes (
    "algobase.h" ∷ "algo.h" ∷ "alloc.h" ∷ "builtinbuf.h" ∷ "bvector.h" ∷ "complex.h" ∷ "defalloc.h"
    ∷ "deque.h" ∷ "editbuf.h" ∷ "fstream.h" ∷ "function.h" ∷ "hash_map" ∷ "hash_map.h" ∷ "hash_set"
    ∷ "hash_set.h" ∷ "hashtable.h" ∷ "heap.h" ∷ "indstream.h" ∷ "iomanip.h" ∷ "iostream.h"
    ∷ "istream.h" ∷ "iterator.h" ∷ "list.h" ∷ "map.h" ∷ "multimap.h" ∷ "multiset.h" ∷ "ostream.h"
    ∷ "pair.h" ∷ "parsestream.h" ∷ "pfstream.h" ∷ "procbuf.h" ∷ "pthread_alloc" ∷ "pthread_alloc.h"
    ∷ "rope" ∷ "rope.h" ∷ "ropeimpl.h" ∷ "set.h" ∷ "slist" ∷ "slist.h" ∷ "stack.h" ∷ "stdiostream.h"
    ∷ "stl_alloc.h" ∷ "stl_relops.h" ∷ "streambuf.h" ∷ "stream.h" ∷ "strfile.h" ∷ "strstream.h"
    ∷ "tempbuf.h" ∷ "tree.h" ∷ "type_traits.h" ∷ "vector.h" ∷ "algorithm" ∷ "array" ∷ "atomic"
    ∷ "bitset" ∷ "chrono" ∷ "codecvt" ∷ "complex" ∷ "condition_variable" ∷ "deque" ∷ "exception"
    ∷ "forward_list" ∷ "fstream" ∷ "functional" ∷ "future" ∷ "initializer_list" ∷ "iomanip" ∷ "ios"
    ∷ "iosfwd" ∷ "iostream" ∷ "istream" ∷ "iterator" ∷ "limits" ∷ "list" ∷ "locale" ∷ "map"
    ∷ "memory" ∷ "mutex" ∷ "new" ∷ "numeric" ∷ "ostream" ∷ "queue" ∷ "random" ∷ "ratio" ∷ "regex"
    ∷ "set" ∷ "sstream" ∷ "stack" ∷ "stdexcept" ∷ "streambuf" ∷ "string" ∷ "strstream"
    ∷ "system_error" ∷ "thread" ∷ "tuple" ∷ "typeindex" ∷ "typeinfo" ∷ "type_traits"
    ∷ "unordered_map" ∷ "unordered_set" ∷ "utility" ∷ "valarray" ∷ "vector" ∷ "cassert" ∷ "ccomplex"
    ∷ "cctype" ∷ "cerrno" ∷ "cfenv" ∷ "cfloat" ∷ "cinttypes" ∷ "ciso646" ∷ "climits" ∷ "clocale"
    ∷ "cmath" ∷ "csetjmp" ∷ "csignal" ∷ "cstdalign" ∷ "cstdarg" ∷ "cstdbool" ∷ "cstddef" ∷ "cstdint"
    ∷ "cstdio" ∷ "cstdlib" ∷ "cstring" ∷ "ctgmath" ∷ "ctime" ∷ "cuchar" ∷ "cwchar" ∷ "cwctype" ∷ [])
