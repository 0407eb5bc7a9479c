-- ===== src/Alloc/Bytes.antt =====
-- Memory as bytes, with little-endian words.
use scalloc.Common.{ℕ, zero, suc, ◌+◌, ◌*◌, ◌&&◌, leb, ltb, if◌then◌else◌}

abbrev pub Bytes : Type 0
Bytes = ℕ → ℕ

-- memset(p, v, n); a uint32_t of four equal bytes is written by it too.
unfoldable pub memset : ℕ → ℕ → ℕ → Bytes → Bytes
memset p v n m a = if leb p a && ltb a (p + n) then v else m a

-- The number in the w bytes from p on.
unfoldable pub read_word : ℕ → Bytes → ℕ → ℕ
read_word zero m p = 0
read_word (suc w) m p = m p + 256 * read_word w m (p + 1)
