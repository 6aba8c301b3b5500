-- ===== src/Net/LineProtocol.antt =====
-- `LineReader` and `writeLine` (src/net/line_protocol.cpp). A socket is the list of the chunks that
-- `recv` will return; at its end `recv` returns nothing more.
pub mod Chunks
use tiny_kv_distributed_stor.Prelude.{
  ℕ, Bool, true, false, Option, none, some, List, [], ◌∷◌, ◌++◌, ltb, ◌==◌, if◌then◌else◌, length,
}
use tiny_kv_distributed_stor.Prelude.Text.{Text}

abbrev pub max_line : ℕ
max_line = 8192

abbrev pub before : ℕ → Option (Text × Text) → Option (Text × Text)
before c none = none
before c (some (line, rest)) = some (c ∷ line, rest)

-- What stands before the first '\n' and after it.
unfoldable pub split_line : Text → Option (Text × Text)
split_line [] = none
split_line (c ∷ s) = elim (c == 10) [ true ↦ some ([], s) | false ↦ before c (split_line s) ]

-- `if (!outLine.empty() && outLine.back() == '\r') outLine.pop_back();`
unfoldable pub strip_cr : Text → Text
strip_cr [] = []
strip_cr (c ∷ []) = if c == 13 then [] else c ∷ []
strip_cr (c ∷ d ∷ s) = c ∷ strip_cr (d ∷ s)

-- The line, if there is one, then the buffer and the chunks that are left.
unfoldable pub read_line : Text → List Text → Option Text × Text × List Text
unfolding split_line strip_cr
read_line buffer [] = elim (split_line buffer) [
  | some (line, rest) ↦ (some (strip_cr line), rest, [])
  | none ↦ (none, buffer, [])
]
read_line buffer (chunk ∷ chunks) = elim (split_line buffer) [
  | some (line, rest) ↦ (some (strip_cr line), rest, chunk ∷ chunks)
  | none ↦
      if ltb max_line (length buffer)
      then (none, buffer, chunk ∷ chunks)
      else read_line (buffer ++ chunk) chunks
]

-- The bytes that `writeLine` sends.
unfoldable pub write_line : Text → Text
write_line line = line ++ 10 ∷ []
