-- ===== src/Net/LineProtocol/Chunks.antt =====
-- `LineReader` (src/net/line_protocol.cpp) and the ways in which a stream can be cut up.
use mathlib.Core.List.{append-nil, append_assoc}
use tiny_kv_distributed_stor.Prelude.{
  ℕ, ◌+◌, ◌≤◌, ◌≡◌, refl, sym, ap, ◌∙◌, false, Option, none, some, List, [], ◌∷◌, ◌++◌, All, arith,
  ltb, ◌==◌, length, length-append, inl, inr, Bool-cases, Option-cases,
}
use tiny_kv_distributed_stor.Prelude.Text.{Text}
use tiny_kv_distributed_stor.Net.LineProtocol.{
  max_line, before, split_line, strip_cr, read_line, write_line,
}

abbrev pub joined : List Text → Text
joined [] = []
joined (chunk ∷ chunks) = chunk ++ joined chunks

abbrev prefixed : Text → Option (Text × Text) → Option (Text × Text)
prefixed b none = none
prefixed b (some (line, rest)) = some (b ++ line, rest)

-- The first line of a text that is continued: its own, or one that begins with all of it.
abbrev continued : Text → Text → Option (Text × Text) → Option (Text × Text)
continued b s none = prefixed b (split_line s)
continued b s (some (line, rest)) = some (line, rest ++ s)

prefixed-[] : (o : Option (Text × Text)) → o ≡ prefixed [] o
prefixed-[] none = refl
prefixed-[] (some (line, rest)) = refl

before-prefixed :
    (c : ℕ) (b : Text) (o : Option (Text × Text)) → before c (prefixed b o) ≡ prefixed (c ∷ b) o
before-prefixed c b none = refl
before-prefixed c b (some (line, rest)) = refl

before-continued :
    (c : ℕ) (b s : Text) (o : Option (Text × Text))
    → before c (continued b s o) ≡ continued (c ∷ b) s (before c o)
before-continued c b s none = before-prefixed c b (split_line s)
before-continued c b s (some (line, rest)) = refl

split_line-append : (b s : Text) → split_line (b ++ s) ≡ continued b s (split_line b)
unfolding split_line
split_line-append [] s = prefixed-[] (split_line s)
split_line-append (c ∷ b) s = elim (Bool-cases (c == 10)) [
  | inl e ↦ rw (e, split_line) refl
  | inr e ↦
      rw (e, split_line)
        (ap (before c) (split_line-append b s) ∙ before-continued c b s (split_line b))
]

split_line-line :
    (line rest : Text)
    → All (λ c. (c == 10) ≡ false) line
    → split_line (line ++ 10 ∷ rest) ≡ some (line, rest)
unfolding split_line
split_line-line [] rest h = refl
split_line-line (c ∷ line) rest h =
    rw (h.0, split_line) (ap (before c) (split_line-line line rest h.1))

abbrev line_of : Option (Text × Text) → Text
line_of none = []
line_of (some (line, rest)) = line

abbrev rest_of : Option (Text × Text) → Text
rest_of none = []
rest_of (some (line, rest)) = rest

prefixed-length :
    (b line rest : Text) (o : Option (Text × Text))
    → prefixed b o ≡ some (line, rest)
    → length b ≤ length line
prefixed-length b line rest none e = absurd (ground arith)
prefixed-length b line rest (some (l, r)) e =
    let same : b ++ l ≡ line = ap line_of e in
    let sum : length line ≡ length b + length l = ap length (sym same) ∙ length-append b l in
    omega (arith, sum)

module _ (line rest : Text) (fits : length line ≤ max_line) where
  read_line-split :
      (chunks : List Text) (buffer : Text)
      → split_line (buffer ++ joined chunks) ≡ some (line, rest)
      → ((read_line buffer chunks).0 ≡ some (strip_cr line))
        × ((read_line buffer chunks).1 ++ joined (read_line buffer chunks).2 ≡ rest)
  unfolding read_line
  read_line-split [] buffer e =
      let found : split_line buffer ≡ some (line, rest) =
        ap split_line (sym (append-nil buffer)) ∙ e in
      rw (found, read_line) (refl, append-nil rest)
  read_line-split (chunk ∷ chunks) buffer e = elim (Option-cases (split_line buffer)) [
    | inr ((l, r), q) ↦
        let s = joined (chunk ∷ chunks) in
        let same : some (l, r ++ s) ≡ some (line, rest) =
          sym (split_line-append buffer s ∙ ap (continued buffer s) q) ∙ e in
        rw (q, read_line) (ap (λ o. some (strip_cr (line_of o))) same, ap rest_of same)
    | inl q ↦
        let s = joined (chunk ∷ chunks) in
        let later : prefixed buffer (split_line s) ≡ some (line, rest) =
          sym (split_line-append buffer s ∙ ap (continued buffer s) q) ∙ e in
        let bound = prefixed-length buffer line rest (split_line s) later in
        let short : ltb max_line (length buffer) ≡ false = ground (arith, bound, fits) in
        rw (q, short, read_line)
          (read_line-split chunks (buffer ++ chunk)
            (ap split_line (append_assoc buffer chunk (joined chunks)) ∙ e))
  ]

-- If the bytes that are buffered and those to come, in whatever chunks, begin with a line of at
-- most 8192 bytes and its newline, then `read_line` returns that line, less a last carriage return,
-- and what is left, buffered or to come, is exactly what follows the newline.
pub read_line-line :
    (line rest buffer : Text) (chunks : List Text)
    → All (λ c. (c == 10) ≡ false) line
    → length line ≤ max_line
    → buffer ++ joined chunks ≡ write_line line ++ rest
    → ((read_line buffer chunks).0 ≡ some (strip_cr line))
      × ((read_line buffer chunks).1 ++ joined (read_line buffer chunks).2 ≡ rest)
unfolding write_line
read_line-line line rest buffer chunks is_line fits e =
    read_line-split line rest fits chunks buffer
      (ap split_line (e ∙ append_assoc line (10 ∷ []) rest) ∙ split_line-line line rest is_line)

-- Where no more bytes come, there is no line.
pub read_line-nothing :
    (buffer : Text) (chunks : List Text)
    → buffer ++ joined chunks ≡ []
    → (read_line buffer chunks).0 ≡ none
unfolding read_line
read_line-nothing [] [] e = refl
read_line-nothing [] (chunk ∷ chunks) e = read_line-nothing chunk chunks e
read_line-nothing (b ∷ buffer) chunks e = absurd (ground (arith, e))
