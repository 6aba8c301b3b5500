-- ===== src/Recovery/Lines.antt =====
-- Files of lines, as `std::getline` in src/persistence/replay.cpp reads them.
use mathlib.Core.List.{append-nil, append_assoc}
use tiny_kv_distributed_stor.Prelude.{
  ℕ, ◌≡◌, refl, sym, ap, ◌∙◌, false, List, [], ◌∷◌, ◌++◌, ◌==◌, All,
}
use tiny_kv_distributed_stor.Prelude.Text.{Text}
use tiny_kv_distributed_stor.Recovery.{lines_from, get_lines}

-- No '\n' in the line.
abbrev pub IsLine : Text → Type 0
IsLine = All (λ c. (c == 10) ≡ false)

abbrev pub unlines : List Text → Text
unlines [] = []
unlines (line ∷ lines) = (line ++ 10 ∷ []) ++ unlines lines

lines_from_char :
    (t : Text) (c : ℕ) (s : Text)
    → (c == 10) ≡ false
    → lines_from t (c ∷ s) ≡ lines_from (t ++ c ∷ []) s
unfolding lines_from
lines_from_char t c s e = rw (e, lines_from)

lines_from-line :
    (t line s : Text) → IsLine line → lines_from t (line ++ 10 ∷ s) ≡ (t ++ line) ∷ lines_from [] s
unfolding lines_from
lines_from-line t [] s h = ap (λ u. u ∷ lines_from [] s) (sym (append-nil t))
lines_from-line t (c ∷ line) s h =
    lines_from_char t c (line ++ 10 ∷ s) h.0
    ∙ (lines_from-line (t ++ c ∷ []) line s h.1
        ∙ ap (λ u. u ∷ lines_from [] s) (append_assoc t (c ∷ []) line))

-- Lines without a newline in them, each written with a newline after it, are read back by
-- `std::getline` as the same lines, empty ones included.
pub get_lines-unlines : (lines : List Text) → All IsLine lines → get_lines (unlines lines) ≡ lines
unfolding get_lines
get_lines-unlines [] h = refl
get_lines-unlines (line ∷ lines) h =
    ap (lines_from []) (append_assoc line (10 ∷ []) (unlines lines))
    ∙ (lines_from-line [] line (unlines lines) h.0 ∙ ap (◌∷◌ line) (get_lines-unlines lines h.1))

pub unlines-append :
    (lines : List Text) (line : Text)
    → unlines (lines ++ line ∷ []) ≡ unlines lines ++ (line ++ 10 ∷ [])
unlines-append [] line = append-nil _
unlines-append (l ∷ lines) line =
    ap (λ t. (l ++ 10 ∷ []) ++ t) (unlines-append lines line)
    ∙ sym (append_assoc (l ++ 10 ∷ []) (unlines lines) _)

pub unlines-++ : (ls ms : List Text) → unlines (ls ++ ms) ≡ unlines ls ++ unlines ms
unlines-++ [] ms = refl
unlines-++ (l ∷ ls) ms =
    ap (λ t. (l ++ 10 ∷ []) ++ t) (unlines-++ ls ms)
    ∙ sym (append_assoc (l ++ 10 ∷ []) (unlines ls) (unlines ms))
