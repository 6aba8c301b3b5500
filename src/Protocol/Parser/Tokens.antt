-- ===== src/Protocol/Parser/Tokens.antt =====
-- Words and lines: `tokenize` and `Parser::parse` of src/protocol/parser.cpp.
use tiny_kv_distributed_stor.Prelude.{
  ℕ, ◌≤◌, ◌≡◌, refl, sym, ap, ◌∙◌, false, List, [], ◌∷◌, ◌++◌, inl, inr, arith, ltb, length, All,
  All-append, Bool-cases, if_cases,
}
use mathlib.Core.Path.{subst}
use mathlib.Core.List.{append-nil, append_assoc}
use tiny_kv_distributed_stor.Prelude.Text.{Text}
use tiny_kv_distributed_stor.Prelude.Decimal.{is_space}
use tiny_kv_distributed_stor.Protocol.Command.{Command}
use tiny_kv_distributed_stor.Protocol.Parser.{
  add_token, tokens_from, tokenize, command_type_from_name, command_of, parse, ParseResult, parsed,
  protocol_error, max_line_length,
}

-- A word: characters, none of them white space.
abbrev pub NoSpace : Text → Type 0
NoSpace = All (λ c. is_space c ≡ false)

abbrev pub IsToken : Text → Type 0
IsToken [] = ⊥
IsToken (c ∷ t) = NoSpace (c ∷ t)

add_token-AreTokens :
    (t : Text) (ts : List Text) → NoSpace t → All IsToken ts → All IsToken (add_token t ts)
add_token-AreTokens [] ts h a = a
add_token-AreTokens (c ∷ t) ts h a = (h, a)

tokens_from-AreTokens : (t s : Text) → NoSpace t → All IsToken (tokens_from t s)
unfolding tokens_from
tokens_from-AreTokens t [] h = add_token-AreTokens t [] h tt
tokens_from-AreTokens t (c ∷ s) h = elim (Bool-cases (is_space c)) [
  | inl e ↦ rw (e, tokens_from) (add_token-AreTokens t _ h (tokens_from-AreTokens [] s tt))
  | inr e ↦
      rw (e, tokens_from)
        (tokens_from-AreTokens (t ++ c ∷ []) s (All-append _ t (c ∷ []) h (e, tt)))
]

-- What `tokenize` returns are words.
pub tokenize-AreTokens : (line : Text) → All IsToken (tokenize line)
unfolding tokenize
tokenize-AreTokens line = tokens_from-AreTokens [] line tt

tokens_from_char :
    (t : Text) (c : ℕ) (s : Text)
    → is_space c ≡ false
    → tokens_from t (c ∷ s) ≡ tokens_from (t ++ c ∷ []) s
unfolding tokens_from
tokens_from_char t c s e = rw (e, tokens_from)

tokens_from-word : (t w s : Text) → NoSpace w → tokens_from t (w ++ s) ≡ tokens_from (t ++ w) s
tokens_from-word t [] s h = ap (λ u. tokens_from u s) (sym (append-nil t))
tokens_from-word t (c ∷ w) s h =
    tokens_from_char t c (w ++ s) h.0
    ∙ (tokens_from-word (t ++ c ∷ []) w s h.1
        ∙ ap (λ u. tokens_from u s) (append_assoc t (c ∷ []) w))

-- Words, separated by single spaces.
unfoldable pub join : List Text → Text
join [] = []
join (w ∷ []) = w
join (w ∷ x ∷ ws) = w ++ 32 ∷ join (x ∷ ws)

tokenize_last : (w : Text) → IsToken w → tokenize w ≡ w ∷ []
unfolding tokenize
tokenize_last [] h = absurd h
tokenize_last (c ∷ w) h =
    ap (tokens_from []) (sym (append-nil (c ∷ w)))
    ∙ (tokens_from-word [] (c ∷ w) [] h ∙ unfold tokens_from in refl)

tokenize_word : (w s : Text) → IsToken w → tokenize (w ++ 32 ∷ s) ≡ w ∷ tokenize s
unfolding tokenize
tokenize_word [] s h = absurd h
tokenize_word (c ∷ w) s h = tokens_from-word [] (c ∷ w) (32 ∷ s) h ∙ unfold tokens_from in refl

-- Words that are joined by spaces come back one by one.
pub tokenize-join : (ws : List Text) → All IsToken ws → tokenize (join ws) ≡ ws
unfolding join
tokenize-join [] h = unfold tokenize in refl
tokenize-join (w ∷ []) h = tokenize_last w h.0
tokenize-join (w ∷ x ∷ ws) h =
    tokenize_word w (join (x ∷ ws)) h.0 ∙ ap (◌∷◌ w) (tokenize-join (x ∷ ws) h.1)

-- A line of a command word and arguments, each a non-empty word without white space, joined by single
-- spaces and not longer than the limit, parses to that command with those arguments.
pub parse-join :
    (name : Text) (args : List Text)
    → All IsToken (name ∷ args)
    → length (join (name ∷ args)) ≤ max_line_length
    → parse (join (name ∷ args))
      ≡ parsed (record { type = command_type_from_name name; name = name; args = args })
parse-join name args h fits =
    let short : ltb max_line_length (length (join (name ∷ args))) ≡ false = ground arith in
    let words = tokenize-join (name ∷ args) h in unfold parse in rw (short, words)

abbrev HasTokens : ParseResult → Type 0
HasTokens (parsed cmd) =
    IsToken cmd.name × All IsToken cmd.args × (cmd.type ≡ command_type_from_name cmd.name)
HasTokens (protocol_error message) = Unit

command_of-HasTokens : (ws : List Text) → All IsToken ws → HasTokens (command_of ws)
unfolding command_of
command_of-HasTokens [] h = tt
command_of-HasTokens (name ∷ args) h = (h.0, h.1, refl)

parse-HasTokens : (line : Text) → HasTokens (parse line)
unfolding parse
parse-HasTokens line =
    if_cases HasTokens (ltb max_line_length (length line)) (λ _. tt)
      (λ _. command_of-HasTokens _ (tokenize-AreTokens line))

-- If a line parses, then the command's name and arguments are non-empty words without white space,
-- and its type is the one that goes with the name.
pub parse-AreTokens :
    (line : Text) (cmd : Command)
    → parse line ≡ parsed cmd
    → IsToken cmd.name × All IsToken cmd.args × (cmd.type ≡ command_type_from_name cmd.name)
parse-AreTokens line cmd e = subst HasTokens e (parse-HasTokens line)
