-- ===== src/Tests/Lines.antt =====
-- Request lines and files of lines (src/protocol/parser.cpp, src/persistence/replay.cpp).
use tiny_kv_distributed_stor.Prelude.{◌≡◌, refl, List, [], ◌∷◌, All}
use tiny_kv_distributed_stor.Prelude.Text.{Text, codes, text_eq}
use tiny_kv_distributed_stor.Protocol.Command.{Command, CommandType}
use tiny_kv_distributed_stor.Protocol.Parser.{
  command_type_from_name, to_upper, to_upper_char, tokenize, tokens_from, command_of, parsed, parse,
  upper_name_type,
}
use tiny_kv_distributed_stor.Protocol.Parser.Tokens.{IsToken}

abbrev words : List Text
words = codes "a" ∷ codes "7" ∷ []

words-AreTokens : All IsToken (codes "set" ∷ words)
words-AreTokens = ((refl, (refl, (refl, tt))), ((refl, tt), ((refl, tt), tt)))

abbrev get_a : Command
get_a = record { type = CommandType.get; name = codes "get"; args = codes "a" ∷ [] }

get_a_line : parse (codes " get  a") ≡ parsed get_a
unfolding parse tokenize tokens_from command_of command_type_from_name upper_name_type to_upper
    to_upper_char text_eq
get_a_line = refl

-- Two lines in three chunks, the first of which is buffered.
abbrev buffered : Text
buffered = codes "GE"

abbrev chunks : List Text
chunks = codes "T a" ∷ codes "\nPI" ∷ codes "NG\n" ∷ []

abbrev after_first : Text
after_first = codes "PING\n"
