-- ===== src/Protocol/Parser.antt =====
-- `Parser` (src/protocol/parser.cpp, include/tinykv/protocol/parser.hpp).
pub mod Tokens
use tiny_kv_distributed_stor.Prelude.{
  ℕ, ◌-◌, ◌≡◌, refl, Bool, true, false, ◌&&◌, List, [], ◌∷◌, ◌++◌, map, ltb, leb, length,
  if◌then◌else◌,
}
use tiny_kv_distributed_stor.Prelude.Text.{Text, codes, text_eq}
use tiny_kv_distributed_stor.Prelude.Decimal.{is_space}
use tiny_kv_distributed_stor.Protocol.Command.{Command, CommandType}

abbrev pub max_line_length : ℕ
max_line_length = 8192

abbrev pub add_token : Text → List Text → List Text
add_token [] tokens = tokens
add_token (c ∷ t) tokens = (c ∷ t) ∷ tokens

-- The rest of the tokens, from the characters of the token that is being read.
unfoldable pub tokens_from : Text → Text → List Text
tokens_from token [] = add_token token []
tokens_from token (c ∷ s) = elim (is_space c) [
  | true ↦ add_token token (tokens_from [] s)
  | false ↦ tokens_from (token ++ c ∷ []) s
]

-- `while (iss >> token)`: words separated by white space.
unfoldable pub tokenize : Text → List Text
unfolding tokens_from
tokenize line = tokens_from [] line

-- `std::toupper` in the "C" locale.
unfoldable pub to_upper_char : ℕ → ℕ
to_upper_char c = if leb b'a' c && leb c b'z' then c - 32 else c

unfoldable pub to_upper : Text → Text
unfolding to_upper_char
to_upper s = map to_upper_char s

-- The chain of tests on the name in upper case.
unfoldable pub upper_name_type : Text → CommandType
upper_name_type upper =
    if text_eq upper (codes "SET")
    then CommandType.set
    else if text_eq upper (codes "GET")
    then CommandType.get
    else if text_eq upper (codes "DEL")
    then CommandType.del
    else if text_eq upper (codes "PING")
    then CommandType.ping
    else if text_eq upper (codes "INCR")
    then CommandType.incr
    else if text_eq upper (codes "DECR")
    then CommandType.decr
    else if text_eq upper (codes "TTL")
    then CommandType.ttl
    else if text_eq upper (codes "EXPIRE")
    then CommandType.expire
    else if text_eq upper (codes "PERSIST")
    then CommandType.persist
    else if text_eq upper (codes "SAVE")
    then CommandType.save
    else if text_eq upper (codes "REPLICAOF")
    then CommandType.replicaof
    else if text_eq upper (codes "SYNC")
    then CommandType.sync
    else if text_eq upper (codes "ROUTE")
    then CommandType.route
    else if text_eq upper (codes "NODES")
    then CommandType.nodes
    else CommandType.unknown

unfoldable pub command_type_from_name : Text → CommandType
unfolding to_upper upper_name_type
command_type_from_name name = upper_name_type (to_upper name)

-- `Parser::parse` returns a command or throws `ProtocolError` with a message.
pub data ParseResult : Type 0 where
  parsed : Command → ParseResult
  protocol_error : Text → ParseResult

unfoldable pub command_of : List Text → ParseResult
unfolding command_type_from_name
command_of [] = protocol_error (codes "empty command")
command_of (name ∷ args) =
    parsed (record { type = command_type_from_name name; name = name; args = args })

unfoldable pub parse : Text → ParseResult
unfolding tokenize command_of
parse line =
    if ltb max_line_length (length line)
    then protocol_error (codes "line too long (max 8192 bytes)")
    else command_of (tokenize line)

parse_test :
    parse (codes "  set  k v")
    ≡ parsed
        (record { type = CommandType.set; name = codes "set"; args = codes "k" ∷ codes "v" ∷ [] })
unfolding parse text_eq
parse_test = refl
