-- ===== src/Tests/Startup.antt =====
-- Configuration files, arguments and a session of the command line program (src/config.cpp,
-- src/server_main.cpp, src/cli_main.cpp).
use tiny_kv_distributed_stor.Prelude.{refl, Option, some, List, [], ◌∷◌, ◌++◌, map, All}
use tiny_kv_distributed_stor.Prelude.Text.{Text, codes}
use tiny_kv_distributed_stor.Prelude.Int.{pos}
use tiny_kv_distributed_stor.Prelude.Decimal.{to_string}
use tiny_kv_distributed_stor.Recovery.Lines.{IsLine, unlines}
use tiny_kv_distributed_stor.Config.Entry.{IsKey}
use tiny_kv_distributed_stor.Config.Last.{plain_line}
use tiny_kv_distributed_stor.Net.TcpClient.{Socket}

abbrev key : Text
key = codes "dir"

key-IsKey : IsKey key
key-IsKey = (refl, (refl, refl), (refl, (refl, (refl, tt))))

abbrev comment : List Text
comment = codes "# x" ∷ []

comment-AreLines : All IsLine comment
comment-AreLines = ((refl, (refl, (refl, tt))), tt)

abbrev files : Text → Option Text
files path = some (unlines (comment ++ plain_line (codes "port") (to_string (pos 6381)) ∷ []))

abbrev typed : List Text
typed = map codes ("PING" ∷ "" ∷ "GET a" ∷ "quit" ∷ "GET b" ∷ [])

abbrev replies : List Text
replies = map codes ("+PONG" ∷ "$x" ∷ [])

abbrev socket : Socket
socket = record { incoming = map codes ("+PO" ∷ "NG\n$x\n" ∷ []); sent = []; room = 11 }
