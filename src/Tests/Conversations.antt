-- ===== src/Tests/Conversations.antt =====
-- A client and a server (src/cli_main.cpp, src/server_main.cpp).
use mathlib.Core.Path.{subst}
use mathlib.Core.List.{append-nil}
use tiny_kv_distributed_stor.Prelude.{
  ◌≤◌, ◌≡◌, ◌≢◌, refl, sym, ap, ◌∙◌, true, none, some, List, [], ◌∷◌, ◌++◌, All, map, ltb, length,
  arith,
}
use tiny_kv_distributed_stor.Prelude.Text.{Text, codes, text_eq}
use tiny_kv_distributed_stor.Prelude.Dict.{find, insert}
use tiny_kv_distributed_stor.Prelude.Int.{pos}
use tiny_kv_distributed_stor.Storage.KvStore
use tiny_kv_distributed_stor.Protocol.Parser.{
  command_of, command_type_from_name, max_line_length, parse, to_upper, to_upper_char, tokenize,
  tokens_from, upper_name_type,
}
use tiny_kv_distributed_stor.Protocol.Reply
use tiny_kv_distributed_stor.Recovery.Lines.{IsLine, unlines}
use tiny_kv_distributed_stor.Net.LineProtocol.{max_line, strip_cr}
use tiny_kv_distributed_stor.Net.LineProtocol.Chunks.{joined}
use tiny_kv_distributed_stor.Executor.{Executor, dispatch, execute}
use tiny_kv_distributed_stor.Executor.Words.{AreWords}
use tiny_kv_distributed_stor.Server.{
  handle_line, handle_parsed, handle_command, serve, execute_and_record,
}
use tiny_kv_distributed_stor.Server.Framing.{
  IsClean, IsReply, IsRefused, syncs, parse_too_long, handle_line-IsReply,
}
use tiny_kv_distributed_stor.Server.Events.{Machine, Event, run}
use tiny_kv_distributed_stor.Server.Events.Clean.{run-IsClean}
use tiny_kv_distributed_stor.Server.Connection.{Connection, handle_connection}
use tiny_kv_distributed_stor.Server.Connection.Ends.{handle_connection_returns}
use tiny_kv_distributed_stor.Server.Connection.Serves.{NoSync, requests_of, replies, propagated}
use tiny_kv_distributed_stor.Server.Connection.Answers.{connection_serves}
use tiny_kv_distributed_stor.Server.Conversation.{accepted, dialled, asked, conversation}
use tiny_kv_distributed_stor.Startup.CliMain.{Session, input_of, repl}
use tiny_kv_distributed_stor.Startup.CliMain.Replies.{commands, over, sent_on}
use tiny_kv_distributed_stor.Tests.Wires.{filler, length-filler}
use tiny_kv_distributed_stor.Tests.Runs.{clock, requests, serving, serving-IsValid}

serving-AreWords : AreWords (KvStore.entries serving.store)
unfolding KvStore.set KvStore.init KvStore.entries find insert
serving-AreWords = (((refl, tt), (refl, tt)), tt)

serving-IsClean : IsClean serving
serving-IsClean = record { valid = serving-IsValid; words = serving-AreWords }

abbrev typed : List Text
typed = map codes ("PING" ∷ "" ∷ "FOO b" ∷ "quit" ∷ "GET a" ∷ [])

abbrev lines : List Text
lines = map codes ("PING" ∷ "FOO b" ∷ [])

abbrev printed : List Text
printed = map codes ("+OK" ∷ "-ERR unknown command 'FOO'" ∷ [])

typed-lines : commands typed ≡ lines
unfolding input_of text_eq
typed-lines = refl

lines-AreLines : All IsLine lines
lines-AreLines =
    ((refl, (refl, (refl, (refl, tt)))), ((refl, (refl, (refl, (refl, (refl, tt))))), tt))

lines-fit : All (λ line. length line ≤ max_line) lines
lines-fit = (omega arith, (omega arith, tt))

parsing : Unit {0}
unfolding parse tokenize tokens_from command_of command_type_from_name upper_name_type to_upper
    to_upper_char text_eq strip_cr
parsing = tt

lines-NoSync : All NoSync lines
unfolding parsing
lines-NoSync = (refl, (refl, tt))

lines-ne : All (λ line. strip_cr line ≢ []) lines
unfolding strip_cr
lines-ne = ((λ e. absurd (ground (arith, e))), ((λ e. absurd (ground (arith, e))), tt))

lines-replies : replies (requests_of clock 5 0 lines) serving ≡ printed
unfolding parsing handle_line handle_parsed handle_command execute_and_record execute dispatch
    Reply.error Reply.ok tiny_kv_distributed_stor.Protocol.Command.is_write_command
    tiny_kv_distributed_stor.Executor.execute_ping
lines-replies = refl

replies-short :
    All (λ reply. length reply ≤ max_line) (replies (requests_of clock 5 0 lines) serving)
replies-short =
    subst (All (λ (reply : Text). length reply ≤ max_line)) (sym lines-replies)
      (omega arith, (omega arith, tt))

replies-fit : length (unlines (replies (requests_of clock 5 0 lines) serving)) ≤ 100
replies-fit = subst (λ l. length (unlines l) ≤ 100) (sym lines-replies) (omega arith)

abbrev chunks : List Text
chunks = map codes ("PI" ∷ "NG\nFOO b\n" ∷ [])

abbrev connection : Connection
connection = accepted chunks 100 serving

handle_connection_returns_example :
    (d : Connection) × (handle_connection clock 5 13 0 connection ≡ some d)
handle_connection_returns_example = handle_connection_returns clock 5 13 0 connection (omega arith)

connection_serves_example :
    (d : Connection) × (handle_connection clock 5 3 0 connection ≡ some d)
    × (d.server ≡ serve (requests_of clock 5 0 lines) connection.server)
    × (d.socket.sent
        ≡ connection.socket.sent
          ++ unlines (replies (requests_of clock 5 0 lines) connection.server))
    × (d.to_replicas
        ≡ connection.to_replicas ++ propagated (requests_of clock 5 0 lines) connection.server)
connection_serves_example =
    connection_serves clock 5 lines 3 0 connection lines-AreLines lines-fit lines-NoSync refl
      replies-fit (omega arith)

-- A line of 9000 bytes.
too_long : ltb max_line_length (length (filler 9000)) ≡ true
too_long = ap (ltb max_line_length) (length-filler 9000)

filler-not_empty : filler 9000 ≢ []
filler-not_empty e =
    let size = sym (length-filler 9000) ∙ ap length e in absurd (omega (arith, size))

handle_line-IsReply_example :
    IsReply (handle_line (pos 1) 5 (filler 9000) serving).outcome
    × IsRefused
        (ltb max_line_length (length (filler 9000)))
        serving
        (handle_line (pos 1) 5 (filler 9000) serving)
handle_line-IsReply_example =
    handle_line-IsReply serving serving-IsClean (pos 1) 5 (filler 9000) filler-not_empty
      (ap syncs (parse_too_long (filler 9000) too_long))

abbrev machine : Machine
machine = record { executor = serving; firing = none; seconds_since_snapshot = 0 }

abbrev events : List Event
events =
    Event.swept (pos 2)
    ∷ Event.replicated (pos 3) (codes "SET b 1")
    ∷ Event.second_passed
    ∷ map Event.request requests

run-IsClean_example : IsClean (run events machine).executor
run-IsClean_example = run-IsClean events machine serving-IsClean

-- The connection when the server is done.
done : (d : Connection) × (handle_connection clock 5 3 0 connection ≡ some d)
done = (connection_serves_example.0, connection_serves_example.1)

sent_back : joined (done.0.socket.sent ∷ []) ≡ done.0.socket.sent
sent_back = append-nil done.0.socket.sent

abbrev session : Session
session = repl typed (over (dialled (done.0.socket.sent ∷ []) 20) [])

conversation_example :
    (session.printed ≡ map strip_cr (replies (asked clock 5 typed serving) serving))
    × (sent_on session.client.fd ≡ joined chunks)
    × (length (replies (asked clock 5 typed serving) serving) ≡ length (commands typed))
    × (done.0.server ≡ serve (asked clock 5 typed serving) serving)
unfolding input_of text_eq
conversation_example =
    conversation clock 5 typed serving 3 100 20 chunks (done.0.socket.sent ∷ []) done.0
      serving-IsClean lines-AreLines lines-fit lines-NoSync lines-ne replies-short replies-fit
      (omega arith) (omega arith) refl done.1 sent_back
