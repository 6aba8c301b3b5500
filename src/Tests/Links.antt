-- ===== src/Tests/Links.antt =====
-- The thread of a link that is stopped (src/replication/replica_link.cpp), and a connection of the router
-- (src/sharding/router.cpp).
use mathlib.Core.Path.{subst}
use tiny_kv_distributed_stor.Prelude.{
  ℕ, ◌+◌, ◌≤◌, ◌≡◌, refl, sym, true, false, none, some, List, [], ◌∷◌, ◌++◌, All, map, length,
  arith,
}
use tiny_kv_distributed_stor.Prelude.Text.{Text, codes, text_eq}
use tiny_kv_distributed_stor.Protocol.Parser.{
  command_of, command_type_from_name, parse, to_upper, to_upper_char, tokenize, tokens_from,
  upper_name_type,
}
use tiny_kv_distributed_stor.Protocol.Reply
use tiny_kv_distributed_stor.Replication.LinkThread.{
  Place, StopPlace, LinkThread, started, Move, Receive, OwnStep, Step, Steps,
}
use tiny_kv_distributed_stor.Replication.LinkThread.Stopping.{late_lines}
use tiny_kv_distributed_stor.Replication.LinkThread.Returned.{returned_is_quiet}
use tiny_kv_distributed_stor.Recovery.Lines.{IsLine, unlines}
use tiny_kv_distributed_stor.Net.LineProtocol.{strip_cr}
use tiny_kv_distributed_stor.Sharding.Ring
use tiny_kv_distributed_stor.Sharding.Router.{
  Router, Network, route_line, route_parsed, route_command, reply_ping, reply_nodes,
}
use tiny_kv_distributed_stor.Sharding.Router.Connection.{RouterConnection, route_connection}
use tiny_kv_distributed_stor.Sharding.Router.Connection.Serves.{
  route_replies, route_all, route_connection_serves,
}

-- `stop` has put the flag down while the thread waits for a line.
abbrev waiting : LinkThread
waiting = record started {
  running = false;
  connected = true;
  has_client = true;
  has_socket = true;
  place = Place.waiting;
  stopping = StopPlace.flagged;
}

abbrev after_line : LinkThread
after_line = record waiting { place = Place.reading; applied = codes "SET a 1" ∷ [] }

one_line : Steps waiting after_line
one_line =
    Steps.later (Steps.later Steps.none_yet (Step.hears (Receive.gets (codes "SET a 1") refl)))
      (Step.goes_on (OwnStep.moves (Move.applies (codes "SET a 1") refl)))

late_lines_example : length after_line.applied ≤ length waiting.applied + 1
late_lines_example = late_lines waiting after_line refl one_line

-- The link was started and its thread waits for a line when `stop` puts the flag down.
abbrev reading : LinkThread
reading = record started {
  connected = true;
  has_client = true;
  has_socket = true;
  place = Place.reading;
}

abbrev stopped : LinkThread
stopped = record started { running = false; place = Place.finished; stopping = StopPlace.returned }

whole_life : Steps started stopped
whole_life =
    Steps.later
      (Steps.later
        (Steps.later (Steps.later Steps.none_yet (Step.goes_on (OwnStep.flags refl)))
          (Step.goes_on (OwnStep.closes refl)))
        (Step.goes_on (OwnStep.moves (Move.ends refl refl))))
      (Step.goes_on (OwnStep.joins refl refl))

returned_is_quiet_example : (stopped.place ≡ Place.finished) × (stopped ≡ stopped)
returned_is_quiet_example = returned_is_quiet stopped stopped whole_life refl Steps.none_yet

abbrev router : Router
router = record { topology = []; ring = Ring.init 2; backends = [] }

abbrev quiet : ℕ → Network
quiet i = record { accepts = false; response = none }

abbrev lines : List Text
lines = map codes ("PING" ∷ "" ∷ "NODES x" ∷ [])

abbrev answers : List Text
answers = map codes ("+OK" ∷ "-ERR wrong number of arguments for 'NODES'" ∷ [])

lines-AreLines : All IsLine lines
lines-AreLines = (
  (refl, (refl, (refl, (refl, tt)))),
  (tt, ((refl, (refl, (refl, (refl, (refl, (refl, (refl, tt))))))), tt)),
)

lines-answers : route_replies quiet 0 lines router ≡ answers
unfolding parse tokenize tokens_from command_of command_type_from_name upper_name_type to_upper
    to_upper_char text_eq strip_cr route_line route_parsed route_command reply_ping reply_nodes
    Reply.error Reply.ok
lines-answers = refl

answers-fit : length (unlines (route_replies quiet 0 lines router)) ≤ 100
answers-fit = subst (λ l. length (unlines l) ≤ 100) (sym lines-answers) (omega arith)

abbrev asking : RouterConnection
asking = record {
  socket = record { incoming = map codes ("PING\n\nNO" ∷ "DES x\n" ∷ []); sent = []; room = 100 };
  buffer = [];
  router = router;
}

route_connection_serves_example :
    (d : RouterConnection) × (route_connection quiet 4 0 asking ≡ some d)
    × (d.router ≡ route_all quiet 0 lines asking.router)
    × (d.socket.sent ≡ asking.socket.sent ++ unlines (route_replies quiet 0 lines asking.router))
route_connection_serves_example =
    route_connection_serves quiet lines 4 0 asking lines-AreLines
      (omega arith, (omega arith, (omega arith, tt))) refl answers-fit (omega arith)
