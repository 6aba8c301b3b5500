-- ===== src/Replication/LinkThread/Sockets.antt =====
-- The client and the flag of src/replication/replica_link.cpp while `stop` runs.
use tiny_kv_distributed_stor.Prelude.{◌≡◌, refl, ap, Bool, true, false}
use tiny_kv_distributed_stor.Replication.LinkThread.{
  Place, StopPlace, LinkThread, started, Move, Receive, OwnStep, Step, Steps,
}

-- Where `currentClient_` is set.
abbrev is_attempt : Place → Bool
is_attempt Place.registered = true
is_attempt Place.dialled = true
is_attempt Place.reading = true
is_attempt Place.waiting = true
is_attempt (Place.applying line) = true
is_attempt Place.past_attempt = true
is_attempt _ = false

-- A thread that waits for a line after `stop` has closed the client waits on a closed socket.
pub record IsClosable (l : LinkThread) : Type 0 where
  pub client : is_attempt l.place ≡ true → l.has_client ≡ true
  pub flag : l.running ≡ true → l.stopping ≡ StopPlace.not_called
  pub cut : l.place ≡ Place.waiting → l.stopping ≡ StopPlace.client_closed → l.has_socket ≡ false

Move-IsClosable : {l m : LinkThread} → Move l m → IsClosable l → IsClosable m
Move-IsClosable (Move.enters at on) h = record { client = λ e. refl; flag = h.flag; cut = λ e. cc }
Move-IsClosable (Move.ends at stopped) h = record { client = λ e. cc; flag = h.flag; cut = λ e. cc }
Move-IsClosable (Move.connects at) h = record {
  client = λ e. h.client (ap is_attempt at);
  flag = h.flag;
  cut = λ e. cc;
}
Move-IsClosable (Move.is_refused at) h = record {
  client = λ e. h.client (ap is_attempt at);
  flag = h.flag;
  cut = λ e. cc;
}
Move-IsClosable (Move.sends at there) h = record {
  client = λ e. h.client (ap is_attempt at);
  flag = h.flag;
  cut = λ e. cc;
}
Move-IsClosable (Move.send_fails at) h = record {
  client = λ e. h.client (ap is_attempt at);
  flag = h.flag;
  cut = λ e. cc;
}
Move-IsClosable (Move.stops_reading at stopped) h = record {
  client = λ e. h.client (ap is_attempt at);
  flag = h.flag;
  cut = λ e. cc;
}
Move-IsClosable (Move.applies line at) h = record {
  client = λ e. h.client (ap is_attempt at);
  flag = h.flag;
  cut = λ e. cc;
}
Move-IsClosable {l} (Move.receives at on) h = record {
  client = λ e. h.client (ap is_attempt at);
  flag = h.flag;
  cut = λ e closed. let not_yet = h.flag on in absurd (cc);
}
Move-IsClosable (Move.unregisters at) h = record { client = λ e. cc; flag = h.flag; cut = λ e. cc }
Move-IsClosable (Move.sleeps at on) h = record { client = λ e. cc; flag = h.flag; cut = λ e. cc }
Move-IsClosable (Move.goes_round at stopped) h = record {
  client = λ e. cc;
  flag = h.flag;
  cut = λ e. cc;
}
Move-IsClosable (Move.wakes at) h = record { client = λ e. cc; flag = h.flag; cut = λ e. cc }

Receive-IsClosable : {l m : LinkThread} → Receive l m → IsClosable l → IsClosable m
Receive-IsClosable (Receive.gets line at) h = record {
  client = λ e. h.client (ap is_attempt at);
  flag = h.flag;
  cut = λ e. cc;
}
Receive-IsClosable (Receive.loses at) h = record {
  client = λ e. h.client (ap is_attempt at);
  flag = h.flag;
  cut = λ e. cc;
}

OwnStep-IsClosable : {l m : LinkThread} → OwnStep l m → IsClosable l → IsClosable m
OwnStep-IsClosable (OwnStep.moves move) h = Move-IsClosable move h
OwnStep-IsClosable (OwnStep.flags at) h = record {
  client = h.client;
  flag = λ e. cc;
  cut = λ e closed. cc;
}
OwnStep-IsClosable {l} (OwnStep.closes at) h = record {
  client = h.client;
  flag = λ on. let not_yet = h.flag on in absurd (cc);
  cut = λ e closed. rw (h.client (ap is_attempt e)) refl;
}
OwnStep-IsClosable {l} (OwnStep.joins at ended) h = record {
  client = h.client;
  flag = λ on. let not_yet = h.flag on in absurd (cc);
  cut = λ e closed. cc;
}

pub Steps-IsClosable : {l : LinkThread} → Steps started l → IsClosable l
Steps-IsClosable Steps.none_yet = record { client = λ e. cc; flag = λ e. refl; cut = λ e. cc }
Steps-IsClosable (Steps.later before (Step.goes_on step)) =
    OwnStep-IsClosable step (Steps-IsClosable before)
Steps-IsClosable (Steps.later before (Step.hears heard)) =
    Receive-IsClosable heard (Steps-IsClosable before)
