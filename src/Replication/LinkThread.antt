-- ===== src/Replication/LinkThread.antt =====
-- The thread of a `ReplicaLink` (src/replication/replica_link.cpp,
-- include/tinykv/replication/replica_link.hpp) and the call of `stop` that ends it, as a step relation.
-- What the network does is left open: a connect and a send may succeed or fail. Whether a `receiveLine`
-- that waits ever comes back is left open too: its ends are steps of their own, apart from the steps of
-- the program.
pub mod Sockets
pub mod Stopping
pub mod Returned
use tiny_kv_distributed_stor.Prelude.{◌≡◌, Bool, true, false, List, [], ◌∷◌, ◌++◌, if◌then◌else◌}
use tiny_kv_distributed_stor.Prelude.Text.{Text}

-- Where the thread is in `runLoop`: at the test of the outer loop, with a new client, connected, at the
-- test of the inner loop, in `receiveLine`, in the callback, past the attempt, past
-- `currentClient_ = nullptr`, asleep, and at the end.
pub data Place : Type 0 where
  at_top registered dialled reading waiting : Place
  applying : Text → Place
  past_attempt unregistered asleep finished : Place

-- How far `stop` is.
pub data StopPlace : Type 0 where
  not_called flagged client_closed returned : StopPlace

-- `has_client` is `currentClient_ != nullptr`, `open` whether that client has its socket, and `applied`
-- are the lines that the callback was given.
pub record LinkThread : Type 0 where
  pub running : Bool
  pub connected : Bool
  pub has_client : Bool
  pub has_socket : Bool
  pub place : Place
  pub stopping : StopPlace
  pub applied : List Text

-- `start`
abbrev pub started : LinkThread
started = record {
  running = true;
  connected = false;
  has_client = false;
  has_socket = false;
  place = Place.at_top;
  stopping = StopPlace.not_called;
  applied = [];
}

-- What the thread does next, wherever it does not wait for a line.
pub data Move (l : LinkThread) : LinkThread → Type 0 where
  enters :
      l.place ≡ Place.at_top
      → l.running ≡ true
      → Move l (record l { place = Place.registered; has_client = true; has_socket = false })
  ends : l.place ≡ Place.at_top → l.running ≡ false → Move l (record l { place = Place.finished })
  connects :
      l.place ≡ Place.registered → Move l (record l { place = Place.dialled; has_socket = true })
  is_refused : l.place ≡ Place.registered → Move l (record l { place = Place.past_attempt })
  sends :
      l.place ≡ Place.dialled
      → l.has_socket ≡ true
      → Move l (record l { place = Place.reading; connected = true })
  send_fails : l.place ≡ Place.dialled → Move l (record l { place = Place.past_attempt })
  receives :
      l.place ≡ Place.reading → l.running ≡ true → Move l (record l { place = Place.waiting })
  stops_reading :
      l.place ≡ Place.reading
      → l.running ≡ false
      → Move l (record l { place = Place.past_attempt; connected = false })
  applies :
      (line : Text)
      → l.place ≡ Place.applying line
      → Move l (record l { place = Place.reading; applied = l.applied ++ line ∷ [] })
  unregisters :
      l.place ≡ Place.past_attempt
      → Move l (record l { place = Place.unregistered; has_client = false })
  sleeps :
      l.place ≡ Place.unregistered → l.running ≡ true → Move l (record l { place = Place.asleep })
  goes_round :
      l.place ≡ Place.unregistered → l.running ≡ false → Move l (record l { place = Place.at_top })
  wakes : l.place ≡ Place.asleep → Move l (record l { place = Place.at_top })

-- The ends of a `receiveLine` that waits: a line of the primary, or a failure, whatever its reason.
pub data Receive (l : LinkThread) : LinkThread → Type 0 where
  gets :
      (line : Text) → l.place ≡ Place.waiting → Receive l (record l { place = Place.applying line })
  loses :
      l.place ≡ Place.waiting
      → Receive l (record l { place = Place.past_attempt; connected = false })

-- The steps of the program: of the thread, and of `stop`, which puts the flag down, closes the current
-- client, and joins the thread.
pub data OwnStep (l : LinkThread) : LinkThread → Type 0 where
  moves : {m : LinkThread} → Move l m → OwnStep l m
  flags :
      l.stopping ≡ StopPlace.not_called
      → OwnStep l (record l { running = false; stopping = StopPlace.flagged })
  closes :
      l.stopping ≡ StopPlace.flagged
      → OwnStep l (record l {
        has_socket = if l.has_client then false else l.has_socket;
        stopping = StopPlace.client_closed;
      })
  joins :
      l.stopping ≡ StopPlace.client_closed
      → l.place ≡ Place.finished
      → OwnStep l (record l { stopping = StopPlace.returned })

pub data Step (l : LinkThread) : LinkThread → Type 0 where
  goes_on : {m : LinkThread} → OwnStep l m → Step l m
  hears : {m : LinkThread} → Receive l m → Step l m

-- Any number of steps.
pub data Steps (l : LinkThread) : LinkThread → Type 0 where
  none_yet : Steps l l
  later : {m n : LinkThread} → Steps l m → Step m n → Steps l n
