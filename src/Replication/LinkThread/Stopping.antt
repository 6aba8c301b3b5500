-- ===== src/Replication/LinkThread/Stopping.antt =====
-- What `stop` of src/replication/replica_link.cpp brings to an end.
use tiny_kv_distributed_stor.Prelude.{
  ℕ, ◌+◌, ◌≤◌, ◌<◌, ◌≡◌, refl, ap, true, false, [], ◌∷◌, length, length-append, arith,
}
use tiny_kv_distributed_stor.Replication.LinkThread.{
  Place, StopPlace, LinkThread, Move, Receive, OwnStep, Step, Steps,
}

abbrev place_rank : Place → ℕ
place_rank Place.at_top = 1
place_rank Place.registered = 6
place_rank Place.dialled = 5
place_rank Place.reading = 4
place_rank Place.waiting = 6
place_rank (Place.applying line) = 5
place_rank Place.past_attempt = 3
place_rank Place.unregistered = 2
place_rank Place.asleep = 2
place_rank Place.finished = 0

abbrev stop_rank : StopPlace → ℕ
stop_rank StopPlace.not_called = 3
stop_rank StopPlace.flagged = 2
stop_rank StopPlace.client_closed = 1
stop_rank StopPlace.returned = 0

-- How many steps are left at most once the flag is down.
abbrev pub rank : LinkThread → ℕ
rank l = place_rank l.place + stop_rank l.stopping

-- 1 if a line may still come.
abbrev pending : Place → ℕ
pending Place.waiting = 1
pending (Place.applying line) = 1
pending _ = 0

-- A step with the flag down.
record Closer (l m : LinkThread) : Type 0 where
  off : m.running ≡ false
  closer : rank m < rank l
  lines : length m.applied + pending m.place ≤ length l.applied + pending l.place

on_not_off : (l : LinkThread) → l.running ≡ true → l.running ≡ false → ⊥
on_not_off l on off = ground (arith, on, off)

-- A move to a place of lower rank that applies nothing.
moved-Closer :
    (l m : LinkThread) (p : Place)
    → l.place ≡ p
    → m.running ≡ false
    → m.stopping ≡ l.stopping
    → m.applied ≡ l.applied
    → place_rank m.place < place_rank p
    → pending m.place ≤ pending p
    → Closer l m
moved-Closer l m p at off stop_same same lower fewer =
    let r = ap place_rank at in
    let f = ap pending at in
    let t = ap stop_rank stop_same in
    let n = ap length same in
    record { off = off; closer = omega (arith, r, t, lower); lines = omega (arith, f, n, fewer) }

Move-Closer : {l m : LinkThread} → Move l m → l.running ≡ false → Closer l m
Move-Closer {l} (Move.enters at on) off = absurd (on_not_off l on off)
Move-Closer {l} (Move.receives at on) off = absurd (on_not_off l on off)
Move-Closer {l} (Move.sleeps at on) off = absurd (on_not_off l on off)
Move-Closer {l} {m} (Move.applies line at) off =
    let r = ap place_rank at in
    let f = ap pending at in
    let n = length-append l.applied (line ∷ []) in
    record { off = off; closer = omega (arith, r); lines = omega (arith, f, n) }
Move-Closer {l} {m} (Move.ends at stopped) off =
    moved-Closer l m Place.at_top at off refl refl (omega arith) (omega arith)
Move-Closer {l} {m} (Move.connects at) off =
    moved-Closer l m Place.registered at off refl refl (omega arith) (omega arith)
Move-Closer {l} {m} (Move.is_refused at) off =
    moved-Closer l m Place.registered at off refl refl (omega arith) (omega arith)
Move-Closer {l} {m} (Move.sends at there) off =
    moved-Closer l m Place.dialled at off refl refl (omega arith) (omega arith)
Move-Closer {l} {m} (Move.send_fails at) off =
    moved-Closer l m Place.dialled at off refl refl (omega arith) (omega arith)
Move-Closer {l} {m} (Move.stops_reading at stopped) off =
    moved-Closer l m Place.reading at off refl refl (omega arith) (omega arith)
Move-Closer {l} {m} (Move.unregisters at) off =
    moved-Closer l m Place.past_attempt at off refl refl (omega arith) (omega arith)
Move-Closer {l} {m} (Move.goes_round at stopped) off =
    moved-Closer l m Place.unregistered at off refl refl (omega arith) (omega arith)
Move-Closer {l} {m} (Move.wakes at) off =
    moved-Closer l m Place.asleep at off refl refl (omega arith) (omega arith)

Receive-Closer : {l m : LinkThread} → Receive l m → l.running ≡ false → Closer l m
Receive-Closer {l} {m} (Receive.gets line at) off =
    moved-Closer l m Place.waiting at off refl refl (omega arith) (omega arith)
Receive-Closer {l} {m} (Receive.loses at) off =
    moved-Closer l m Place.waiting at off refl refl (omega arith) (omega arith)

OwnStep-Closer : {l m : LinkThread} → OwnStep l m → l.running ≡ false → Closer l m
OwnStep-Closer (OwnStep.moves move) off = Move-Closer move off
OwnStep-Closer (OwnStep.flags at) off =
    let r = ap stop_rank at in record { off = refl; closer = omega (arith, r); lines = omega arith }
OwnStep-Closer (OwnStep.closes at) off =
    let r = ap stop_rank at in record { off = off; closer = omega (arith, r); lines = omega arith }
OwnStep-Closer (OwnStep.joins at ended) off =
    let r = ap stop_rank at in record { off = off; closer = omega (arith, r); lines = omega arith }

Step-Closer : {l m : LinkThread} → Step l m → l.running ≡ false → Closer l m
Step-Closer (Step.goes_on step) off = OwnStep-Closer step off
Step-Closer (Step.hears heard) off = Receive-Closer heard off

Steps-lines :
    {l m : LinkThread}
    → Steps l m
    → l.running ≡ false
    → (m.running ≡ false)
      × (length m.applied + pending m.place ≤ length l.applied + pending l.place)
Steps-lines Steps.none_yet off = (off, omega arith)
Steps-lines (Steps.later before step) off =
    let (still, fewer) = Steps-lines before off in
    let c = Step-Closer step still in let lines = c.lines in (c.off, omega (arith, fewer, lines))

-- Once `stop` has put the flag down, at most one more line reaches the callback, however the steps are
-- ordered.
pub late_lines :
    (l m : LinkThread) → l.running ≡ false → Steps l m → length m.applied ≤ length l.applied + 1
late_lines l m off steps =
    let (_, fewer) = Steps-lines steps off in
    let one = pending_one l.place in omega (arith, fewer, one)
  where
    pending_one : (p : Place) → pending p ≤ 1
    pending_one Place.waiting = omega arith
    pending_one (Place.applying line) = omega arith
    pending_one _ = omega arith

-- The thread is in a `receiveLine` whose socket `stop` has closed before the join.
abbrev pub IsCutOff : LinkThread → Type 0
IsCutOff l =
    (l.place ≡ Place.waiting) × (l.stopping ≡ StopPlace.client_closed) × (l.has_socket ≡ false)
