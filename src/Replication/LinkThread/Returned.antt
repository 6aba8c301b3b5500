-- ===== src/Replication/LinkThread/Returned.antt =====
-- What follows the return of `stop` of src/replication/replica_link.cpp.
use mathlib.Core.Path.{subst}
use tiny_kv_distributed_stor.Prelude.{◌≡◌, refl, sym, ap, ◌∙◌, Bool, true, false, arith}
use tiny_kv_distributed_stor.Replication.LinkThread.{
  Place, StopPlace, LinkThread, started, Move, Receive, OwnStep, Step, Steps,
}

abbrev is_finished : Place → Bool
is_finished Place.finished = true
is_finished _ = false

abbrev has_returned : StopPlace → Bool
has_returned StopPlace.returned = true
has_returned _ = false

Move-unfinished : {l m : LinkThread} → Move l m → is_finished l.place ≡ false
Move-unfinished (Move.enters at on) = ap is_finished at
Move-unfinished (Move.receives at on) = ap is_finished at
Move-unfinished (Move.sleeps at on) = ap is_finished at
Move-unfinished (Move.applies line at) = ap is_finished at
Move-unfinished (Move.ends at stopped) = ap is_finished at
Move-unfinished (Move.connects at) = ap is_finished at
Move-unfinished (Move.is_refused at) = ap is_finished at
Move-unfinished (Move.sends at there) = ap is_finished at
Move-unfinished (Move.send_fails at) = ap is_finished at
Move-unfinished (Move.stops_reading at stopped) = ap is_finished at
Move-unfinished (Move.unregisters at) = ap is_finished at
Move-unfinished (Move.goes_round at stopped) = ap is_finished at
Move-unfinished (Move.wakes at) = ap is_finished at

stopping_kept : {l m : LinkThread} → Move l m → m.stopping ≡ l.stopping
stopping_kept (Move.enters at on) = refl
stopping_kept (Move.receives at on) = refl
stopping_kept (Move.sleeps at on) = refl
stopping_kept (Move.applies line at) = refl
stopping_kept (Move.ends at stopped) = refl
stopping_kept (Move.connects at) = refl
stopping_kept (Move.is_refused at) = refl
stopping_kept (Move.sends at there) = refl
stopping_kept (Move.send_fails at) = refl
stopping_kept (Move.stops_reading at stopped) = refl
stopping_kept (Move.unregisters at) = refl
stopping_kept (Move.goes_round at stopped) = refl
stopping_kept (Move.wakes at) = refl

Receive-unfinished : {l m : LinkThread} → Receive l m → is_finished l.place ≡ false
Receive-unfinished (Receive.gets line at) = ap is_finished at
Receive-unfinished (Receive.loses at) = ap is_finished at

stopping_heard : {l m : LinkThread} → Receive l m → m.stopping ≡ l.stopping
stopping_heard (Receive.gets line at) = refl
stopping_heard (Receive.loses at) = refl

-- `stop` has returned only if the thread has ended.
Joined : LinkThread → Type 0
Joined l = has_returned l.stopping ≡ true → is_finished l.place ≡ true

Ended : LinkThread → Type 0
Ended l = (has_returned l.stopping ≡ true) × (is_finished l.place ≡ true)

different : (b : Bool) → b ≡ true → b ≡ false → ⊥
different b e f = ground (arith, e, f)

Step-Joined : {l m : LinkThread} → Step l m → Joined l → Joined m
unfolding Joined
Step-Joined {l} (Step.hears heard) h e = absurd (
    different (is_finished l.place) (h (sym (ap has_returned (stopping_heard heard)) ∙ e))
      (Receive-unfinished heard))
Step-Joined {l} (Step.goes_on (OwnStep.moves move)) h e = absurd (
    different (is_finished l.place) (h (sym (ap has_returned (stopping_kept move)) ∙ e))
      (Move-unfinished move))
Step-Joined (Step.goes_on (OwnStep.flags at)) h e = absurd (different false e refl)
Step-Joined (Step.goes_on (OwnStep.closes at)) h e = absurd (different false e refl)
Step-Joined (Step.goes_on (OwnStep.joins at ended)) h e = ap is_finished ended

Steps-Joined : {l : LinkThread} → Steps started l → Joined l
unfolding Joined
Steps-Joined Steps.none_yet e = absurd (different false e refl)
Steps-Joined (Steps.later before step) e = Step-Joined step (Steps-Joined before) e

nothing_after_end : {l m : LinkThread} → Step l m → Ended l → ⊥
unfolding Ended
nothing_after_end {l} (Step.hears heard) h =
    different (is_finished l.place) h.1 (Receive-unfinished heard)
nothing_after_end {l} (Step.goes_on (OwnStep.moves move)) h =
    different (is_finished l.place) h.1 (Move-unfinished move)
nothing_after_end {l} (Step.goes_on (OwnStep.flags at)) h =
    different (has_returned l.stopping) h.0 (ap has_returned at)
nothing_after_end {l} (Step.goes_on (OwnStep.closes at)) h =
    different (has_returned l.stopping) h.0 (ap has_returned at)
nothing_after_end {l} (Step.goes_on (OwnStep.joins at ended)) h =
    different (has_returned l.stopping) h.0 (ap has_returned at)

Steps-same : {l m : LinkThread} → Steps l m → Ended l → m ≡ l
Steps-same Steps.none_yet h = refl
Steps-same (Steps.later before step) h =
    let same = Steps-same before h in absurd (nothing_after_end step (subst Ended (sym same) h))

-- After `stop` has returned, nothing of the link changes any more: the callback gets no further line.
pub returned_is_quiet :
    (l m : LinkThread)
    → Steps started l
    → l.stopping ≡ StopPlace.returned
    → Steps l m
    → (l.place ≡ Place.finished) × (m ≡ l)
unfolding Ended Joined
returned_is_quiet l m before at after =
    let e = ap has_returned at in
    let ended = Steps-Joined before e in (finished_place l.place ended, Steps-same after (e, ended))
  where
    finished_place : (p : Place) → is_finished p ≡ true → p ≡ Place.finished
    finished_place Place.finished h = refl
    finished_place p h = absurd (different false h refl)
