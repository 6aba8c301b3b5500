-- ===== src/Recovery/Values.antt =====
-- The values after a replay (src/persistence/replay.cpp).
use tiny_kv_distributed_stor.Prelude.{ℕ, suc, ◌≡◌, refl, ap, ◌∙◌, List, [], ◌∷◌, ◌++◌}
use tiny_kv_distributed_stor.Prelude.Text.{Text}
use tiny_kv_distributed_stor.Storage.KvStore.Contents.{contents}
use tiny_kv_distributed_stor.Storage.ExpiryManager.{TimePoint}
use tiny_kv_distributed_stor.Protocol.Parser.{ParseResult, parsed, protocol_error, parse}
use tiny_kv_distributed_stor.Executor.{Executor}
use tiny_kv_distributed_stor.Executor.Keeps.{IsValid, execute-Keeps}
use tiny_kv_distributed_stor.Executor.Effect.{Values, effect, execute-effect}
use tiny_kv_distributed_stor.Recovery.{executed, replay_line, replay_all}

abbrev pub parsed_effect : ParseResult → Values → Values
parsed_effect (parsed cmd) m = effect cmd.type cmd.args m
parsed_effect (protocol_error message) m = m

-- What a line does to the values: nothing, if it is empty or does not parse.
unfoldable pub line_effect : Text → Values → Values
line_effect [] m = m
line_effect (c ∷ line) m = parsed_effect (parse (c ∷ line)) m

unfoldable pub lines_effect : List Text → Values → Values
unfolding line_effect
lines_effect [] m = m
lines_effect (line ∷ lines) m = lines_effect lines (line_effect line m)

pub lines_effect-append :
    (xs ys : List Text) (m : Values)
    → lines_effect (xs ++ ys) m ≡ lines_effect ys (lines_effect xs m)
unfolding lines_effect
lines_effect-append [] ys m = refl
lines_effect-append (x ∷ xs) ys m = lines_effect-append xs ys (line_effect x m)

-- Valid and unbounded, with these values.
pub record Has (m : Values) (ex : Executor) : Type 0 where
  pub valid : IsValid ex
  pub unbounded : ex.store.capacity ≡ 0
  pub values : contents ex.store ≡ m

executed-Has :
    (now : TimePoint) (r : ParseResult) (m : Values) (ex : Executor)
    → Has m ex
    → Has (parsed_effect r m) (executed now r ex)
executed-Has now (parsed cmd) m ex h =
    let (valid, cap) = execute-Keeps now cmd ex h.valid in
    record {
      valid = valid;
      unbounded = cap ∙ h.unbounded;
      values =
          execute-effect now cmd ex h.valid h.unbounded ∙ ap (effect cmd.type cmd.args) h.values;
    }
executed-Has now (protocol_error message) m ex h = h

pub replay_line-Has :
    (now : TimePoint) (line : Text) (m : Values) (ex : Executor)
    → Has m ex
    → Has (line_effect line m) (replay_line now line ex)
unfolding replay_line line_effect
replay_line-Has now [] m ex h = h
replay_line-Has now (c ∷ line) m ex h = executed-Has now (parse (c ∷ line)) m ex h

-- Whatever the clock shows, a replay of lines by a valid server without a capacity limit that has the
-- values m leaves a valid one whose values are the effect of the lines on m.
pub replay_all-Has :
    (clock : ℕ → TimePoint) (i : ℕ) (lines : List Text) (m : Values) (ex : Executor)
    → Has m ex
    → Has (lines_effect lines m) (replay_all clock i lines ex)
unfolding replay_all lines_effect
replay_all-Has clock i [] m ex h = h
replay_all-Has clock i (line ∷ lines) m ex h =
    replay_all-Has clock (suc i) lines _ _ (replay_line-Has (clock i) line m ex h)
