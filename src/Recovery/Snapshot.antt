-- ===== src/Recovery/Snapshot.antt =====
-- Saving and loading a snapshot (src/persistence/snapshot.cpp).
use mathlib.Core.List.{append_assoc}
use mathlib.Core.Path.{fun_ext, subst}
use tiny_kv_distributed_stor.Prelude.{
  ℕ, ◌≤◌, ◌≡◌, refl, sym, ap, ◌∙◌, Option, none, some, List, [], ◌∷◌, ◌++◌, map, arith, length, All,
  All-append,
}
use tiny_kv_distributed_stor.Prelude.Text.{Text, codes, text_eq, text_eq_iff}
use tiny_kv_distributed_stor.Prelude.Dict.{find, IsMap}
use tiny_kv_distributed_stor.Storage.KvStore.{KvStore, entries}
use tiny_kv_distributed_stor.Storage.KvStore.Nodes.{entries_of-IsMap}
use tiny_kv_distributed_stor.Storage.KvStore.Valid.{IsValid as StoreIsValid}
use tiny_kv_distributed_stor.Storage.KvStore.Contents.{contents}
use tiny_kv_distributed_stor.Storage.ExpiryManager.{TimePoint}
use tiny_kv_distributed_stor.Protocol.Command.{CommandType}
use tiny_kv_distributed_stor.Protocol.Parser.{
  command_type_from_name, parse, parsed, max_line_length,
}
use tiny_kv_distributed_stor.Protocol.Parser.Tokens.{NoSpace, IsToken, join, parse-join}
use tiny_kv_distributed_stor.Persistence.Files.{snapshot_line, save_entries, save_snapshot}
use tiny_kv_distributed_stor.Executor.{Executor}
use tiny_kv_distributed_stor.Executor.Effect.{Values, update}
use tiny_kv_distributed_stor.Recovery.{replay_lines, replay_all, get_lines}
use tiny_kv_distributed_stor.Recovery.Lines.{IsLine, unlines, get_lines-unlines}
use tiny_kv_distributed_stor.Recovery.Values.{
  Has, parsed_effect, line_effect, lines_effect, replay_all-Has,
}

abbrev pub set_line : Text × Text → Text
set_line (k, v) = codes "SET" ++ 32 ∷ (k ++ 32 ∷ v)

-- An entry that a snapshot line can carry: two words, and a line within the parser's limit.
abbrev pub Storable : Text × Text → Type 0
Storable (k, v) = IsToken k × IsToken v × (length (set_line (k, v)) ≤ max_line_length)

abbrev pub no_values : Values
no_values k = none

set-name : command_type_from_name (codes "SET") ≡ CommandType.set
unfolding command_type_from_name text_eq
set-name = refl

snapshot_line_lem : (k v : Text) → snapshot_line (k, v) ≡ set_line (k, v) ++ 10 ∷ []
unfolding snapshot_line
snapshot_line_lem k v = ap (λ t. codes "SET " ++ t) (sym (append_assoc k (32 ∷ v) (10 ∷ [])))

save_entries-unlines : (l : List (Text × Text)) → save_entries l ≡ unlines (map set_line l)
unfolding save_entries
save_entries-unlines [] = refl
save_entries-unlines ((k, v) ∷ l) =
    ap (λ t. t ++ save_entries l) (snapshot_line_lem k v)
    ∙ ap (λ t. (set_line (k, v) ++ 10 ∷ []) ++ t) (save_entries-unlines l)

word-IsLine : (w : Text) → NoSpace w → IsLine w
word-IsLine [] h = tt
word-IsLine (c ∷ w) h = (ground (arith, h.0), word-IsLine w h.1)

IsToken-NoSpace : (w : Text) → IsToken w → NoSpace w
IsToken-NoSpace [] h = tt
IsToken-NoSpace (c ∷ w) h = h

set_line-IsLine : (k v : Text) → IsToken k → IsToken v → IsLine (set_line (k, v))
set_line-IsLine k v hk hv =
    let rest : IsLine (k ++ 32 ∷ v) =
      All-append _ k (32 ∷ v) (word-IsLine k (IsToken-NoSpace k hk))
        (refl, word-IsLine v (IsToken-NoSpace v hv)) in
    (refl, (refl, (refl, (refl, rest))))

set_lines-AreLines : (l : List (Text × Text)) → All Storable l → All IsLine (map set_line l)
set_lines-AreLines [] h = tt
set_lines-AreLines ((k, v) ∷ l) h = (set_line-IsLine k v h.0.0 h.0.1, set_lines-AreLines l h.1)

parse-set_line :
    (k v : Text)
    → Storable (k, v)
    → parse (set_line (k, v))
      ≡ parsed (record { type = CommandType.set; name = codes "SET"; args = k ∷ v ∷ [] })
parse-set_line k v h =
    let name : IsToken (codes "SET") = (refl, (refl, (refl, tt))) in
    let joined : join (codes "SET" ∷ k ∷ v ∷ []) ≡ set_line (k, v) = unfold join in refl in
    ap parse (sym joined)
    ∙ (parse-join (codes "SET") (k ∷ v ∷ []) (name, (h.0, (h.1, tt))) (rw joined h.2)
        ∙ ap
            (λ (t : CommandType).
              parsed (record { type = t; name = codes "SET"; args = k ∷ v ∷ [] }))
            set-name)

set_line_effect :
    (k v : Text) (m : Values)
    → Storable (k, v)
    → line_effect (set_line (k, v)) m ≡ update k (some v) m
unfolding line_effect
set_line_effect k v m h = ap (λ r. parsed_effect r m) (parse-set_line k v h)

-- The value of a key after the lines of a snapshot: the one that they set, or the one before.
abbrev pub or_before : Option Text → Option Text → Option Text
or_before none before = before
or_before (some v) before = some v

set_lines_effect :
    (l : List (Text × Text)) (m : Values) (k : Text)
    → All Storable l
    → IsMap l
    → lines_effect (map set_line l) m k ≡ or_before (find k l) (m k)
unfolding lines_effect find
set_lines_effect [] m k h d = refl
set_lines_effect ((j, v) ∷ l) m k h d =
    set_lines_effect l (line_effect (set_line (j, v)) m) k h.1 d.1
    ∙ (ap (λ (f : Values). or_before (find k l) (f k)) (set_line_effect j v m h.0)
        ∙ ground (arith, d.0, text_eq_iff j k))

-- The lines of a snapshot, as a reader finds them.
pub get_lines-save_snapshot :
    (s : KvStore)
    → All Storable (entries s)
    → get_lines (save_snapshot s) ≡ map set_line (entries s)
unfolding save_snapshot
get_lines-save_snapshot s storable =
    ap get_lines (save_entries-unlines (entries s))
    ∙ get_lines-unlines (map set_line (entries s)) (set_lines-AreLines (entries s) storable)

-- What the lines of a snapshot do to values: they overwrite, and remove nothing.
pub snapshot_effect :
    (s : KvStore) (m : Values) (k : Text)
    → StoreIsValid s
    → All Storable (entries s)
    → lines_effect (map set_line (entries s)) m k ≡ or_before (contents s k) (m k)
snapshot_effect s m k v storable = set_lines_effect (entries s) m k storable (distinct s v)
  where
    distinct : (s : KvStore) → StoreIsValid s → IsMap (entries s)
    distinct s v = unfold entries in entries_of-IsMap s.lru v.links.distinct

pub snapshot_effect_empty :
    (s : KvStore)
    → StoreIsValid s
    → All Storable (entries s)
    → lines_effect (map set_line (entries s)) no_values ≡ contents s
snapshot_effect_empty s v storable =
    fun_ext λ k. snapshot_effect s no_values k v storable ∙ or_none (contents s k)
  where
    or_none : (o : Option Text) → or_before o none ≡ o
    or_none none = refl
    or_none (some x) = refl

-- Loading the snapshot of a valid store into a valid, empty server without a capacity limit gives a
-- valid server with the store's values, if the key and the value of each entry are single words and
-- its snapshot line is within the parser's limit.
pub snapshot_restores :
    (clock : ℕ → TimePoint) (s : KvStore) (ex : Executor)
    → StoreIsValid s
    → All Storable (entries s)
    → Has no_values ex
    → Has (contents s) (replay_lines clock (save_snapshot s) ex)
unfolding replay_lines
snapshot_restores clock s ex v storable fresh =
    let lines = map set_line (entries s) in
    subst (λ ls. Has (contents s) (replay_all clock 0 ls ex))
      (sym (get_lines-save_snapshot s storable))
      (subst (λ m. Has m (replay_all clock 0 lines ex)) (snapshot_effect_empty s v storable)
        (replay_all-Has clock 0 lines no_values ex fresh))
