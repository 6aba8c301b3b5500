-- ===== src/Executor/Words.antt =====
-- What the store of src/command_executor.cpp holds, and its replies, as bytes: words and lines.
pub mod Replies
pub mod Dispatch
use tiny_kv_distributed_stor.Prelude.{
  ℕ, zero, suc, ◌≢◌, not, ◌≡◌, refl, sym, ap, Bool, true, false, ◌&&◌, ◌||◌, Option, none, some,
  List, [], ◌∷◌, ◌++◌, All, All-append, All-map, arith, ◌==◌, take, if_cases, if◌then◌else◌,
}
use Prim.Native.String.{String}
use mathlib.Core.Path.{subst}
use tiny_kv_distributed_stor.Prelude.Text.{Text, codes, text_eq}
use tiny_kv_distributed_stor.Prelude.Dict.{find, erase}
use tiny_kv_distributed_stor.Prelude.Int.{ℤ, pos, negsuc}
use tiny_kv_distributed_stor.Prelude.Decimal.{to_string, is_space}
use tiny_kv_distributed_stor.Prelude.Decimal.RoundTrip.{
  is_numeral_char, to_string-All, to_string-ne,
}
use tiny_kv_distributed_stor.Storage.KvStore.Valid.{trim}
use tiny_kv_distributed_stor.Protocol.Parser.Tokens.{NoSpace, IsToken}
use tiny_kv_distributed_stor.Protocol.Reply
use tiny_kv_distributed_stor.Recovery.Lines.{IsLine}

-- Each key and each value is a word.
abbrev pub AreWords : List (Text × Text) → Type 0
AreWords = All (λ e. IsToken e.0 × IsToken e.1)

abbrev IsWordOrNone : Option Text → Type 0
IsWordOrNone none = Unit
IsWordOrNone (some v) = IsToken v

pub AreWords-erase : (k : Text) (l : List (Text × Text)) → AreWords l → AreWords (erase k l)
unfolding erase
AreWords-erase k [] h = tt
AreWords-erase k ((j, v) ∷ l) h =
    if_cases AreWords (text_eq j k) (λ _. AreWords-erase k l h.1)
      (λ _. (h.0, AreWords-erase k l h.1))

AreWords-take : (n : ℕ) (l : List (Text × Text)) → AreWords l → AreWords (take n l)
AreWords-take zero l h = tt
AreWords-take (suc n) [] h = tt
AreWords-take (suc n) (e ∷ l) h = (h.0, AreWords-take n l h.1)

pub find-AreWords : (k : Text) (l : List (Text × Text)) → AreWords l → IsWordOrNone (find k l)
unfolding find
find-AreWords k [] h = tt
find-AreWords k ((j, v) ∷ l) h =
    if_cases IsWordOrNone (text_eq j k) (λ _. h.0.1) (λ _. find-AreWords k l h.1)

pub trim-AreWords : (cap : ℕ) (l : List (Text × Text)) → AreWords l → AreWords (trim cap l)
trim-AreWords cap l h = if_cases AreWords (cap == 0) (λ _. h) (λ _. AreWords-take cap l h)

pub NoSpace-IsLine : (w : Text) → NoSpace w → IsLine w
NoSpace-IsLine w h =
    All-map (λ c. is_space c ≡ false) (λ c. (c == 10) ≡ false) w (λ c e. ground (arith, e)) h

pub IsToken-IsLine : (w : Text) → IsToken w → IsLine w
IsToken-IsLine [] h = tt
IsToken-IsLine (c ∷ w) h = NoSpace-IsLine (c ∷ w) h

NoSpace-IsToken : (w : Text) → w ≢ [] → NoSpace w → IsToken w
NoSpace-IsToken [] ne h = absurd (ne refl)
NoSpace-IsToken (c ∷ w) ne h = h

pub to_string-IsToken : (z : ℤ) → IsToken (to_string z)
to_string-IsToken z = NoSpace-IsToken (to_string z) (to_string-ne z) (
    All-map (λ c. is_numeral_char c ≡ true) (λ c. is_space c ≡ false) (to_string z)
      (λ c e. ground (arith, e)) (to_string-All z))

-- A test for literals.
abbrev pub has_newline : Text → Bool
has_newline [] = false
has_newline (c ∷ s) = (c == 10) || has_newline s

has_newline-IsLine : (s : Text) → has_newline s ≡ false → IsLine s
has_newline-IsLine [] h = tt
has_newline-IsLine (c ∷ s) h = (ground (arith, h), has_newline-IsLine s (ground (arith, h)))

pub literal-IsLine : (s : String) → has_newline (codes s) ≡ false → IsLine (codes s)
literal-IsLine s h = has_newline-IsLine (codes s) h

pub error-IsLine : (message : Text) → IsLine message → IsLine (Reply.error message)
unfolding Reply.error
error-IsLine message h = All-append _ (codes "-ERR ") message (literal-IsLine "-ERR " refl) h

pub integer-IsLine : (z : ℤ) → IsLine (Reply.integer z)
unfolding Reply.integer
integer-IsLine z = (refl, IsToken-IsLine (to_string z) (to_string-IsToken z))

pub bulk-IsLine : (v : Text) → IsToken v → IsLine (Reply.bulk v)
unfolding Reply.bulk
bulk-IsLine v h = (refl, IsToken-IsLine v h)

pub ok-IsLine : IsLine Reply.ok
unfolding Reply.ok
ok-IsLine = literal-IsLine "+OK" refl

-- An error that quotes a word.
pub quoting-IsLine :
    (before name : Text)
    → IsLine before
    → IsToken name
    → IsLine (Reply.error (before ++ (name ++ codes "'")))
quoting-IsLine before name hb h = error-IsLine (before ++ (name ++ codes "'")) (
    All-append _ before (name ++ codes "'") hb
      (All-append _ name (codes "'") (IsToken-IsLine name h) (literal-IsLine "'" refl)))
