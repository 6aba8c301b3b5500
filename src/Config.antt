-- ===== src/Config.antt =====
-- `Config` (src/config.cpp, include/tinykv/config.hpp). A file that cannot be opened is `none`.
pub mod Trim
pub mod Entry
pub mod Last
use tiny_kv_distributed_stor.Prelude.{
  ℕ, ◌≡◌, refl, Bool, true, false, ◌||◌, Option, none, some, List, [], ◌∷◌, map, ◌==◌, leb, ◌&&◌,
  ◌+◌, if◌then◌else◌,
}
use tiny_kv_distributed_stor.Prelude.Text.{Text, codes, text_eq}
use tiny_kv_distributed_stor.Prelude.Dict.{Dict, find, insert}
use tiny_kv_distributed_stor.Prelude.Int.{ℤ, pos, negsuc}
use tiny_kv_distributed_stor.Prelude.Decimal.{stoi}
use tiny_kv_distributed_stor.Recovery.{get_lines}
use tiny_kv_distributed_stor.Net.LineProtocol.{before}

pub record Config : Type 0 where
  pub values : Dict Text

abbrev pub empty_config : Config
empty_config = record { values = [] }

-- One of " \t\r\n".
abbrev pub is_blank : ℕ → Bool
is_blank c = (c == 32) || (c == 9) || (c == 13) || (c == 10)

-- From `find_first_not_of` on.
unfoldable pub drop_front : Text → Text
drop_front [] = []
drop_front (c ∷ s) = if is_blank c then drop_front s else c ∷ s

abbrev pub keep : ℕ → Text → Text
keep c [] = if is_blank c then [] else c ∷ []
keep c (d ∷ s) = c ∷ d ∷ s

-- Up to `find_last_not_of`.
unfoldable pub drop_back : Text → Text
drop_back [] = []
drop_back (c ∷ s) = keep c (drop_back s)

unfoldable pub trim : Text → Text
unfolding drop_front drop_back
trim s = drop_back (drop_front s)

-- What stands before the first '=' and after it.
unfoldable pub split_entry : Text → Option (Text × Text)
split_entry [] = none
split_entry (c ∷ s) = elim (c == 61) [ true ↦ some ([], s) | false ↦ before c (split_entry s) ]

-- `Config::set`
unfoldable pub set_value : Text → Text → Config → Config
unfolding insert
set_value key value c = record { values = insert key value c.values }

unfoldable pub load_value : Text → Text → Config → Config
unfolding set_value
load_value [] value c = c
load_value (a ∷ key) value c = set_value (a ∷ key) value c

unfoldable pub load_entry : Option (Text × Text) → Config → Config
unfolding load_value trim
load_entry none c = c
load_entry (some (key, value)) c = load_value (trim key) (trim value) c

-- A line without its white space: empty, a comment from '#', or an entry.
unfoldable pub load_trimmed : Text → Config → Config
unfolding load_entry split_entry
load_trimmed [] c = c
load_trimmed (a ∷ s) c = if a == 35 then c else load_entry (split_entry (a ∷ s)) c

unfoldable pub load_line : Text → Config → Config
unfolding load_trimmed trim
load_line line c = load_trimmed (trim line) c

unfoldable pub load_lines : List Text → Config → Config
unfolding load_line
load_lines [] c = c
load_lines (line ∷ lines) c = load_lines lines (load_line line c)

unfoldable pub load_from_file : Option Text → Config → Bool × Config
unfolding get_lines load_lines
load_from_file none c = (false, c)
load_from_file (some file) c = (true, load_lines (get_lines file) c)

abbrev pub or_default {ℓ} : {A : Type ℓ} → A → Option A → A
or_default def none = def
or_default def (some a) = a

unfoldable pub get_string : Text → Text → Config → Text
unfolding find
get_string key def c = or_default def (find key c.values)

-- `std::stoi`, and the default where it throws.
abbrev pub int_of : ℤ → Option Text → ℤ
int_of def none = def
int_of def (some v) = or_default def (stoi v)

unfoldable pub get_int : Text → ℤ → Config → ℤ
unfolding find
get_int key def c = int_of def (find key c.values)

-- `std::tolower` in the "C" locale.
abbrev pub lower_char : ℕ → ℕ
lower_char c = if leb 65 c && leb c 90 then c + 32 else c

unfoldable pub bool_of : Bool → Text → Bool
bool_of def v =
    if text_eq v (codes "true") || text_eq v (codes "1") || text_eq v (codes "yes")
    then true
    else if text_eq v (codes "false") || text_eq v (codes "0") || text_eq v (codes "no")
    then false
    else def

abbrev pub found_bool : Bool → Option Text → Bool
found_bool def none = def
found_bool def (some v) = bool_of def (map lower_char v)

unfoldable pub get_bool : Text → Bool → Config → Bool
unfolding find bool_of
get_bool key def c = found_bool def (find key c.values)

config_tests :
    let c =
      (load_from_file
        (some (codes " # port = 1\n port=7000 \nappendonly = No\n = x\n"))
        empty_config).1 in
    (get_int (codes "port") (pos 1) c ≡ pos 7000) × (get_bool (codes "appendonly") true c ≡ false)
unfolding load_from_file get_int get_bool stoi text_eq
config_tests = (refl, refl)
