-- ===== src/Config/Last.antt =====
-- Configuration files of src/config.cpp with a number in their last line.
use tiny_kv_distributed_stor.Prelude.{
  ℕ, ◌≡◌, refl, ap, ◌∙◌, true, false, some, List, [], ◌∷◌, ◌++◌, All, All-append, All-map, arith,
  ◌==◌,
}
use tiny_kv_distributed_stor.Prelude.Text.{Text, text_eq_refl}
use tiny_kv_distributed_stor.Prelude.Dict.{find-insert}
use tiny_kv_distributed_stor.Prelude.Int.{ℤ}
use tiny_kv_distributed_stor.Prelude.Decimal.{to_string, stoi, Fits32}
use tiny_kv_distributed_stor.Prelude.Decimal.RoundTrip.{
  stoi-to_string, is_numeral_char, to_string-All,
}
use tiny_kv_distributed_stor.Recovery.Lines.{IsLine, unlines, get_lines-unlines}
use tiny_kv_distributed_stor.Config.{
  Config, is_blank, set_value, load_line, load_lines, load_from_file, get_int,
}
use tiny_kv_distributed_stor.Config.Trim.{HasDarkEnds, last}
use tiny_kv_distributed_stor.Config.Entry.{IsKey, entry_line, load_line-entry}

-- `key = value`
abbrev pub plain_line : Text → Text → Text
plain_line key value = entry_line [] key (32 ∷ []) (32 ∷ []) value []

last-dark : (c : ℕ) (s : Text) → All (λ a. is_blank a ≡ false) (c ∷ s) → is_blank (last c s) ≡ false
last-dark c [] h = h.0
last-dark c (d ∷ s) h = last-dark d s h.1

to_string-HasDarkEnds : (s : Text) → All (λ a. is_numeral_char a ≡ true) s → HasDarkEnds s
to_string-HasDarkEnds [] h = tt
to_string-HasDarkEnds (c ∷ s) h =
    let dark =
      All-map (λ a. is_numeral_char a ≡ true) (λ a. is_blank a ≡ false) (c ∷ s)
        (λ a e. ground arith) h in
    (dark.0, last-dark c s dark)

plain_line-IsLine :
    (key value : Text)
    → IsLine key
    → All (λ a. is_numeral_char a ≡ true) value
    → IsLine (plain_line key value)
plain_line-IsLine key value hk hv =
    let clean = All-map _ (λ a. (a == 10) ≡ false) value (λ a e. ground (arith, e)) hv in
    All-append _ key _ hk (refl, (refl, (refl, All-append _ value [] clean tt)))

load_lines-append :
    (lines : List Text) (line : Text) (config : Config)
    → load_lines (lines ++ line ∷ []) config ≡ load_line line (load_lines lines config)
unfolding load_lines
load_lines-append [] line config = refl
load_lines-append (l ∷ lines) line config = load_lines-append lines line (load_line l config)

load_from_file-unlines :
    (lines : List Text) (line : Text) (config : Config)
    → All IsLine lines
    → IsLine line
    → (load_from_file (some (unlines (lines ++ line ∷ []))) config).1
      ≡ load_line line (load_lines lines config)
unfolding load_from_file
load_from_file-unlines lines line config h hl =
    ap (λ ls. load_lines ls config)
      (get_lines-unlines (lines ++ line ∷ []) (All-append _ lines (line ∷ []) h (hl, tt)))
    ∙ load_lines-append lines line config

get_int-set_value :
    (key v : Text) (def z : ℤ) (config : Config)
    → stoi v ≡ some z
    → get_int key def (set_value key v config) ≡ z
unfolding get_int set_value
get_int-set_value key v def z config e =
    rw (find-insert key key v config.values, text_eq_refl key, e) refl

-- If the last line of a configuration file is `key = n`, with n the numeral of a 32-bit number, then
-- whatever lines stand before it, getInt returns n for the key once the file is loaded.
pub get_int-last :
    (lines : List Text) (key : Text) (def z : ℤ) (config : Config)
    → All IsLine lines
    → IsKey key
    → IsLine key
    → Fits32 z
    → get_int key def
        (load_from_file (some (unlines (lines ++ plain_line key (to_string z) ∷ []))) config).1
      ≡ z
get_int-last lines key def z config hl hk line fits =
    let v = to_string z in
    let numeral = to_string-All z in
    ap (get_int key def) (
      load_from_file-unlines lines (plain_line key v) config hl
        (plain_line-IsLine key v line numeral)
      ∙ load_line-entry [] key (32 ∷ []) (32 ∷ []) v [] (load_lines lines config) tt hk (refl, tt)
          (refl, tt) (to_string-HasDarkEnds v numeral) tt)
    ∙ get_int-set_value key v def z (load_lines lines config) (stoi-to_string z fits)
