-- ===== src/Config/Entry.antt =====
-- The lines of src/config.cpp that hold `key = value`.
use mathlib.Core.List.{append_assoc}
use tiny_kv_distributed_stor.Prelude.{
  ℕ, ◌≡◌, refl, sym, ap, ◌∙◌, false, some, [], ◌∷◌, ◌++◌, All, All-append, arith, ◌==◌,
}
use tiny_kv_distributed_stor.Prelude.Text.{Text}
use tiny_kv_distributed_stor.Net.LineProtocol.{before}
use tiny_kv_distributed_stor.Config.{
  Config, drop_back, trim, split_entry, set_value, load_value, load_entry, load_trimmed, load_line,
}
use tiny_kv_distributed_stor.Config.Trim.{
  IsBlank, HasDarkEnds, drop_front-blank, drop_front-dark, drop_back-append, trim-padded,
  trim-drop_back,
}

-- What can stand as a key: no '=' and, at its ends, no white space; not empty, and no comment.
abbrev pub IsKey : Text → Type 0
IsKey [] = ⊥
IsKey (c ∷ s) = ((c == 35) ≡ false) × HasDarkEnds (c ∷ s) × All (λ a. (a == 61) ≡ false) (c ∷ s)

-- `key = value`, with white space before and after the key and the value.
abbrev pub entry_line : Text → Text → Text → Text → Text → Text → Text
entry_line a key b d value e = a ++ (key ++ (b ++ (61 ∷ (d ++ (value ++ e)))))

split_entry-entry :
    (key r : Text) → All (λ a. (a == 61) ≡ false) key → split_entry (key ++ 61 ∷ r) ≡ some (key, r)
unfolding split_entry
split_entry-entry [] r h = refl
split_entry-entry (c ∷ key) r h =
    rw (h.0, split_entry) (ap (before c) (split_entry-entry key r h.1))

blank-no_eq : (b : Text) → IsBlank b → All (λ a. (a == 61) ≡ false) b
blank-no_eq [] h = tt
blank-no_eq (c ∷ b) h = (ground (arith, h.0), blank-no_eq b h.1)

load_trimmed-entry :
    (c : ℕ) (key r : Text) (config : Config)
    → (c == 35) ≡ false
    → All (λ a. (a == 61) ≡ false) (c ∷ key)
    → load_trimmed ((c ∷ key) ++ 61 ∷ r) config ≡ load_entry (some (c ∷ key, r)) config
unfolding load_trimmed
load_trimmed-entry c key r config h n =
    rw h (ap (λ o. load_entry o config) (split_entry-entry (c ∷ key) r n))

load_value-key :
    (key value : Text) (config : Config)
    → IsKey key
    → load_value key value config ≡ set_value key value config
unfolding load_value
load_value-key [] value config h = absurd h
load_value-key (c ∷ key) value config h = refl

trim-entry_line :
    (a key b d value e : Text)
    → IsBlank a
    → IsKey key
    → trim (entry_line a key b d value e) ≡ (key ++ b) ++ 61 ∷ drop_back (d ++ (value ++ e))
unfolding trim
trim-entry_line a [] b d value e ha hk = absurd hk
trim-entry_line a (c ∷ key) b d value e ha hk =
    let r = d ++ (value ++ e) in
    ap drop_back (
      drop_front-blank a ((c ∷ key) ++ (b ++ 61 ∷ r)) ha
      ∙ drop_front-dark c (key ++ (b ++ 61 ∷ r)) hk.1.0)
    ∙ (ap drop_back (sym (append_assoc (c ∷ key) b (61 ∷ r)))
        ∙ drop_back-append ((c ∷ key) ++ b) 61 r refl)

load_entry-padded :
    (key b d value e : Text) (config : Config)
    → IsKey key
    → IsBlank b
    → IsBlank d
    → HasDarkEnds value
    → IsBlank e
    → load_entry (some (key ++ b, drop_back (d ++ (value ++ e)))) config
      ≡ set_value key value config
unfolding load_entry
load_entry-padded [] b d value e config hk hb hd hv he = absurd hk
load_entry-padded (c ∷ key) b d value e config hk hb hd hv he =
    ap (λ k. load_value k (trim (drop_back (d ++ (value ++ e)))) config)
      (trim-padded [] (c ∷ key) b tt hk.1 hb)
    ∙ (ap (λ v. load_value (c ∷ key) v config)
          (trim-drop_back (d ++ (value ++ e)) ∙ trim-padded d value e hd hv he)
        ∙ load_value-key (c ∷ key) value config hk)

-- A line with a key and a value sets the key to the value, whatever white space stands around the two.
-- The key has no '=' and does not begin with '#'; the value may have both.
pub load_line-entry :
    (a key b d value e : Text) (config : Config)
    → IsBlank a
    → IsKey key
    → IsBlank b
    → IsBlank d
    → HasDarkEnds value
    → IsBlank e
    → load_line (entry_line a key b d value e) config ≡ set_value key value config
unfolding load_line
load_line-entry a [] b d value e config ha hk hb hd hv he = absurd hk
load_line-entry a (c ∷ key) b d value e config ha hk hb hd hv he =
    ap (λ t. load_trimmed t config) (trim-entry_line a (c ∷ key) b d value e ha hk)
    ∙ (load_trimmed-entry c (key ++ b) (drop_back (d ++ (value ++ e))) config hk.0
          (hk.2.0, All-append _ key b hk.2.1 (blank-no_eq b hb))
        ∙ load_entry-padded (c ∷ key) b d value e config hk hb hd hv he)
