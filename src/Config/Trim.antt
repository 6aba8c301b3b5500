-- ===== src/Config/Trim.antt =====
-- `trim` of src/config.cpp on texts with white space around them.
use mathlib.Core.List.{append-nil}
use tiny_kv_distributed_stor.Prelude.{
  ℕ, ◌≡◌, refl, sym, ap, ◌∙◌, true, false, [], ◌∷◌, ◌++◌, All, inl, inr, Bool-cases,
}
use tiny_kv_distributed_stor.Prelude.Text.{Text}
use tiny_kv_distributed_stor.Config.{is_blank, drop_front, keep, drop_back, trim}

abbrev pub IsBlank : Text → Type 0
IsBlank = All (λ c. is_blank c ≡ true)

abbrev pub last : ℕ → Text → ℕ
last c [] = c
last c (d ∷ s) = last d s

-- No white space at either end.
abbrev pub HasDarkEnds : Text → Type 0
HasDarkEnds [] = Unit
HasDarkEnds (c ∷ s) = (is_blank c ≡ false) × (is_blank (last c s) ≡ false)

pub drop_front-blank : (a s : Text) → IsBlank a → drop_front (a ++ s) ≡ drop_front s
unfolding drop_front
drop_front-blank [] s h = refl
drop_front-blank (c ∷ a) s h = rw h.0 (drop_front-blank a s h.1)

pub drop_front-dark : (c : ℕ) (s : Text) → is_blank c ≡ false → drop_front (c ∷ s) ≡ c ∷ s
unfolding drop_front
drop_front-dark c s h = rw h

drop_back-blank : (e : Text) → IsBlank e → drop_back e ≡ []
unfolding drop_back
drop_back-blank [] h = refl
drop_back-blank (c ∷ e) h = rw (drop_back-blank e h.1) (rw h.0)

drop_back-dark :
    (c : ℕ) (s e : Text)
    → is_blank (last c s) ≡ false
    → IsBlank e
    → drop_back ((c ∷ s) ++ e) ≡ c ∷ s
unfolding drop_back
drop_back-dark c [] e h b = rw (drop_back-blank e b) (rw h)
drop_back-dark c (d ∷ s) e h b = ap (keep c) (drop_back-dark d s e h b)

keep_all : (c : ℕ) (s : Text) → is_blank c ≡ false → keep c s ≡ c ∷ s
keep_all c [] h = rw h
keep_all c (d ∷ s) h = refl

-- Nothing is dropped before a character that is kept.
pub drop_back-append :
    (x : Text) (c : ℕ) (s : Text)
    → is_blank c ≡ false
    → drop_back (x ++ c ∷ s) ≡ x ++ c ∷ drop_back s
unfolding drop_back
drop_back-append [] c s h = keep_all c (drop_back s) h
drop_back-append (a ∷ []) c s h = ap (keep a) (drop_back-append [] c s h)
drop_back-append (a ∷ b ∷ x) c s h = ap (keep a) (drop_back-append (b ∷ x) c s h)

pub trim-padded : (d v e : Text) → IsBlank d → HasDarkEnds v → IsBlank e → trim (d ++ (v ++ e)) ≡ v
unfolding trim
trim-padded d [] e hd hv he =
    ap drop_back
      (drop_front-blank d e hd ∙ (ap drop_front (sym (append-nil e)) ∙ drop_front-blank e [] he))
    ∙ unfold drop_front drop_back in refl
trim-padded d (c ∷ v) e hd hv he =
    ap drop_back (drop_front-blank d ((c ∷ v) ++ e) hd ∙ drop_front-dark c (v ++ e) hv.0)
    ∙ drop_back-dark c v e hv.1 he

keep_idem : (c : ℕ) (s : Text) → drop_back s ≡ s → drop_back (keep c s) ≡ keep c s
unfolding drop_back
keep_idem c [] h = elim (Bool-cases (is_blank c)) [ inl e ↦ rw e refl | inr e ↦ rw e (rw e refl) ]
keep_idem c (d ∷ s) h = ap (keep c) h

drop_back_idem : (s : Text) → drop_back (drop_back s) ≡ drop_back s
unfolding drop_back
drop_back_idem [] = refl
drop_back_idem (c ∷ s) = keep_idem c (drop_back s) (drop_back_idem s)

-- The ends of a text can be dropped in either order.
drop_front-keep : (c : ℕ) (s : Text) → is_blank c ≡ true → drop_front (keep c s) ≡ drop_front s
unfolding drop_front
drop_front-keep c [] h = rw h refl
drop_front-keep c (d ∷ s) h = rw h refl

keep-dark : (c : ℕ) (s : Text) → is_blank c ≡ false → drop_front (keep c s) ≡ keep c s
unfolding drop_front
keep-dark c [] h = rw h (rw h refl)
keep-dark c (d ∷ s) h = rw h refl

drop_front-drop_back : (s : Text) → drop_front (drop_back s) ≡ drop_back (drop_front s)
unfolding drop_back
drop_front-drop_back [] = unfold drop_front in refl
drop_front-drop_back (c ∷ s) = elim (Bool-cases (is_blank c)) [
  | inl e ↦
      drop_front-keep c (drop_back s) e
      ∙ (drop_front-drop_back s ∙ ap drop_back (sym (drop_front-blank (c ∷ []) s (e, tt))))
  | inr e ↦ keep-dark c (drop_back s) e ∙ ap drop_back (sym (drop_front-dark c s e))
]

pub trim-drop_back : (s : Text) → trim (drop_back s) ≡ trim s
unfolding trim
trim-drop_back s = ap drop_back (drop_front-drop_back s) ∙ drop_back_idem (drop_front s)
