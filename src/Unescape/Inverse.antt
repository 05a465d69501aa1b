-- ===== src/Unescape/Inverse.antt =====
-- src/unescape.rs against src/esc.rs: unescaping undoes escaping.
use blackfriday_2_rust.Base.{
  ℕ, zero, ◌≡◌, ◌⊎◌, inl, inr, refl, sym, ap, ◌∙◌, true, false, Option-cases, none, some, [], ◌∷◌,
  ◌++◌, ◌==◌, arith, some-eq-some, Bytes, codes, is_at, drop,
}
use blackfriday_2_rust.HtmlEntities.{entity}
use blackfriday_2_rust.Esc.{html_escape_seq, escape_all_html}
use blackfriday_2_rust.Esc.Refine.{kept, escape_byte, escaped, escape_entities-escaped}
use blackfriday_2_rust.Unescape.{unescape_named, unescape_entity, unescape_string}
use blackfriday_2_rust.Unescape.Ends.{
  unescaped, unescaped_plain, unescaped_amp, unescape_string-unescaped,
}

module _ (rest : Bytes) where
  amp_named : unescape_named (codes "&amp;" ++ rest) ≡ (b'&' ∷ [], 5)
  unfolding unescape_named entity
  amp_named = refl

  lt_named : unescape_named (codes "&lt;" ++ rest) ≡ (b'<' ∷ [], 4)
  unfolding unescape_named entity
  lt_named = refl

  gt_named : unescape_named (codes "&gt;" ++ rest) ≡ (b'>' ∷ [], 4)
  unfolding unescape_named entity
  gt_named = refl

  quot_named : unescape_named (codes "&quot;" ++ rest) ≡ (b'"' ∷ [], 6)
  unfolding unescape_named entity
  quot_named = refl

  named_entity :
      (a b : ℕ)
      → (a == b'#') ≡ false
      → unescape_entity (b'&' ∷ a ∷ b ∷ rest) ≡ unescape_named (b'&' ∷ a ∷ b ∷ rest)
  unfolding unescape_entity
  named_entity a b h = ground (arith)

-- What the references stand for is written, and the text goes on behind them.
after_entity :
    (s rest w : Bytes) (n : ℕ)
    → is_at s 0 b'&' ≡ true
    → unescape_entity s ≡ (w, n)
    → drop n s ≡ rest
    → unescaped zero s ≡ w ++ unescaped zero rest
after_entity [] rest w n h e d = cc
after_entity (c ∷ s) rest w n h e d =
    unescaped_amp c s h
    ∙ ap (λ (r : Bytes × ℕ). r.0 ++ unescaped zero (drop r.1 (c ∷ s))) e
    ∙ ap (λ (x : Bytes). w ++ unescaped zero x) d

escape_seq-none : (c : ℕ) → html_escape_seq c ≡ none → (c == b'&') ≡ false
unfolding html_escape_seq
escape_seq-none c e = ground arith

-- The four sequences.
abbrev IsSequence : ℕ → Bytes → Type 0
IsSequence c e =
    ((c ≡ b'&') × (e ≡ codes "&amp;"))
    ⊎ ((c ≡ b'<') × (e ≡ codes "&lt;"))
    ⊎ ((c ≡ b'>') × (e ≡ codes "&gt;"))
    ⊎ ((c ≡ b'"') × (e ≡ codes "&quot;"))

html_escape_seq-IsSequence : (c : ℕ) (e : Bytes) → html_escape_seq c ≡ some e → IsSequence c e
unfolding html_escape_seq
html_escape_seq-IsSequence c e h = ground arith

unescaped-sequence :
    (c : ℕ) (e rest : Bytes) → IsSequence c e → unescaped zero (e ++ rest) ≡ c ∷ unescaped zero rest
unescaped-sequence c e rest (inl (p, q)) =
    rw (p, q)
      (after_entity (codes "&amp;" ++ rest) rest (b'&' ∷ []) 5 refl
        (named_entity (codes "p;" ++ rest) b'a' b'm' refl ∙ amp_named rest) refl)
unescaped-sequence c e rest (inr (inl (p, q))) =
    rw (p, q)
      (after_entity (codes "&lt;" ++ rest) rest (b'<' ∷ []) 4 refl
        (named_entity (codes ";" ++ rest) b'l' b't' refl ∙ lt_named rest) refl)
unescaped-sequence c e rest (inr (inr (inl (p, q)))) =
    rw (p, q)
      (after_entity (codes "&gt;" ++ rest) rest (b'>' ∷ []) 4 refl
        (named_entity (codes ";" ++ rest) b'g' b't' refl ∙ gt_named rest) refl)
unescaped-sequence c e rest (inr (inr (inr (p, q)))) =
    rw (p, q)
      (after_entity (codes "&quot;" ++ rest) rest (b'"' ∷ []) 6 refl
        (named_entity (codes "ot;" ++ rest) b'q' b'u' refl ∙ quot_named rest) refl)

escape_byte-plain : (c : ℕ) → html_escape_seq c ≡ none → escape_byte c ≡ c ∷ []
unfolding escape_byte
escape_byte-plain c e = rw (e, escape_byte) refl

escape_byte-sequence : (c : ℕ) (seq : Bytes) → html_escape_seq c ≡ some seq → escape_byte c ≡ seq
unfolding escape_byte
escape_byte-sequence c seq e = rw (e, escape_byte) refl

unescaped-escape_byte :
    (c : ℕ) (rest : Bytes) → unescaped zero (escape_byte c ++ rest) ≡ c ∷ unescaped zero rest
unescaped-escape_byte c rest = elim (Option-cases (html_escape_seq c)) [
  | inl e ↦ rw (escape_byte-plain c e) (unescaped_plain c rest (escape_seq-none c e))
  | inr (seq, e) ↦
      rw (escape_byte-sequence c seq e)
        (unescaped-sequence c seq rest (html_escape_seq-IsSequence c seq e))
]

unescaped-escaped : (s : Bytes) → unescaped zero (escaped true zero s) ≡ s
unfolding escaped kept unescaped
unescaped-escaped [] = refl
unescaped-escaped (c ∷ s) =
    unescaped-escape_byte c (escaped true zero s) ∙ ap (◌∷◌ c) (unescaped-escaped s)

-- Unescaping what `escape_all_html` writes gives the text back.
pub unescape_string-escape_all_html :
    (s t : Bytes) → escape_all_html [] s ≡ some t → unescape_string t ≡ some s
unfolding escape_all_html
unescape_string-escape_all_html s t e =
    let same : t ≡ escaped true zero s = some-eq-some (sym e ∙ escape_entities-escaped [] s true) in
    unescape_string-unescaped t
    ∙ ap (λ (x : Bytes). some (unescaped zero x)) same
    ∙ ap some (unescaped-escaped s)
