-- ===== src/Esc/Safe.antt =====
-- src/esc.rs: what the escaped text holds, and what it keeps of its input.
use mathlib.Core.Path.{subst}
use blackfriday_2_rust.Base.{
  ℕ, zero, suc, ◌≡◌, ◌≢◌, refl, sym, ◌∙◌, Bool, true, false, some, inl, inr, [], ◌∷◌, ◌++◌, arith,
  Option-cases, Bytes, some-eq-some, take,
}
use blackfriday_2_rust.Esc.{html_escape_seq, escape_html, escape_all_html}
use blackfriday_2_rust.Esc.Refine.{
  kept, escape_byte, escaped, Plain, kept-Plain, escaped-kept, escape_entities-escaped,
}

-- None of the bytes is `<`, `>` or `"`.
abbrev pub IsSafe : Bytes → Type 0
IsSafe [] = Unit
IsSafe (c ∷ cs) = (c ≢ b'<') × (c ≢ b'>') × (c ≢ b'"') × IsSafe cs

IsSafe-append : (xs ys : Bytes) → IsSafe xs → IsSafe ys → IsSafe (xs ++ ys)
IsSafe-append [] ys p q = q
IsSafe-append (x ∷ xs) ys p q = (p.0, p.1, p.2, IsSafe-append xs ys p.3 q)

IsSafe-take : (n : ℕ) (cs : Bytes) → Plain n cs → IsSafe (take n cs)
unfolding html_escape_seq
IsSafe-take zero cs p = tt
IsSafe-take (suc n) [] p = tt
IsSafe-take (suc n) (c ∷ cs) p = (ground arith, ground arith, ground arith, IsSafe-take n cs p.1)

kept-amp : (all : Bool) (c n : ℕ) (cs : Bytes) → kept all c cs ≡ some n → c ≡ b'&'
unfolding kept
kept-amp all c n cs h = ground arith

IsSafe-amp : (c : ℕ) (cs : Bytes) → c ≡ b'&' → IsSafe cs → IsSafe (c ∷ cs)
IsSafe-amp c cs e h = (omega arith, omega arith, omega arith, h)

escape_byte-IsSafe : (c : ℕ) → IsSafe (escape_byte c)
unfolding escape_byte html_escape_seq
escape_byte-IsSafe c = ground arith

escaped-IsSafe : (all : Bool) (k : ℕ) (s : Bytes) → IsSafe (escaped all k s)
unfolding escaped
escaped-IsSafe all k [] = tt
escaped-IsSafe all (suc k) (c ∷ cs) = escaped-IsSafe all k cs
escaped-IsSafe all zero (c ∷ cs) = elim (Option-cases (kept all c cs)) [
  | inl no_entity ↦
      rw (no_entity, escaped)
        (IsSafe-append (escape_byte c) _ (escape_byte-IsSafe c) (escaped-IsSafe all zero cs))
  | inr (n, entity) ↦ rw (escaped-kept all c cs n entity) (
      IsSafe-append (c ∷ take n cs) (escaped all n cs)
        (IsSafe-amp c (take n cs) (kept-amp all c n cs entity)
          (IsSafe-take n cs (kept-Plain all c n cs entity)))
        (escaped-IsSafe all n cs))
]

-- Whatever the input, neither escaper writes `<`, `>` or `"`.
pub escape-IsSafe :
    (s : Bytes)
    → (t u : Bytes) → escape_html [] s ≡ some t
    → escape_all_html [] s ≡ some u
    → IsSafe t × IsSafe u
unfolding escape_html escape_all_html
escape-IsSafe s t u p q = (
  subst IsSafe (some-eq-some (sym (escape_entities-escaped [] s false) ∙ p))
      (escaped-IsSafe false zero s),
  subst IsSafe (some-eq-some (sym (escape_entities-escaped [] s true) ∙ q))
      (escaped-IsSafe true zero s),
)

escaped-all :
    (c : ℕ) (cs : Bytes) → escaped true zero (c ∷ cs) ≡ escape_byte c ++ escaped true zero cs
unfolding escaped kept
escaped-all c cs = refl

-- The escape sequences and the other bytes are a prefix code.
escape_byte-prefix :
    (a b : ℕ) (x y : Bytes) → escape_byte a ++ x ≡ escape_byte b ++ y → (a ≡ b) × (x ≡ y)
unfolding escape_byte html_escape_seq
escape_byte-prefix a b x y e = ground arith

escape_byte-ne_nil : (a : ℕ) (x : Bytes) → escape_byte a ++ x ≢ []
unfolding escape_byte html_escape_seq
escape_byte-ne_nil a x e = ground arith

escaped-injective : (s t : Bytes) → escaped true zero s ≡ escaped true zero t → s ≡ t
escaped-injective [] [] e = refl
escaped-injective [] (b ∷ t) e = absurd (escape_byte-ne_nil b _ (sym (nil ∙ e ∙ escaped-all b t)))
  where
    nil : [] ≡ escaped true zero []
    nil = unfold escaped in refl
escaped-injective (a ∷ s) [] e = absurd (escape_byte-ne_nil a _ (sym (escaped-all a s) ∙ e ∙ nil))
  where
    nil : escaped true zero [] ≡ []
    nil = unfold escaped in refl
escaped-injective (a ∷ s) (b ∷ t) e =
    let (same, rest) = escape_byte-prefix a b _ _ (sym (escaped-all a s) ∙ e ∙ escaped-all b t) in
    cc (same, escaped-injective s t rest)

-- `escape_all_html` loses nothing: two texts with one escaped form are the same text.
pub escape_all_html-injective : (s t : Bytes) → escape_all_html [] s ≡ escape_all_html [] t → s ≡ t
unfolding escape_all_html
escape_all_html-injective s t e =
    escaped-injective s t (
      some-eq-some
        (sym (escape_entities-escaped [] s true) ∙ e ∙ escape_entities-escaped [] t true))
