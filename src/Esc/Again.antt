-- ===== src/Esc/Again.antt =====
-- src/esc.rs: escaping what is escaped already.
use blackfriday_2_rust.Base.{
  ℕ, zero, suc, ◌≡◌, ◌≢◌, refl, sym, ap, ◌∙◌, true, false, none, some, inl, inr, [], ◌∷◌, ◌++◌,
  arith, Bool-cases, Option-cases, Bytes, some-eq-some, is_at, take, take-append, length,
  count_while, codes,
}
use blackfriday_2_rust.Util.{is_alnum}
use blackfriday_2_rust.Entities.{is_entity}
use blackfriday_2_rust.Esc.{html_escape_seq, escape_html}
use blackfriday_2_rust.Esc.Entity.{entity_tail}
use blackfriday_2_rust.Esc.Refine.{
  kept, escape_byte, escaped, Plain-length, kept-Plain, kept-none, escaped-kept,
  escape_entities-escaped,
}

-- What is copied with an `&` is found again, whatever follows it.
record Found (cs r : Bytes) : Type 0 where
  count :
      count_while is_alnum (take (suc (count_while is_alnum cs)) cs ++ r) ≡ count_while is_alnum cs
  mark : is_at (take (suc (count_while is_alnum cs)) cs ++ r) (count_while is_alnum cs) b';' ≡ true
  text :
      take (suc (count_while is_alnum cs)) (take (suc (count_while is_alnum cs)) cs ++ r)
      ≡ take (suc (count_while is_alnum cs)) cs

found : (cs r : Bytes) → is_at cs (count_while is_alnum cs) b';' ≡ true → Found cs r
unfolding count_while
found [] r h = cc
found (c ∷ cs) r h = elim (Bool-cases (is_alnum c)) [
  | inl a ↦ let f = found cs r (rw (a, count_while) at h) in ground (arith, f.count, f.mark, f.text)
  | inr a ↦ ground arith
]

entity_tail-again :
    (seen cs r : Bytes) (n : ℕ)
    → entity_tail seen cs ≡ some n
    → entity_tail seen (take n cs ++ r) ≡ some n
unfolding entity_tail
entity_tail-again seen cs r n h = elim (Bool-cases (is_at cs (count_while is_alnum cs) b';')) [
  | inl m ↦
      let f = found cs r m in
      let e : n ≡ suc (count_while is_alnum cs) = ground arith in
      rw e (ground (arith, f.count, f.mark, f.text))
  | inr m ↦ ground arith
]

kept-again :
    (c n : ℕ) (cs r : Bytes) → kept false c cs ≡ some n → kept false c (take n cs ++ r) ≡ some n
unfolding kept
kept-again c n cs r h = ground (arith, entity_tail-again (c ∷ []) cs r n)

-- The four sequences that the escaper writes are entities of the table.
sequences :
    (kept false b'&' (codes "amp;") ≡ some 4)
    × (kept false b'&' (codes "lt;") ≡ some 3)
    × (kept false b'&' (codes "gt;") ≡ some 3)
    × (kept false b'&' (codes "quot;") ≡ some 5)
unfolding kept entity_tail count_while is_alnum is_entity
sequences = (refl, refl, refl, refl)

-- `k` bytes of what stands at `cs` are written, so the text goes on at `r`.
escaped-skip :
    (cs r : Bytes) (k : ℕ) → k ≡ length cs → escaped false k (cs ++ r) ≡ escaped false zero r
unfolding escaped
escaped-skip [] r k e = rw e
escaped-skip (c ∷ cs) r k e = rw e (escaped-skip cs r (length cs) refl)

-- A kept entity in front of any text is kept again.
escaped-entity :
    (c n : ℕ) (e r : Bytes)
    → n ≡ length e
    → take n e ≡ e
    → kept false c (e ++ r) ≡ some n
    → escaped false zero (c ∷ (e ++ r)) ≡ c ∷ (e ++ escaped false zero r)
escaped-entity c n e r l t h =
    escaped-kept false c (e ++ r) n h ∙ rw (take-append e r n l, escaped-skip e r n l)

escaped-escape_byte :
    (c : ℕ) (r : Bytes)
    → (html_escape_seq c ≢ none)
    → escaped false zero (escape_byte c ++ r) ≡ escape_byte c ++ escaped false zero r
unfolding escape_byte html_escape_seq
escaped-escape_byte c r h = ground (
  arith,
  escaped-entity b'&' 4 (codes "amp;") r,
  escaped-entity b'&' 3 (codes "lt;") r,
  escaped-entity b'&' 3 (codes "gt;") r,
  escaped-entity b'&' 5 (codes "quot;") r,
  kept-again b'&' 4 (codes "amp;") r sequences.0,
  kept-again b'&' 3 (codes "lt;") r sequences.1,
  kept-again b'&' 3 (codes "gt;") r sequences.2,
  kept-again b'&' 5 (codes "quot;") r sequences.3,
)

take-take : (n : ℕ) (cs : Bytes) → take n (take n cs) ≡ take n cs
take-take zero cs = refl
take-take (suc n) [] = refl
take-take (suc n) (c ∷ cs) = ap (◌∷◌ c) (take-take n cs)

escaped-plain :
    (c : ℕ) (r : Bytes)
    → html_escape_seq c ≡ none
    → escaped false zero (c ∷ r) ≡ c ∷ escaped false zero r
unfolding escaped escape_byte
escaped-plain c r h = rw (kept-none false c r h, escaped) (rw (h, escape_byte))

escaped-next :
    (c : ℕ) (cs : Bytes)
    → kept false c cs ≡ none
    → escaped false zero (c ∷ cs) ≡ escape_byte c ++ escaped false zero cs
unfolding escaped
escaped-next c cs h = rw (h, escaped)

-- The next byte, escaped or copied, in front of a text that escaping leaves alone.
escaped-escaped_byte :
    (c : ℕ) (r : Bytes)
    → escaped false zero r ≡ r
    → escaped false zero (escape_byte c ++ r) ≡ escape_byte c ++ r
unfolding escape_byte
escaped-escaped_byte c r ih = elim (Option-cases (html_escape_seq c)) [
  | inl plain ↦ rw (plain, escape_byte) (escaped-plain c r plain ∙ ap (◌∷◌ c) ih)
  | inr (q, special) ↦ escaped-escape_byte c r (λ e. cc (special, e)) ∙ ap (◌++◌ (escape_byte c)) ih
]

escaped-twice : (k : ℕ) (s : Bytes) → escaped false zero (escaped false k s) ≡ escaped false k s
unfolding escaped
escaped-twice k [] = refl
escaped-twice (suc k) (c ∷ cs) = escaped-twice k cs
escaped-twice zero (c ∷ cs) = elim (Option-cases (kept false c cs)) [
  | inl no_entity ↦
      rw (escaped-next c cs no_entity)
        (escaped-escaped_byte c (escaped false zero cs) (escaped-twice zero cs))
  | inr (n, entity) ↦ rw (escaped-kept false c cs n entity) (
      escaped-entity c n (take n cs) (escaped false n cs)
        (sym (Plain-length n cs (kept-Plain false c n cs entity))) (take-take n cs)
        (kept-again c n cs (escaped false n cs) entity)
      ∙ ap (λ (r : Bytes). c ∷ (take n cs ++ r)) (escaped-twice n cs))
]

-- Escaping keeps valid entities, its own sequences among them: a second pass changes nothing.
pub escape_html_idem : (s t : Bytes) → escape_html [] s ≡ some t → escape_html [] t ≡ some t
unfolding escape_html
escape_html_idem s t e =
    let t_is : escaped false zero s ≡ t =
      some-eq-some (sym (escape_entities-escaped [] s false) ∙ e) in
    escape_entities-escaped [] t false ∙ ap some (rw (← t_is) (escaped-twice zero s))
