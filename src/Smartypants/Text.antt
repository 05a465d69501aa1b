-- ===== src/Smartypants/Text.antt =====
-- src/smartypants.rs: texts and tags that `process` leaves as they are.
use blackfriday_2_rust.Base.{
  ℕ, zero, suc, ◌≡◌, refl, sym, ap, ◌∙◌, Bool, true, false, not, ◌||◌, none, some, inl, inr, [],
  ◌∷◌, ◌++◌, ◌==◌, arith, Option-cases, all, count_while-all, append_assoc, length-append, take,
  take-append, Bytes, length, within, skip_while, count_while,
}
use blackfriday_2_rust.Flags.{FlagSet}
use blackfriday_2_rust.Smartypants.Handlers.{Quotes, Handled, wrote, smart_left_angle}
use blackfriday_2_rust.Smartypants.{left_angle, Callbacks, new, dispatch, process}
use blackfriday_2_rust.Smartypants.Process.{
  processed, processed_plain, processed_special, process-processed,
}

-- The bytes that some renderer has a handler for.
unfoldable pub is_special : ℕ → Bool
is_special c =
    c == b'"'
    || c == b'&'
    || c == b'\''
    || c == b'('
    || c == b'-'
    || c == b'.'
    || c == b'<'
    || c == b'`'
    || within b'1' b'9' c

pub new-callbacks :
    (flags : FlagSet) (c : ℕ) → is_special c ≡ false → (new flags).callbacks c ≡ none
unfolding new is_special
new-callbacks flags c h = ground arith

unfoldable pub is_plain : ℕ → Bool
unfolding is_special
is_plain c = not (is_special c)

processed-plain :
    (flags : FlagSet) (p : ℕ) (s : Bytes) (q : Quotes)
    → all is_plain s ≡ true
    → processed (new flags).callbacks zero p s q ≡ (s, q)
unfolding processed all is_plain
processed-plain flags p [] q h = refl
processed-plain flags p (c ∷ s) q h =
    processed_plain (new flags).callbacks p c s q (new-callbacks flags c (ground arith))
    ∙ ap (λ (r : Bytes × Quotes). (c ∷ r.0, r.1)) (processed-plain flags c s q (ground arith))

-- With any flags, a renderer that is freshly made appends a text of plain bytes as it is, and stays as
-- it was.
pub process-plain :
    (flags : FlagSet) (out s : Bytes)
    → all is_plain s ≡ true
    → process (new flags) out s ≡ some (out ++ s, new flags)
process-plain flags out s h =
    process-processed (new flags) out s
    ∙ ap (λ (p : Bytes × Quotes). some (out ++ p.0, record (new flags) { quotes = p.1 }))
        (processed-plain flags 0 s (new flags).quotes h)

unfoldable pub is_inside : ℕ → Bool
is_inside b = not (b == b'>')

angle_new : (flags : FlagSet) → (new flags).callbacks b'<' ≡ some left_angle
unfolding new
angle_new flags = refl

tag_found :
    (tag rest : Bytes)
    → all is_inside tag ≡ true
    → skip_while is_inside (b'<' ∷ (tag ++ b'>' ∷ rest)) 0 ≡ suc (length tag)
unfolding skip_while is_inside count_while
tag_found tag rest h = omega (arith, count_while-all is_inside tag b'>' rest h refl)

take_tag :
    (tag rest : Bytes) (n : ℕ)
    → n ≡ suc (suc (length tag))
    → take n (b'<' ∷ (tag ++ b'>' ∷ rest)) ≡ b'<' ∷ (tag ++ b'>' ∷ [])
take_tag tag rest n e =
    ap (λ (m : ℕ). take m (b'<' ∷ (tag ++ b'>' ∷ rest))) e
    ∙ ap (λ (x : Bytes). b'<' ∷ take (suc (length tag)) x) (sym (append_assoc tag (b'>' ∷ []) rest))
    ∙ ap (◌∷◌ b'<') (
        take-append (tag ++ b'>' ∷ []) rest (suc (length tag))
          (omega (arith, length-append tag (b'>' ∷ []))))

left_angle-tag :
    (q : Quotes) (tag rest : Bytes)
    → all is_inside tag ≡ true
    → smart_left_angle q (b'<' ∷ (tag ++ b'>' ∷ rest))
      ≡ wrote q (b'<' ∷ (tag ++ b'>' ∷ [])) (suc (length tag))
unfolding smart_left_angle is_inside
left_angle-tag q tag rest h = rw (tag_found tag rest h) (
    ap (λ (x : Bytes). wrote q x (suc (length tag)))
      (take_tag tag rest _ (omega (arith, length-append tag (b'>' ∷ rest)))))

processed-tag :
    (t : Callbacks) (p : ℕ) (tag rest : Bytes) (q : Quotes)
    → processed t (suc (length tag)) p (tag ++ b'>' ∷ rest) q ≡ processed t zero b'>' rest q
unfolding processed
processed-tag t p [] rest q = refl
processed-tag t p (c ∷ tag) rest q = processed-tag t c tag rest q

abbrev around : Bytes → Bytes × Quotes → Bytes × Quotes
around tag r = (b'<' ∷ (tag ++ b'>' ∷ r.0), r.1)

abbrev goes_on : Callbacks → Bytes → Bytes → Handled → Bytes × Quotes
goes_on t tag rest d =
    let r = processed t d.used b'<' (tag ++ b'>' ∷ rest) d.quotes in (d.written ++ r.0, r.1)

tag_then_rest :
    (t : Callbacks) (q : Quotes) (p : ℕ) (tag rest : Bytes)
    → all is_inside tag ≡ true
    → goes_on t tag rest (dispatch left_angle q p (b'<' ∷ (tag ++ b'>' ∷ rest)))
      ≡ around tag (processed t zero b'>' rest q)
unfolding dispatch
tag_then_rest t q p tag rest h =
    ap (goes_on t tag rest) (left_angle-tag q tag rest h)
    ∙ ap (λ (r : Bytes × Quotes). ((b'<' ∷ (tag ++ b'>' ∷ [])) ++ r.0, r.1))
        (processed-tag t b'<' tag rest q)
    ∙ ap (λ (x : Bytes). (b'<' ∷ x, (processed t zero b'>' rest q).1))
        (append_assoc tag (b'>' ∷ []) (processed t zero b'>' rest q).0)

-- Where `process` is behind the first bytes of a text: what it has written for them, the open
-- quotes, the last of these bytes, and how many bytes of what follows a handler has taken already.
pub record Reached : Type 0 where
  pub written : Bytes
  pub quotes : Quotes
  pub behind : ℕ
  pub taken : ℕ

abbrev writes : Bytes → Reached → Reached
writes w r = record r { written = w ++ r.written }

-- `reached` for the first bytes `xs`, with `s` behind them, which the handlers see too.
unfoldable pub reached : Callbacks → ℕ → ℕ → Bytes → Bytes → Quotes → Reached
reached t k p [] s q = record { written = []; quotes = q; behind = p; taken = k }
reached t (suc k) p (c ∷ xs) s q = reached t k c xs s q
reached t zero p (c ∷ xs) s q = elim (t c) [
  | none ↦ writes (c ∷ []) (reached t zero c xs s q)
  | some action ↦
      let h = dispatch action q p (c ∷ (xs ++ s)) in
      writes h.written (reached t h.used c xs s h.quotes)
]

-- The text and the quotes that come of it all.
abbrev pub go_on : Callbacks → Bytes → Reached → Bytes × Quotes
go_on t s r = let rest = processed t r.taken r.behind s r.quotes in (r.written ++ rest.0, rest.1)

go_on-writes :
    (t : Callbacks) (w s : Bytes) (r : Reached)
    → go_on t s (writes w r) ≡ (w ++ (go_on t s r).0, (go_on t s r).1)
go_on-writes t w s r =
    ap (λ (x : Bytes). (x, (processed t r.taken r.behind s r.quotes).1))
      (append_assoc w r.written (processed t r.taken r.behind s r.quotes).0)

processed-reached :
    (t : Callbacks) (k p : ℕ) (xs s : Bytes) (q : Quotes)
    → processed t k p (xs ++ s) q ≡ go_on t s (reached t k p xs s q)
unfolding processed reached
processed-reached t k p [] s q = refl
processed-reached t (suc k) p (c ∷ xs) s q = processed-reached t k c xs s q
processed-reached t zero p (c ∷ xs) s q = elim (Option-cases (t c)) [
  | inl e ↦
      processed_plain t p c (xs ++ s) q e
      ∙ ap (λ (r : Bytes × Quotes). (c ∷ r.0, r.1)) (processed-reached t zero c xs s q)
      ∙ rw (e, reached) (sym (go_on-writes t (c ∷ []) s (reached t zero c xs s q)))
  | inr (action, e) ↦
      let h = dispatch action q p (c ∷ (xs ++ s)) in
      processed_special t p c (xs ++ s) q action e
      ∙ ap (λ (r : Bytes × Quotes). (h.written ++ r.0, r.1))
          (processed-reached t h.used c xs s h.quotes)
      ∙ rw (e, reached) (sym (go_on-writes t h.written s (reached t h.used c xs s h.quotes)))
]

-- Wherever `process` comes to a `<` behind the bytes `front`, so that no handler called before has
-- taken it, what stands between this `<` and the next `>` is copied without a change and leaves the
-- open quotes alone, with any flags; the text behind is then processed as it is behind a `>`.
pub process-tag :
    (flags : FlagSet) (q : Quotes) (out front tag rest : Bytes)
    → all is_inside tag ≡ true
    → (reached (new flags).callbacks zero 0 front (b'<' ∷ (tag ++ b'>' ∷ rest)) q).taken ≡ 0
    → process (record (new flags) { quotes = q }) out (front ++ b'<' ∷ (tag ++ b'>' ∷ rest)) ≡ (
        let r = reached (new flags).callbacks zero 0 front (b'<' ∷ (tag ++ b'>' ∷ rest)) q in
        let p = processed (new flags).callbacks zero b'>' rest r.quotes in
        some
          (out ++ (r.written ++ (b'<' ∷ (tag ++ b'>' ∷ p.0))), record (new flags) { quotes = p.1 }))
process-tag flags q out front tag rest h here =
    let t = (new flags).callbacks in
    let s = b'<' ∷ (tag ++ b'>' ∷ rest) in
    let r = reached t zero 0 front s q in
    process-processed (record (new flags) { quotes = q }) out (front ++ s)
    ∙ ap (λ (p : Bytes × Quotes). some (out ++ p.0, record (new flags) { quotes = p.1 }))
        (processed-reached t zero 0 front s q
          ∙ ap (λ (p : Bytes × Quotes). (r.written ++ p.0, p.1))
              (ap (λ (k : ℕ). processed t k r.behind s r.quotes) here
                ∙ processed_special t r.behind b'<' (tag ++ b'>' ∷ rest) r.quotes left_angle
                    (angle_new flags)
                ∙ tag_then_rest t r.quotes r.behind tag rest h))
