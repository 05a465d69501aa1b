-- ===== src/Markdown/References/Footnotes.antt =====
-- src/markdown.rs, `scan_footnote`: it never panics, its loop ends, and where the footnote lies.
use blackfriday_2_rust.Base.{
  ℕ, zero, suc, ◌+◌, ◌-◌, ◌≤◌, ◌<◌, ◌≡◌, refl, ◌∙◌, Bool, true, false, ◌&&◌, ◌||◌, none, Option,
  some, inl, inr, [], ◌∷◌, ◌++◌, arith, ◌==◌, ltb, leb, Bool-cases, if-true, if-false,
  if◌then◌else◌, bind-at, Bytes, codes, length, length-take, length-drop, get_or, get_elem?-get_or,
  slice, skip_while, skip_while-le, skip_while-ge, drop,
}
use blackfriday_2_rust.Util.{is_indented}
use blackfriday_2_rust.Block.{is_empty}
use blackfriday_2_rust.Markdown.References.{
  to_line_end, line_from, footnote_loop, Footnote, scan_footnote,
}

to_line_end-range :
    (previous : ℕ) (cs : Bytes) (i : ℕ)
    → (i ≤ to_line_end previous cs i) × (to_line_end previous cs i ≤ i + length cs)
unfolding to_line_end
to_line_end-range previous [] i = (omega arith, omega arith)
to_line_end-range previous (c ∷ cs) i =
    (ground (arith, to_line_end-range c cs (i + 1)), ground (arith, to_line_end-range c cs (i + 1)))

line_from-range :
    (text : Bytes) (i : ℕ)
    → i ≤ length text
    → (i ≤ line_from text i) × (line_from text i ≤ length text)
line_from-range text i h =
    let (ge, le) = to_line_end-range (get_or text (i - 1) 0) (drop i text) i in
    (ge, omega (arith, le, length-drop i text))

pub slice-length :
    (text : Bytes) (lo hi : ℕ)
    → lo ≤ hi
    → hi ≤ length text
    → (s : Bytes) × (slice text lo hi ≡ some s) × (length s ≡ hi - lo)
unfolding slice
slice-length text lo hi h₁ h₂ =
    let inside : (leb lo hi && leb hi (length text)) ≡ true = ground arith in
    (
      _,
      if-true none inside,
      omega (arith, length-take (hi - lo) (drop lo text), length-drop lo text),
    )

is_indented-le : (text : Bytes) (indent_size : ℕ) → is_indented text indent_size ≤ length text
unfolding is_indented
is_indented-le [] indent_size = omega arith
is_indented-le (b ∷ bs) indent_size = ground arith

-- The loop gives a result, and where it ends.
abbrev Ends : Bytes → ℕ → Option (ℕ × Bytes × Bool) → Type 0
Ends text b r =
    (e : ℕ) × (raw : Bytes) × (has_block : Bool) × (r ≡ some (e, raw, has_block))
    × (b ≤ e)
    × (e ≤ length text)

Ends-later :
    (text : Bytes) (b i : ℕ) (r r' : Option (ℕ × Bytes × Bool))
    → r ≡ r'
    → b ≤ i
    → Ends text i r'
    → Ends text b r
Ends-later text b i r r' same le (e, raw, has_block, f, up, down) =
    (e, raw, has_block, same ∙ f, omega arith, down)

-- The line from `block_end` on, of which there is at least a byte.
next_line :
    (text : Bytes) (b : ℕ)
    → b < length text
    → (line : Bytes) × (slice text b (line_from text (b + 1)) ≡ some line)
      × (b < line_from text (b + 1))
      × (line_from text (b + 1) ≤ length text)
      × (length line ≡ line_from text (b + 1) - b)
next_line text b h =
    let (ge, le) = line_from-range text (b + 1) (omega arith) in
    let (line, cut, size) = slice-length text b (line_from text (b + 1)) (omega arith) le in
    (line, cut, omega arith, le, size)

footnote_loop-Ends :
    (fuel : ℕ) (text : Bytes) (indent_size block_end : ℕ) (raw : Bytes) (has_block blank : Bool)
    → block_end ≤ length text
    → length text < block_end + fuel
    → Ends text block_end (footnote_loop fuel text indent_size block_end raw has_block blank)
unfolding footnote_loop
footnote_loop-Ends zero text indent_size b raw has_block blank h₁ h₂ = absurd (omega arith)
footnote_loop-Ends (suc fuel) text indent_size b raw has_block blank h₁ h₂ =
    elim (Bool-cases (ltb b (length text))) [
      | inr done ↦ (b, raw, has_block, rw (done, footnote_loop) refl, omega arith, h₁)
      | inl more ↦
          let (line, cut, further, le, size) = next_line text b (ground arith) in
          elim (Bool-cases (ltb 0 (is_empty line))) [
            | inl empty ↦
                Ends-later text b _ _ _ (rw (more, footnote_loop) (bind-at _ cut ∙ rw empty refl))
                  (omega arith)
                  (footnote_loop-Ends fuel text indent_size _ raw has_block true le (omega arith))
            | inr full ↦ elim (Bool-cases (is_indented line indent_size == 0)) [
              | inl out ↦ (
                b,
                raw,
                has_block,
                rw (more, footnote_loop) (bind-at _ cut ∙ rw (full, out) refl),
                omega arith,
                h₁,
              )
              | inr indented ↦
                  let (body, rest, body_size) =
                    slice-length text (b + is_indented line indent_size) (line_from text (b + 1))
                      (omega (arith, is_indented-le line indent_size)) le in
                  Ends-later text b _ _ _
                    (rw (more, footnote_loop)
                      (bind-at _ cut ∙ rw (full, indented) (bind-at _ rest)))
                    (omega arith)
                    (footnote_loop-Ends fuel text indent_size _
                      ((if blank then raw ++ codes "\n" else raw) ++ body) true false le
                      (omega arith))
            ]
          ]
    ]

-- At an index past the first byte and within the text, `scan_footnote` is no panic and its loop ends: the
-- footnote stands at the index or behind spaces, and ends within the text.
pub scan_footnote-range :
    (text : Bytes) (i indent_size : ℕ)
    → 0 < i
    → i < length text
    → (f : Footnote) × (scan_footnote text i indent_size ≡ some f)
      × (i ≤ f.block_start)
      × (f.block_start ≤ f.block_end)
      × (f.block_end ≤ length text)
unfolding scan_footnote
scan_footnote-range text i indent_size h₁ h₂ =
    let p = λ (b : ℕ). b == b' ' in
    let block_start = skip_while p text i in
    let ge = skip_while-ge p text i in
    let le = skip_while-le p text i (omega arith) in
    let (first_ge, first_le) = line_from-range text block_start le in
    let (raw, cut, size) =
      slice-length text block_start (line_from text block_start) first_ge first_le in
    let (e, raw', hb, f, up, down) =
      footnote_loop-Ends (length text + 1) text indent_size (line_from text block_start) raw false
        false first_le (omega arith) in
    let last = get_elem?-get_or text (e - 1) 0 (omega arith) in
    let inside : (i == 0 || length text == 0) ≡ false = ground arith in
    (_, if-false _ inside ∙ bind-at _ cut ∙ bind-at _ f ∙ bind-at _ last, ge, omega arith, down)
