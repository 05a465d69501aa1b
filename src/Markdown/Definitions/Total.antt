-- ===== src/Markdown/Definitions/Total.antt =====
-- src/markdown.rs, `is_reference`: when it panics, and how many bytes a definition takes.
use blackfriday_2_rust.Base.{
  ℕ, ◌+◌, ◌-◌, ◌≤◌, ◌<◌, ◌≡◌, refl, ap, sym, ◌∙◌, Bool, true, false, not, ◌&&◌, ◌||◌, Option,
  Option-cases, none, some, some-eq-some, inl, inr, ◌⊎◌, arith, ◌==◌, ltb, Bool-cases, if-true,
  if-false, if◌then◌else◌, bind-at, bind-none, Bytes, length, get_or, is_at, at-length, skip_while,
  skip_while-ge,
}
use blackfriday_2_rust.Markdown.{Markdown}
use blackfriday_2_rust.Markdown.References.{is_blank, is_newline}
use blackfriday_2_rust.Markdown.Definitions.{
  leading, id_from, reference_id, reference_start, define_reference, is_reference,
}
use blackfriday_2_rust.Markdown.References.Bounds.{scan_link_ref-IsWithin}
use blackfriday_2_rust.Markdown.References.Footnotes.{slice-length, scan_footnote-range}

-- A test that the code has passed.
guarded :
    {A : Type 0} (c : Bool) (m : Option A) (x : A)
    → (if c then none else m) ≡ some x
    → (c ≡ false) × (m ≡ some x)
guarded true m x h = cc
guarded false m x h = (refl, h)

abbrev pub IsId : Bytes → ℕ → ℕ → Type 0
IsId text id_offset id_end = (id_offset ≤ id_end) × (id_end < length text)

id_from-IsId :
    (text : Bytes) (n note : Bool) (s o e : ℕ)
    → id_from text n s ≡ some (note, o, e)
    → IsId text o e
unfolding id_from
id_from-IsId text n note s o e h =
    let end = skip_while (λ b. not (is_newline b || b == b']')) text s in
    let (closes, h₁) = guarded (not (is_at text end b']')) _ _ h in
    let (full, h₂) = guarded (not n && s == end) _ _ h₁ in
    let found = some-eq-some h₂ in
    let bracket : is_at text end b']' ≡ true = ground arith in
    (
      omega (
        arith,
        skip_while-ge (λ b. not (is_newline b || b == b']')) text s,
        ap (λ t. t.1) found,
        ap (λ t. t.2) found,
      ),
      omega (arith, at-length text end b']' bracket, ap (λ t. t.2) found),
    )

reference_id-IsId :
    (p : Markdown) (text : Bytes) (note : Bool) (o e : ℕ)
    → reference_id p text ≡ some (note, o, e)
    → IsId text o e
unfolding reference_id
reference_id-IsId p text note o e h =
    let (long, h₁) = guarded (ltb (length text) 4) _ _ h in
    let (opens, h₂) = guarded (not (is_at text (leading text) b'[')) _ _ h₁ in
    id_from-IsId text _ note _ o e h₂

reference_start-range :
    (text : Bytes) (i start : ℕ)
    → reference_start text i ≡ some start
    → (i < start) × (start < length text)
unfolding reference_start
reference_start-range text i start h =
    let j = skip_while is_blank text (i + 2) in
    let k =
      if is_newline (get_or text j 0)
      then (if is_at text (j + 1) b'\n' && is_at text j b'\r' then j + 2 else j + 1)
      else j in
    let (colon, h₁) = guarded (not (is_at text (i + 1) b':')) _ _ h in
    let (inside, h₂) = guarded (not (ltb (skip_while is_blank text k) (length text))) _ _ h₁ in
    let here = some-eq-some h₂ in
    let k_ge : j ≤ k = ground arith in
    (
      omega (arith, skip_while-ge is_blank text (i + 2), k_ge, skip_while-ge is_blank text k, here),
      ground (arith, here),
    )

-- The text ends with an opening angle and there is a panic, or a number of bytes within the text is
-- taken, and none is only if the state is as it was.
abbrev pub Reads : Bytes → Markdown → Option (ℕ × Markdown) → Type 0
Reads text p r =
    ((r ≡ none) × (is_at text (length text - 1) b'<' ≡ true))
    ⊎ ((n : ℕ) × (p' : Markdown) × (r ≡ some (n, p')) × (n ≤ length text) × (n ≡ 0 → p' ≡ p))

define_reference-Reads :
    (lowercase_lossy : Bytes → Bytes) (text : Bytes) (note : Bool) (o e start tab_size : ℕ)
    (p : Markdown)
    → IsId text o e
    → 0 < start
    → start < length text
    → Reads text p (define_reference lowercase_lossy text note o e start tab_size p)
unfolding define_reference
define_reference-Reads lower text true o e start tab_size p (le, lt) h₁ h₂ =
    let (f, scanned, ge, up, down) = scan_footnote-range text start tab_size h₁ h₂ in
    let (id, cut, size) = slice-length text o e le (omega arith) in
    let some_end : (f.block_end == 0) ≡ false = ground arith in
    inr (
      f.block_end,
      _,
      bind-at _ scanned ∙ if-false _ some_end ∙ bind-at _ cut,
      down,
      λ z. absurd (omega arith),
    )
define_reference-Reads lower text false o e start tab_size p (le, lt) h₁ h₂ =
    elim (scan_link_ref-IsWithin text start h₂) [
      | inl ((angle, end), panics) ↦
          let last : start ≡ length text - 1 = omega arith in
          inl (bind-none _ panics, ap (λ k. is_at text k b'<') (sym last) ∙ angle)
      | inr (l, scanned, (link_le, link_in, title_le, title_in, end_in)) ↦
          elim (Bool-cases (l.line_end == 0)) [
            | inl unread ↦ inr (0, p, bind-at _ scanned ∙ if-true _ unread, omega arith, λ z. refl)
            | inr read ↦
                let (id, cut, size) = slice-length text o e le (omega arith) in
                let (link, cut_link, size) =
                  slice-length text l.link_offset l.link_end link_le link_in in
                let (title, cut_title, size) =
                  slice-length text l.title_offset l.title_end title_le title_in in
                inr (
                  l.line_end,
                  _,
                  bind-at _ scanned
                      ∙ if-false _ read
                      ∙ bind-at _ cut
                      ∙ bind-at _ cut_link
                      ∙ bind-at _ cut_title,
                  end_in,
                  λ z. absurd (ground arith),
                )
          ]
    ]

-- `is_reference` panics only on a text that ends with an opening angle. Else it takes a number of bytes
-- that the text has, and where it takes none, nothing is stored and the state is as it was.
pub is_reference-Reads :
    (lowercase_lossy : Bytes → Bytes) (text : Bytes) (tab_size : ℕ) (p : Markdown)
    → ((is_reference lowercase_lossy text tab_size p ≡ none)
        × (is_at text (length text - 1) b'<' ≡ true))
      ⊎ ((n : ℕ) × (p' : Markdown) × (is_reference lowercase_lossy text tab_size p ≡ some (n, p'))
          × (n ≤ length text)
          × (n ≡ 0 → p' ≡ p))
unfolding is_reference
is_reference-Reads lower text tab_size p = elim (Option-cases (reference_id p text)) [
  | inl no_id ↦ rw (no_id, is_reference) (inr (0, p, refl, omega arith, λ z. refl))
  | inr ((note, o, e), found) ↦ elim (Option-cases (reference_start text e)) [
    | inl no_start ↦ rw (found, no_start, is_reference) (inr (0, p, refl, omega arith, λ z. refl))
    | inr (start, starts) ↦
        let (behind, inside) = reference_start-range text e start starts in
        rw (found, starts, is_reference)
          (define_reference-Reads lower text note o e start tab_size p
            (reference_id-IsId p text note o e found) (omega arith) inside)
  ]
]
