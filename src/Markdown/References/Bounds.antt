-- ===== src/Markdown/References/Bounds.antt =====
-- src/markdown.rs, `scan_link_ref`: where the spans of a definition lie.
use blackfriday_2_rust.Base.{
  ℕ, zero, suc, ◌+◌, ◌-◌, ◌≤◌, ◌<◌, ◌≡◌, ◌≢◌, refl, ap, ◌∙◌, Bool, true, false, not, ◌&&◌, ◌||◌,
  none, some, inl, inr, ◌⊎◌, [], ◌∷◌, arith, ltb, Bool-cases, if-true, if-false, if◌then◌else◌,
  Bytes, codes, length, get_or, is_at, at-length, skip_while, skip_while-le, skip_while-ge,
  count_while,
}
use blackfriday_2_rust.Util.{one_of}
use blackfriday_2_rust.Markdown.References.{
  is_blank, is_newline, LinkRef, step_back, scan_title, scan_line_end, scan_link, scan_link_ref,
}

-- Both spans, and the end of the definition, lie within the text.
abbrev pub IsWithin : Bytes → LinkRef → Type 0
IsWithin text l =
    (l.link_offset ≤ l.link_end)
    × (l.link_end ≤ length text)
    × (l.title_offset ≤ l.title_end)
    × (l.title_end ≤ length text)
    × (l.line_end ≤ length text)

step_back-range :
    (text : Bytes) (lo n : ℕ) → (lo ≤ step_back text lo n) × (step_back text lo n ≤ lo + n)
unfolding step_back
step_back-range text lo zero = (omega arith, omega arith)
step_back-range text lo (suc n) =
    (ground (arith, step_back-range text lo n), ground (arith, step_back-range text lo n))

IsWithin-if :
    (text : Bytes) (c : Bool) (a b : LinkRef)
    → (c ≡ true → IsWithin text a)
    → (c ≡ false → IsWithin text b)
    → IsWithin text (if c then a else b)
IsWithin-if text true a b f g = f refl
IsWithin-if text false a b f g = g refl

-- Where a title that is read ends.
title_end-le :
    (text : Bytes) (e : ℕ)
    → e ≤ length text
    → (e ≤ (if is_at text e b'\n' && is_at text (e + 1) b'\r' then e + 1 else e))
      × ((if is_at text e b'\n' && is_at text (e + 1) b'\r' then e + 1 else e) ≤ length text)
title_end-le text e h = ground (arith, at-length text (e + 1) b'\r')

scan_title-IsWithin :
    (text : Bytes) (i link_offset link_end line_end : ℕ)
    → link_offset ≤ link_end
    → link_end ≤ length text
    → line_end ≤ length text
    → IsWithin text (scan_title text i link_offset link_end line_end)
unfolding scan_title
scan_title-IsWithin text i lo le end h₁ h₂ h₃ =
    let p = λ (b : ℕ). not (is_newline b) in
    let e = skip_while p text (i + 1) in
    let first = skip_while-ge p text (i + 1) in
    let (back_ge, back_le) = step_back-range text (i + 1) (e - 1 - (i + 1)) in
    IsWithin-if text (not (ltb (i + 1) (length text) && one_of (codes "'\"(") (get_or text i 0))) _
      _ (λ none_there. (h₁, h₂, omega arith, omega arith, h₃))
      (λ there.
        let inside : i + 1 < length text = ground arith in
        let last : e ≤ length text = skip_while-le p text (i + 1) (omega arith) in
        let (ge, te) = title_end-le text e last in
        IsWithin-if text _ _ _ (λ closed. (h₁, h₂, omega arith, omega arith, te))
          (λ unclosed. (h₁, h₂, omega arith, te, h₃)))

line_end-le :
    (text : Bytes) (i : ℕ) (c : Bool)
    → i ≤ length text
    → (if is_at text i b'\r' && is_at text (i + 1) b'\n'
        then (if c then i else 0) + 1
        else (if c then i else 0))
      ≤ length text
line_end-le text i c h = ground (arith, at-length text (i + 1) b'\n')

scan_line_end-IsWithin :
    (text : Bytes) (i link_offset link_end : ℕ)
    → link_offset ≤ link_end
    → link_end ≤ length text
    → i ≤ length text
    → IsWithin text (scan_line_end text i link_offset link_end)
unfolding scan_line_end
scan_line_end-IsWithin text i lo le h₁ h₂ h₃ =
    let at_end = if not (ltb i (length text)) || is_newline (get_or text i 0) then i else 0 in
    let line_end = if is_at text i b'\r' && is_at text (i + 1) b'\n' then at_end + 1 else at_end in
    let next = if ltb 0 line_end then skip_while is_blank text (line_end + 1) else i in
    let junk : LinkRef = record {
      link_offset = lo;
      link_end = le;
      title_offset = 0;
      title_end = 0;
      line_end = 0;
    } in
    IsWithin-if text (ltb i (length text) && not (one_of (codes "\n\r'\"(") (get_or text i 0))) junk
      (scan_title text next lo le line_end)
      (λ early. (h₁, h₂, omega arith, omega arith, omega arith))
      (λ fine.
        scan_title-IsWithin text next lo le line_end h₁ h₂
          (line_end-le text i (not (ltb i (length text)) || is_newline (get_or text i 0)) h₃))

is_at_unique : (text : Bytes) (i a b : ℕ) → is_at text i a ≡ true → is_at text i b ≡ true → a ≡ b
is_at_unique [] i a b e f = cc
is_at_unique (c ∷ text) zero a b e f = ground arith
is_at_unique (c ∷ text) (suc i) a b e f = ground (arith, is_at_unique text i a b)

skip_while-first :
    (p : ℕ → Bool) (text : Bytes) (i c : ℕ)
    → is_at text i c ≡ true
    → p c ≡ true
    → i < skip_while p text i
unfolding skip_while count_while
skip_while-first p [] i c e f = cc
skip_while-first p (b ∷ text) zero c e f =
    let same : b ≡ c = ground arith in
    let passes : p b ≡ true = ap p same ∙ f in ground (arith, passes)
skip_while-first p (b ∷ text) (suc i) c e f = omega (arith, skip_while-first p text i c e f)

angles-apart :
    (text : Bytes) (lo link_end : ℕ)
    → (is_at text lo b'<' && ltb 0 link_end && is_at text (link_end - 1) b'>') ≡ true
    → lo ≤ link_end
    → (is_at text lo b'<' ≡ true → lo < link_end)
    → lo + 1 ≤ link_end - 1
angles-apart text lo link_end e ge grows =
    let opens : is_at text lo b'<' ≡ true = ground arith in
    let closes : is_at text (link_end - 1) b'>' ≡ true = ground arith in
    let apart : lo ≢ link_end - 1 = λ same. absurd (
      omega (
        arith,
        is_at_unique text lo b'<' b'>' opens (ap (λ k. is_at text k b'>') same ∙ closes),
      )) in
    omega (arith, apart, grows opens)

scan_link-IsWithin :
    (text : Bytes) (lo : ℕ)
    → lo < length text
    → (l : LinkRef) × (scan_link text lo ≡ some l) × IsWithin text l
unfolding scan_link
scan_link-IsWithin text lo lt =
    let p = λ (b : ℕ). not (is_blank b || is_newline b) in
    let link_end = skip_while p text lo in
    let i = skip_while is_blank text link_end in
    let ge = skip_while-ge p text lo in
    let le = skip_while-le p text lo (omega arith) in
    let i_le = skip_while-le is_blank text link_end le in
    let inside : not (ltb lo (length text)) ≡ false = ground arith in
    let grows : is_at text lo b'<' ≡ true → lo < link_end =
      λ h. skip_while-first p text lo b'<' h refl in
    let angles = is_at text lo b'<' && ltb 0 link_end && is_at text (link_end - 1) b'>' in
    elim (Bool-cases angles) [
      | inl e ↦ (
        _,
        if-false none inside ∙ if-true _ e,
        scan_line_end-IsWithin text i (lo + 1) (link_end - 1)
            (angles-apart text lo link_end e ge grows) (omega arith) i_le,
      )
      | inr e ↦ (
        _,
        if-false none inside ∙ if-false _ e,
        scan_line_end-IsWithin text i lo link_end ge le i_le,
      )
    ]

scan_link-none : (text : Bytes) (lo : ℕ) → length text ≤ lo → scan_link text lo ≡ none
unfolding scan_link
scan_link-none text lo h = if-true _ (past text lo h)
  where
    past : (text : Bytes) (lo : ℕ) → length text ≤ lo → not (ltb lo (length text)) ≡ true
    past text lo h = ground arith

-- The start of the link, behind an angle.
scan_link_ref-scan_link :
    (text : Bytes) (i : ℕ)
    → i < length text
    → scan_link_ref text i ≡ scan_link text (if is_at text i b'<' then i + 1 else i)
unfolding scan_link_ref
scan_link_ref-scan_link text i lt = if-false none (inside text i lt)
  where
    inside : (text : Bytes) (i : ℕ) → i < length text → not (ltb i (length text)) ≡ false
    inside text i h = ground arith

-- From an index within the text, `scan_link_ref` panics just where the text ends behind an opening
-- angle at that index; else both spans and the end of the definition lie within the text.
pub scan_link_ref-IsWithin :
    (text : Bytes) (i : ℕ)
    → i < length text
    → (((is_at text i b'<' ≡ true) × (i + 1 ≡ length text)) × (scan_link_ref text i ≡ none))
      ⊎ ((l : LinkRef) × (scan_link_ref text i ≡ some l) × IsWithin text l)
scan_link_ref-IsWithin text i lt = elim (Bool-cases (is_at text i b'<')) [
  | inr plain ↦
      let (l, e, w) = scan_link-IsWithin text i lt in
      inr (l, scan_link_ref-scan_link text i lt ∙ ap (scan_link text) (if-false _ plain) ∙ e, w)
  | inl opens ↦
      let start = scan_link_ref-scan_link text i lt ∙ ap (scan_link text) (if-true _ opens) in
      elim (Bool-cases (ltb (i + 1) (length text))) [
        | inl more ↦
            let (l, e, w) = scan_link-IsWithin text (i + 1) (ground arith) in inr (l, start ∙ e, w)
        | inr no_more ↦
            inl ((opens, ground arith), start ∙ scan_link-none text (i + 1) (ground arith))
      ]
]
