-- ===== src/Html/Strip/Ends.antt =====
-- src/html.rs: where the tags that `out` strips start and end.
use mathlib.Core.Path.{subst}
use blackfriday_2_rust.Base.{
  ℕ, zero, suc, ◌+◌, ◌-◌, ◌≤◌, ◌<◌, ◌≡◌, ◌⊎◌, inl, inr, refl, true, not, ◌&&◌, ◌||◌, Bool-cases,
  Option, none, some, [], ◌∷◌, ◌==◌, arith, ltb, if◌then◌else◌, Bytes, codes, length,
  get_elem?-drop, get_elem?-get_or, get_or, is_at, at-length, drop, starts_with, skip_while,
  skip_while-stop, bind-some,
}
use blackfriday_2_rust.Util.{is_letter}
use blackfriday_2_rust.Html.Strip.{
  tag_name_len, re_space, attributes_end, close_at, open_tag_len, close_tag_len, comment_loop,
  html_comment_len, instruction_loop, processing_instruction_len, declaration_len, cdata_loop,
  cdata_len, html_tag_prefix_len, ◌or_else◌,
}

-- The index `n` is right behind a `>`, where the text starts at `i`.
abbrev Behind : Bytes → ℕ → ℕ → Type 0
Behind text i n = (k : ℕ) × (n ≡ i + suc k) × (is_at text k b'>' ≡ true)

starts_with-at :
    (s p : Bytes) (j c : ℕ) → starts_with s p ≡ true → is_at p j c ≡ true → is_at s j c ≡ true
unfolding starts_with
starts_with-at s [] j c h e = cc
starts_with-at [] (b ∷ p) j c h e = cc
starts_with-at (a ∷ s) (b ∷ p) zero c h e = ground arith
starts_with-at (a ∷ s) (b ∷ p) (suc j) c h e = starts_with-at s p j c (ground arith) e

at-drop : (text : Bytes) (i k c : ℕ) → is_at (drop i text) k c ≡ true → is_at text (i + k) c ≡ true
at-drop text i k c h = ground (arith, get_elem?-drop i text k)

Behind-drop : (text : Bytes) (i n : ℕ) → Behind (drop i text) i n → Behind text 0 n
Behind-drop text i n (k, e, h) = (i + k, omega arith, at-drop text i k b'>' h)

close_at-Behind : (text : Bytes) (i n : ℕ) → close_at text i ≡ some n → Behind text 0 n
close_at-Behind text i n h = (i, ground arith, ground arith)

open-Behind : (text : Bytes) (n : ℕ) → open_tag_len text ≡ some n → Behind text 0 n
unfolding open_tag_len
open-Behind text n h = elim (Bool-cases (is_at text 0 b'<')) [
  | inr e ↦ absurd (ground arith)
  | inl e ↦
      let (m, f, g) =
        bind-some (tag_name_len text 1)
          (λ m.
            let i = re_space text (attributes_end (length text) text (1 + m)) in
            close_at text (if is_at text i b'/' then i + 1 else i))
          (rw e at h) in
      let i = re_space text (attributes_end (length text) text (1 + m)) in
      close_at-Behind text (if is_at text i b'/' then i + 1 else i) n g
]

close-Behind : (text : Bytes) (n : ℕ) → close_tag_len text ≡ some n → Behind text 0 n
unfolding close_tag_len
close-Behind text n h = elim (Bool-cases (starts_with text (codes "</"))) [
  | inr e ↦ absurd (ground arith)
  | inl e ↦
      let (m, f, g) =
        bind-some (tag_name_len text 2) (λ m. close_at text (re_space text (2 + m))) (rw e at h) in
      close_at-Behind text (re_space text (2 + m)) n g
]

comment_loop-Behind :
    (fuel : ℕ) (text : Bytes) (i n : ℕ) → comment_loop fuel text i ≡ some n → Behind text 0 n
unfolding comment_loop
comment_loop-Behind zero text i n h = cc
comment_loop-Behind (suc fuel) text i n h =
    elim (Bool-cases (starts_with (drop i text) (codes "-->"))) [
      | inl e ↦ (
        i + 2,
        ground arith,
        at-drop text i 2 b'>' (starts_with-at (drop i text) (codes "-->") 2 b'>' e refl),
      )
      | inr e ↦
          let j = if is_at text i b'-' then i + 1 else i in
          elim (Bool-cases (not (ltb j (length text)) || is_at text j b'-')) [
            | inl f ↦ absurd (ground arith)
            | inr f ↦ comment_loop-Behind fuel text (j + 1) n (ground arith)
          ]
    ]

comment-Behind : (text : Bytes) (n : ℕ) → html_comment_len text ≡ some n → Behind text 0 n
unfolding html_comment_len
comment-Behind text n h =
    let i : ℕ = if is_at text 4 b'-' then 5 else 4 in
    elim (Bool-cases (starts_with text (codes "<!---->"))) [
      | inl e ↦ (6, ground arith, starts_with-at text (codes "<!---->") 6 b'>' e refl)
      | inr e ↦ comment_loop-Behind (length text + 1) text (i + 1) n (ground arith)
    ]

instruction_loop-Behind : (cs : Bytes) (i n : ℕ) → instruction_loop cs i ≡ some n → Behind cs i n
unfolding instruction_loop
instruction_loop-Behind [] i n h = cc
instruction_loop-Behind (c ∷ []) i n h = cc
instruction_loop-Behind (c ∷ d ∷ cs) i n h = elim (Bool-cases (c == b'?' && d == b'>')) [
  | inl e ↦ (1, ground arith, ground arith)
  | inr e ↦
      let (k, f, g) = instruction_loop-Behind (d ∷ cs) (i + 1) n (ground arith) in
      (suc k, omega arith, g)
]

instruction-Behind :
    (text : Bytes) (n : ℕ) → processing_instruction_len text ≡ some n → Behind text 0 n
unfolding processing_instruction_len
instruction-Behind text n h =
    Behind-drop text 2 n (instruction_loop-Behind (drop 2 text) 2 n (ground arith))

cdata_loop-Behind : (cs : Bytes) (i n : ℕ) → cdata_loop cs i ≡ some n → Behind cs i n
unfolding cdata_loop
cdata_loop-Behind [] i n h = cc
cdata_loop-Behind (a ∷ []) i n h = cc
cdata_loop-Behind (a ∷ b ∷ []) i n h = cc
cdata_loop-Behind (a ∷ b ∷ c ∷ cs) i n h = elim (Bool-cases (a == b']' && b == b']' && c == b'>')) [
  | inl e ↦ (2, ground arith, ground arith)
  | inr e ↦
      let (k, f, g) = cdata_loop-Behind (b ∷ c ∷ cs) (i + 1) n (ground arith) in
      (suc k, omega arith, g)
]

cdata-Behind : (text : Bytes) (n : ℕ) → cdata_len text ≡ some n → Behind text 0 n
unfolding cdata_len
cdata-Behind text n h = Behind-drop text 9 n (cdata_loop-Behind (drop 9 text) 9 n (ground arith))

angle_found :
    (text : Bytes) (i : ℕ)
    → skip_while (λ b. not (b == b'>')) text i < length text
    → is_at text (skip_while (λ b. not (b == b'>')) text i) b'>' ≡ true
angle_found text i lt =
    let inside = λ (b : ℕ). not (b == b'>') in
    let k = skip_while inside text i in
    let here = get_elem?-get_or text k 0 lt in
    ground (arith, here, skip_while-stop inside text i (get_or text k 0) here)

declaration-Behind : (text : Bytes) (n : ℕ) → declaration_len text ≡ some n → Behind text 0 n
unfolding declaration_len
declaration-Behind text n h =
    let after = re_space text (skip_while is_letter text 2) in
    let close = skip_while (λ b. not (b == b'>')) text after in
    (close, ground arith, angle_found text after (ground arith))

or_else-some : (a b : Option ℕ) (n : ℕ) → (a or_else b) ≡ some n → (a ≡ some n) ⊎ (b ≡ some n)
or_else-some none b n h = inr h
or_else-some (some a) b n h = inl h

-- What all six have in common.
abbrev IsTag : Bytes → ℕ → Type 0
IsTag text n = (is_at text 0 b'<' ≡ true) × Behind text 0 n

module _ (text : Bytes) (n : ℕ) where
  open-IsTag : open_tag_len text ≡ some n → IsTag text n
  unfolding open_tag_len
  open-IsTag h = (ground arith, open-Behind text n h)

  close-IsTag : close_tag_len text ≡ some n → IsTag text n
  unfolding close_tag_len
  close-IsTag h = (ground (arith, starts_with-at text (codes "</") 0 b'<'), close-Behind text n h)

  comment-IsTag : html_comment_len text ≡ some n → IsTag text n
  unfolding html_comment_len
  comment-IsTag h = (
    ground (
      arith,
      starts_with-at text (codes "<!---->") 0 b'<',
      starts_with-at text (codes "<!--") 0 b'<',
    ),
    comment-Behind text n h,
  )

  instruction-IsTag : processing_instruction_len text ≡ some n → IsTag text n
  unfolding processing_instruction_len
  instruction-IsTag h =
      (ground (arith, starts_with-at text (codes "<?") 0 b'<'), instruction-Behind text n h)

  declaration-IsTag : declaration_len text ≡ some n → IsTag text n
  unfolding declaration_len
  declaration-IsTag h =
      (ground (arith, starts_with-at text (codes "<!") 0 b'<'), declaration-Behind text n h)

  cdata-IsTag : cdata_len text ≡ some n → IsTag text n
  unfolding cdata_len
  cdata-IsTag h =
      (ground (arith, starts_with-at text (codes "<![CDATA[") 0 b'<'), cdata-Behind text n h)

  prefix-IsTag : html_tag_prefix_len text ≡ some n → IsTag text n
  unfolding html_tag_prefix_len
  prefix-IsTag h = elim (or_else-some _ (cdata_len text) n h) [
    | inr e ↦ cdata-IsTag e
    | inl h' ↦ elim (or_else-some _ (declaration_len text) n h') [
      | inr e ↦ declaration-IsTag e
      | inl h' ↦ elim (or_else-some _ (processing_instruction_len text) n h') [
        | inr e ↦ instruction-IsTag e
        | inl h' ↦ elim (or_else-some _ (html_comment_len text) n h') [
          | inr e ↦ comment-IsTag e
          | inl h' ↦ elim (or_else-some (open_tag_len text) (close_tag_len text) n h') [
            | inr e ↦ close-IsTag e
            | inl e ↦ open-IsTag e
          ]
        ]
      ]
    ]
  ]

-- Whichever of the six patterns matches, the match starts with `<`, ends with `>` and lies within
-- the text.
pub html_tag_prefix_len-ends :
    (text : Bytes) (n : ℕ)
    → html_tag_prefix_len text ≡ some n
    → (is_at text 0 b'<' ≡ true) × (is_at text (n - 1) b'>' ≡ true) × (n ≤ length text)
html_tag_prefix_len-ends text n h =
    let (start, (k, e, angle)) = prefix-IsTag text n h in
    let here : k ≡ n - 1 = omega arith in
    (
      start,
      subst (λ (x : ℕ). is_at text x b'>' ≡ true) here angle,
      omega (arith, at-length text k b'>' angle),
    )
