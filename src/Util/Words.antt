-- ===== src/Util/Words.antt =====
-- src/util.rs, `slugify`: the runs of letters and digits of a text, and that its first loop keeps them.
use blackfriday_2_rust.Base.{
  ℕ, zero, suc, ◌≤◌, ◌<◌, ◌≡◌, refl, sym, ap, ◌∙◌, Bool, true, false, inl, inr, List, [], ◌∷◌, ◌++◌,
  arith, ◌==◌, if◌then◌else◌, Bool-cases, Bytes, length, is_at, take,
}
use blackfriday_2_rust.Util.{is_alnum, slug_bytes}

-- A run that is at its end; an empty one does not count.
abbrev flush : Bytes → List Bytes → List Bytes
flush [] ws = ws
flush (c ∷ run) ws = (c ∷ run) ∷ ws

-- The runs of a text behind a run that has begun.
unfoldable pub runs : Bytes → Bytes → List Bytes
runs run [] = flush run []
runs run (c ∷ s) = if is_alnum c then runs (run ++ c ∷ []) s else flush run (runs [] s)

-- The longest runs of letters and digits of a text, in order.
abbrev pub words : Bytes → List Bytes
words s = runs [] s

runs-other : (run s : Bytes) (c : ℕ) → is_alnum c ≡ false → runs run (c ∷ s) ≡ flush run (runs [] s)
unfolding runs
runs-other run s c h = rw (h, runs) refl

runs-alnum : (run s : Bytes) (c : ℕ) → is_alnum c ≡ true → runs run (c ∷ s) ≡ runs (run ++ c ∷ []) s
unfolding runs
runs-alnum run s c h = rw (h, runs) refl

dash-other : (c : ℕ) → (c == b'-') ≡ true → is_alnum c ≡ false
unfolding is_alnum
dash-other c h = ground arith

-- A byte that is no letter or digit counts once, however many of them stand in a row.
runs-slug_bytes :
    (s run : Bytes) (b : Bool) → (b ≡ true → run ≡ []) → runs run (slug_bytes s b) ≡ runs run s
unfolding slug_bytes
runs-slug_bytes [] run b h = refl
runs-slug_bytes (c ∷ s) run b h = elim (Bool-cases (is_alnum c)) [
  | inl a ↦
      rw (a, slug_bytes)
        (runs-alnum run (slug_bytes s false) c a
          ∙ runs-slug_bytes s (run ++ c ∷ []) false (λ e. cc e)
          ∙ sym (runs-alnum run s c a))
  | inr a ↦ elim (Bool-cases b) [
    | inl e ↦
        rw (a, e, slug_bytes)
          (rw (h e) (runs-slug_bytes s [] true (λ e. refl) ∙ sym (runs-other [] s c a)))
    | inr e ↦
        rw (a, e, slug_bytes)
          (runs-other run (slug_bytes s true) b'-' (dash-other b'-' refl)
            ∙ ap (flush run) (runs-slug_bytes s [] true (λ e. refl))
            ∙ sym (runs-other run s c a))
  ]
]

pub words-slug_bytes : (s : Bytes) → words (slug_bytes s false) ≡ words s
words-slug_bytes s = runs-slug_bytes s [] false (λ e. refl)

pub words-dash : (c : ℕ) (s : Bytes) → (c == b'-') ≡ true → words (c ∷ s) ≡ words s
words-dash c s h = runs-other [] s c (dash-other c h)

-- Dashes at the end do not count.
pub runs-take :
    (n : ℕ) (s run : Bytes)
    → ((j : ℕ) → n ≤ j → j < length s → is_at s j b'-' ≡ true)
    → runs run (take n s) ≡ runs run s
unfolding runs
runs-take zero [] run h = refl
runs-take zero (c ∷ s) run h =
    let rest : runs [] (take zero s) ≡ runs [] s =
      runs-take zero s [] (λ j l m. h (suc j) (omega arith) (omega arith)) in
    ap (flush run) rest ∙ sym (runs-other run s c (dash-other c (h 0 (omega arith) (omega arith))))
runs-take (suc n) [] run h = refl
runs-take (suc n) (c ∷ s) run h = elim (Bool-cases (is_alnum c)) [
  | inl a ↦
      runs-alnum run (take n s) c a
      ∙ runs-take n s (run ++ c ∷ []) (λ j l m. h (suc j) (omega arith) (omega arith))
      ∙ sym (runs-alnum run s c a)
  | inr a ↦
      runs-other run (take n s) c a
      ∙ ap (flush run) (runs-take n s [] (λ j l m. h (suc j) (omega arith) (omega arith)))
      ∙ sym (runs-other run s c a)
]
