-- ===== src/Unescape/Ends.antt =====
-- src/unescape.rs: how far a reference goes, and the loop of `unescape_string` against a description
-- that takes the text byte by byte.
use blackfriday_2_rust.Base.{
  ℕ, zero, suc, ◌+◌, ◌-◌, ◌*◌, ◌%◌, ◌^◌, ◌≤◌, ◌<◌, ◌≡◌, ◌≢◌, inl, inr, refl, sym, ap, ◌∙◌, min,
  Bool, true, false, ◌||◌, Bool-cases, Option-cases, some, [], ◌∷◌, ◌++◌, append-nil, append_assoc,
  ◌==◌, arith, if◌then◌else◌, Bytes, length, length-take, length-drop, drop_over, is_at, at-length,
  take, drop, take-append-drop, count_while, count_while-le,
}
use blackfriday_2_rust.Unescape.{
  digit_value, digits_loop, unescape_numeric, is_name_byte, name_end, longest_prefix,
  unescape_named, unescape_entity, is_plain, unescape_loop, unescape_string,
}

digits_loop-end :
    (hex : Bool) (cs : Bytes) (i x : ℕ)
    → (i ≤ (digits_loop hex cs i x).0) × ((digits_loop hex cs i x).0 ≤ i + length cs)
unfolding digits_loop
digits_loop-end hex [] i x = (omega arith, omega arith)
digits_loop-end hex (c ∷ cs) i x = elim (Option-cases (digit_value hex c)) [
  | inl e ↦ rw (e, digits_loop) (ground arith, ground arith)
  | inr (d, e) ↦
      let ih = digits_loop-end hex cs (i + 1) ((x * (if hex then 16 else 10) + d) % 2 ^ 32) in
      rw (e, digits_loop) (omega (arith, ih), omega (arith, ih))
]

-- Between one byte and the whole text is taken.
abbrev Taken : Bytes → ℕ → Type 0
Taken s n = (1 ≤ n) × (n ≤ length s)

numeric-Taken : (s : Bytes) → 1 ≤ length s → Taken s (unescape_numeric s).1
unfolding unescape_numeric
numeric-Taken s h =
    let hex = is_at s 2 b'x' || is_at s 2 b'X' in
    let start : ℕ = if hex then 3 else 2 in
    ground (arith, digits_loop-end hex (drop start s) start 0, length-drop start s)

name_end-le : (s : Bytes) → 1 ≤ length s → Taken s (name_end s)
unfolding name_end
name_end-le s h =
    let n = 1 + count_while is_name_byte (drop 1 s) in
    ground (arith, count_while-le is_name_byte (drop 1 s), length-drop 1 s, at-length s n b';')

longest_prefix-le :
    (j : ℕ) (name : Bytes) (x k : ℕ) → longest_prefix j name ≡ some (x, k) → (1 ≤ k) × (k ≤ j)
unfolding longest_prefix
longest_prefix-le zero name x k h = cc
longest_prefix-le (suc zero) name x k h = cc
longest_prefix-le (suc (suc j)) name x k h = ground (arith, longest_prefix-le (suc j) name x k)

named-Taken : (s : Bytes) → 1 ≤ length s → Taken s (unescape_named s).1
unfolding unescape_named
named-Taken s h =
    let i = name_end s in
    let name = take (i - 1) (drop 1 s) in
    let within = name_end-le s h in
    let size : length name ≡ i - 1 =
      omega (arith, length-take (i - 1) (drop 1 s), length-drop 1 s) in
    elim (Option-cases (longest_prefix (min (length name - 1) 6) name)) [
      | inl none_found ↦ ground arith
      | inr ((x, k), found) ↦
          ground (arith, longest_prefix-le (min (length name - 1) 6) name x k found)
    ]

entity-Taken : (s : Bytes) → 1 ≤ length s → Taken s (unescape_entity s).1
unfolding unescape_entity
entity-Taken s h = ground (arith, numeric-Taken s, named-Taken s)

-- The text with its references replaced, where the first `k` bytes are taken already.
unfoldable pub unescaped : ℕ → Bytes → Bytes
unescaped k [] = []
unescaped (suc k) (c ∷ cs) = unescaped k cs
unescaped zero (c ∷ cs) = elim (c == b'&') [
  | true ↦ let r = unescape_entity (c ∷ cs) in r.0 ++ unescaped (r.1 - 1) cs
  | false ↦ c ∷ unescaped zero cs
]

drop-nil : (n : ℕ) → drop {A = ℕ} n [] ≡ []
drop-nil zero = refl
drop-nil (suc n) = refl

drop-drop : (i n : ℕ) (s : Bytes) → drop (i + n) s ≡ drop n (drop i s)
drop-drop zero n s = ap (λ (k : ℕ). drop k s) {x = 0 + n} {y = n} (omega arith)
drop-drop (suc i) n [] = drop-nil (suc i + n) ∙ sym (drop-nil n)
drop-drop (suc i) n (c ∷ s) =
    ap (λ (k : ℕ). drop k (c ∷ s)) {x = suc i + n} {y = suc (i + n)} (omega arith) ∙ drop-drop i n s

drop_pred : (n c : ℕ) (s : Bytes) → 1 ≤ n → drop n (c ∷ s) ≡ drop (n - 1) s
drop_pred zero c s h = absurd (omega arith)
drop_pred (suc n) c s h = ap (λ (k : ℕ). drop k s) {x = n} {y = suc n - 1} (omega arith)

pub unescaped-drop : (k : ℕ) (s : Bytes) → unescaped k s ≡ unescaped zero (drop k s)
unfolding unescaped
unescaped-drop zero s = refl
unescaped-drop (suc k) [] = refl
unescaped-drop (suc k) (c ∷ s) = unescaped-drop k s

module _ (c : ℕ) (s : Bytes) where
  count_amp : (c == b'&') ≡ true → count_while is_plain (c ∷ s) ≡ 0
  unfolding count_while
  count_amp e = rw e refl

  count_plain : (c == b'&') ≡ false → count_while is_plain (c ∷ s) ≡ suc (count_while is_plain s)
  unfolding count_while
  count_plain e = rw e refl

  pub unescaped_plain : (c == b'&') ≡ false → unescaped zero (c ∷ s) ≡ c ∷ unescaped zero s
  unfolding unescaped
  unescaped_plain e = rw (e, unescaped) refl

  pub unescaped_amp :
      (c == b'&') ≡ true
      → unescaped zero (c ∷ s)
        ≡ (unescape_entity (c ∷ s)).0 ++ unescaped zero (drop (unescape_entity (c ∷ s)).1 (c ∷ s))
  unfolding unescaped
  unescaped_amp e =
      let r = unescape_entity (c ∷ s) in
      rw (e, unescaped)
        (ap (λ (x : Bytes). r.0 ++ x)
          (unescaped-drop (r.1 - 1) s
            ∙ ap (unescaped zero) (sym (drop_pred r.1 c s (entity-Taken (c ∷ s) (omega arith)).0))))

-- Up to the first `&` the text is copied.
unescaped-run :
    (s : Bytes)
    → unescaped zero s
      ≡ take (count_while is_plain s) s ++ unescaped zero (drop (count_while is_plain s) s)
unfolding unescaped count_while
unescaped-run [] = refl
unescaped-run (c ∷ s) = elim (Bool-cases (c == b'&')) [
  | inl amp ↦ rw (count_amp c s amp) refl
  | inr plain ↦
      rw (count_plain c s plain) (unescaped_plain c s plain ∙ ap (◌∷◌ c) (unescaped-run s))
]

unescaped-amp :
    (s : Bytes)
    → is_at s 0 b'&' ≡ true
    → unescaped zero s ≡ (unescape_entity s).0 ++ unescaped zero (drop (unescape_entity s).1 s)
unescaped-amp [] h = cc
unescaped-amp (c ∷ s) h = unescaped_amp c s h

run_stop :
    (s : Bytes)
    → count_while is_plain s ≢ length s
    → is_at (drop (count_while is_plain s) s) 0 b'&' ≡ true
unfolding count_while
run_stop [] h = absurd (omega arith)
run_stop (c ∷ s) h = elim (Bool-cases (c == b'&')) [
  | inl amp ↦ rw (count_amp c s amp) amp
  | inr plain ↦ rw (count_plain c s plain) (run_stop s (λ e. h (count_plain c s plain ∙ ap suc e)))
]

-- What the text is up to its first reference, and behind it.
unescaped-next :
    (s : Bytes)
    → count_while is_plain s ≢ length s
    → let i = count_while is_plain s in
      let r = unescape_entity (drop i s) in
      unescaped zero s ≡ (take i s ++ r.0) ++ unescaped zero (drop (i + r.1) s)
unescaped-next s h =
    let i = count_while is_plain s in
    let r = unescape_entity (drop i s) in
    unescaped-run s
    ∙ ap (λ (x : Bytes). take i s ++ x)
        (unescaped-amp (drop i s) (run_stop s h)
          ∙ ap (λ (x : Bytes). r.0 ++ unescaped zero x) (sym (drop-drop i r.1 s)))
    ∙ sym (append_assoc (take i s) r.0 (unescaped zero (drop (i + r.1) s)))

unescaped-all : (s : Bytes) → count_while is_plain s ≡ length s → unescaped zero s ≡ s
unfolding unescaped
unescaped-all s e =
    let i = count_while is_plain s in
    let d : drop i s ≡ [] = drop_over i s (omega arith) in
    unescaped-run s
    ∙ ap (λ (x : Bytes). take i s ++ x) (ap (unescaped zero) d ∙ sym d)
    ∙ take-append-drop i s

-- Behind a reference there is less.
rest_less :
    (s : Bytes)
    → count_while is_plain s ≢ length s
    → let i = count_while is_plain s in
      length (drop (i + (unescape_entity (drop i s)).1) s) < length s
rest_less s h =
    let i = count_while is_plain s in
    let n = (unescape_entity (drop i s)).1 in
    omega (
      arith,
      count_while-le is_plain s,
      length-drop i s,
      length-drop (i + n) s,
      entity-Taken (drop i s) (omega (arith, count_while-le is_plain s, length-drop i s)),
    )

loop_copy :
    (fuel : ℕ) (s out : Bytes)
    → count_while is_plain s ≡ length s
    → unescape_loop (suc fuel) s out ≡ some (out ++ s)
unfolding unescape_loop
loop_copy fuel [] out e = ap some (sym (append-nil out))
loop_copy fuel (c ∷ s) out e = ground arith

loop_next :
    (fuel : ℕ) (s out : Bytes)
    → count_while is_plain s ≢ length s
    → let i = count_while is_plain s in
      let r = unescape_entity (drop i s) in
      unescape_loop (suc fuel) s out
      ≡ unescape_loop fuel (drop (i + r.1) s) (out ++ (take i s ++ r.0))
unfolding unescape_loop count_while
loop_next fuel [] out ne = absurd (omega arith)
loop_next fuel (c ∷ s) out ne = ground arith

loop-unescaped :
    (fuel : ℕ) (s out : Bytes)
    → length s < fuel
    → unescape_loop fuel s out ≡ some (out ++ unescaped zero s)
loop-unescaped zero s out h = absurd (omega arith)
loop-unescaped (suc fuel) s out h =
    let i = count_while is_plain s in
    let r = unescape_entity (drop i s) in
    elim (Bool-cases (i == length s)) [
      | inl e ↦
          let end : i ≡ length s = ground arith in
          loop_copy fuel s out end ∙ ap (λ (x : Bytes). some (out ++ x)) (sym (unescaped-all s end))
      | inr e ↦
          let ne : i ≢ length s = ground arith in
          loop_next fuel s out ne
          ∙ loop-unescaped fuel (drop (i + r.1) s) (out ++ (take i s ++ r.0))
              (omega (arith, rest_less s ne))
          ∙ ap some (
              append_assoc out (take i s ++ r.0) (unescaped zero (drop (i + r.1) s))
              ∙ ap (λ (x : Bytes). out ++ x) (sym (unescaped-next s ne)))
    ]

-- The decoder ends on every text and gives what the description gives, which takes the text byte by
-- byte: bytes that start no reference as they are, and what `unescape_entity` writes for each `&`.
pub unescape_string-unescaped : (s : Bytes) → unescape_string s ≡ some (unescaped zero s)
unfolding unescape_string
unescape_string-unescaped s =
    let i = count_while is_plain s in
    let r = unescape_entity (drop i s) in
    elim (Bool-cases (i == length s)) [
      | inl e ↦ let end : i ≡ length s = ground arith in rw e (ap some (sym (unescaped-all s end)))
      | inr e ↦
          let ne : i ≢ length s = ground arith in
          rw e (
            loop-unescaped (length s + 1) (drop (i + r.1) s) (take i s ++ r.0)
              (omega (arith, rest_less s ne))
            ∙ ap some (sym (unescaped-next s ne)))
    ]
