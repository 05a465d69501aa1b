-- ===== src/Esc/Refine.antt =====
-- src/esc.rs: the escaping loop against a description that has no `start` and `end`.
use blackfriday_2_rust.Base.{
  ℕ, zero, suc, ◌+◌, ◌≡◌, refl, sym, ap, ◌∙◌, Bool, true, false, not, ◌&&◌, Option, none, some, inl,
  inr, [], ◌∷◌, ◌++◌, append-nil, append_assoc, length-append, take-append-drop, arith, ◌==◌,
  Bool-cases, Option-cases, if◌then◌else◌, Bytes, is_at, take, drop, length, count_while, slice,
  slice-append,
}
use blackfriday_2_rust.Util.{is_alnum}
use blackfriday_2_rust.Esc.{
  html_escape_seq, scan_entity, node_is_entity, escape_loop, escape_entities,
}
use blackfriday_2_rust.Esc.Entity.{entity_tail, Agrees, scan_entity-Agrees}

-- The bytes behind an `&` that are copied with it.
unfoldable pub kept : Bool → ℕ → Bytes → Option ℕ
kept all c cs = if not all && c == b'&' then entity_tail (c ∷ []) cs else none

unfoldable pub escape_byte : ℕ → Bytes
escape_byte c = elim (html_escape_seq c) [ none ↦ c ∷ [] | some esc_seq ↦ esc_seq ]

-- The escaped text, where the first bytes, as many as the number says, are already written.
unfoldable pub escaped : Bool → ℕ → Bytes → Bytes
unfolding kept escape_byte
escaped all k [] = []
escaped all (suc k) (c ∷ cs) = escaped all k cs
escaped all zero (c ∷ cs) = elim (kept all c cs) [
  | none ↦ escape_byte c ++ escaped all zero cs
  | some n ↦ (c ∷ take n cs) ++ escaped all n cs
]

-- The first `k` bytes are there, and none of them is escaped.
abbrev pub Plain : ℕ → Bytes → Type 0
Plain zero cs = Unit
Plain (suc k) [] = ⊥
Plain (suc k) (c ∷ cs) = (html_escape_seq c ≡ none) × Plain k cs

pub Plain-length : (k : ℕ) (cs : Bytes) → Plain k cs → length (take k cs) ≡ k
Plain-length zero cs p = refl
Plain-length (suc k) [] p = absurd p
Plain-length (suc k) (c ∷ cs) p = ap suc (Plain-length k cs p.1)

html_escape_seq-alnum : (c : ℕ) → is_alnum c ≡ true → html_escape_seq c ≡ none
unfolding html_escape_seq is_alnum
html_escape_seq-alnum c a = ground arith

pub Plain-run :
    (cs : Bytes)
    → is_at cs (count_while is_alnum cs) b';' ≡ true
    → Plain (suc (count_while is_alnum cs)) cs
unfolding count_while html_escape_seq is_alnum
Plain-run [] h = cc
Plain-run (c ∷ cs) h = elim (Bool-cases (is_alnum c)) [
  | inl a ↦ rw (a, count_while) (html_escape_seq-alnum c a, Plain-run cs (rw (a, count_while) at h))
  | inr a ↦ rw (a, count_while) (ground arith, tt)
]

pub kept-Plain : (all : Bool) (c n : ℕ) (cs : Bytes) → kept all c cs ≡ some n → Plain n cs
unfolding kept entity_tail
kept-Plain all c n cs h = ground (arith, Plain-run cs)

abbrev Verdict : Bool → ℕ → Option ℕ → ℕ → Type 0
Verdict b entity_end none end = b ≡ false
Verdict b entity_end (some n) end = (b ≡ true) × (entity_end + 1 ≡ end + 1 + n)

scan_entity-kept :
    (all : Bool) (r : Bool × ℕ) (t : Option ℕ) (end : ℕ)
    → Agrees r t (end + 1)
    → Verdict (r.0 && not all) r.1 (if not all && true then t else none) end
scan_entity-kept false r none end a = ground arith
scan_entity-kept false r (some n) end a = ground arith
scan_entity-kept true r t end a = ground arith

node_is_entity-kept :
    (all : Bool) (end c : ℕ) (cs : Bytes)
    → (b : Bool) × (e : ℕ) × (node_is_entity end (c ∷ cs) ≡ some (b, e))
      × Verdict (b && not all) e (kept all c cs) end
unfolding node_is_entity kept
node_is_entity-kept all end c cs = elim (Bool-cases (c == b'&')) [
  | inl amp ↦
      let c_is : c ≡ b'&' = ground arith in
      let r = scan_entity (b'&' ∷ []) cs (end + 1) in
      rw c_is (
        r.0,
        r.1,
        refl,
        scan_entity-kept all r (entity_tail (b'&' ∷ []) cs) end
            (scan_entity-Agrees [] cs (end + 1)),
      )
  | inr other ↦ (false, end + 1, ground arith, ground arith)
]

-- What the written prefix `xs`, the unwritten bytes `ys` and the count of bytes written ahead say of
-- `start` and `end`; one of the last two is empty.
abbrev Ahead : ℕ → Bytes → Type 0
Ahead zero ys = Unit
Ahead (suc k) ys = ys ≡ []

Ahead-nil : (k : ℕ) → Ahead k []
Ahead-nil zero = tt
Ahead-nil (suc k) = refl

escape_loop-end :
    (all : Bool) (s xs ys out : Bytes) (start end : ℕ)
    → s ≡ xs ++ (ys ++ [])
    → start ≡ length xs
    → end ≡ length xs + length ys
    → escape_loop all s start end [] out ≡ some (out ++ (ys ++ []))
unfolding escape_loop
escape_loop-end all s xs [] out start end es e₁ e₂ =
    ground (arith, ap (length {A = ℕ}) es, length-append xs [], append-nil out)
escape_loop-end all s xs (y ∷ ys) out start end es e₁ e₂ =
    rw (slice-append s xs (y ∷ ys) [] start end es e₁ e₂)
      (ground (arith, ap (length {A = ℕ}) es, length-append xs ((y ∷ ys) ++ []), append-nil ys))

pub kept-none : (all : Bool) (c : ℕ) (cs : Bytes) → html_escape_seq c ≡ none → kept all c cs ≡ none
unfolding kept html_escape_seq
kept-none all c cs h = ground arith

regroup : (s xs ys zs : Bytes) (c : ℕ) → s ≡ xs ++ (ys ++ c ∷ zs) → s ≡ xs ++ ((ys ++ c ∷ []) ++ zs)
regroup s xs ys zs c e = e ∙ ap (◌++◌ xs) (sym (append_assoc ys (c ∷ []) zs))

module _ (all : Bool) (s out : Bytes) (start end c : ℕ) (cs : Bytes) where
  escape_loop-plain :
      html_escape_seq c ≡ none
      → escape_loop all s start end (c ∷ cs) out ≡ escape_loop all s start (end + 1) cs out
  unfolding escape_loop
  escape_loop-plain h = rw (h, escape_loop)

  module _ (q : Bytes) (b : Bool) (e : ℕ) (special : html_escape_seq c ≡ some q)
      (found : node_is_entity end (c ∷ cs) ≡ some (b, e)) (piece : Bytes) where
    escape_loop-kept :
        (b && not all) ≡ true
        → slice s start (e + 1) ≡ some piece
        → escape_loop all s start end (c ∷ cs) out
          ≡ escape_loop all s (e + 1) (end + 1) cs (out ++ piece)
    unfolding escape_loop
    escape_loop-kept h t = ground arith

    escape_loop-seq :
        (b && not all) ≡ false
        → slice s start end ≡ some piece
        → escape_loop all s start end (c ∷ cs) out
          ≡ escape_loop all s (end + 1) (end + 1) cs (out ++ (piece ++ q))
    unfolding escape_loop
    escape_loop-seq h t = ground arith

module _ (all : Bool) (c : ℕ) (cs : Bytes) where
  pub escaped-seq :
      (q : Bytes)
      → html_escape_seq c ≡ some q
      → kept all c cs ≡ none
      → escaped all zero (c ∷ cs) ≡ q ++ escaped all zero cs
  unfolding escaped
  escaped-seq q special h = ground arith

  pub escaped-kept :
      (n : ℕ)
      → kept all c cs ≡ some n
      → escaped all zero (c ∷ cs) ≡ (c ∷ take n cs) ++ escaped all n cs
  unfolding escaped
  escaped-kept n h = rw (h, escaped)

-- Both branches at an escaped byte go on behind it, with nothing unwritten.
onwards :
    (s xs ys rest : Bytes) (c : ℕ) → s ≡ xs ++ (ys ++ c ∷ rest) → s ≡ (xs ++ (ys ++ c ∷ [])) ++ rest
onwards s xs ys rest c e = e ∙ simp append_assoc

length-onwards : (xs ys : Bytes) (c : ℕ) → length (xs ++ (ys ++ c ∷ [])) ≡ length xs + length ys + 1
length-onwards xs ys c = omega (arith, length-append xs (ys ++ c ∷ []), length-append ys (c ∷ []))

cut :
    (s xs ys rest : Bytes) (c n : ℕ)
    → s ≡ xs ++ (ys ++ c ∷ rest)
    → s ≡ xs ++ ((ys ++ (c ∷ take n rest)) ++ drop n rest)
cut s xs ys rest c n e = e ∙ simp (append_assoc, take-append-drop)

escape_loop-escaped :
    (all : Bool) (s : Bytes) (k : ℕ) (xs ys rest out : Bytes) (start end : ℕ)
    → s ≡ xs ++ (ys ++ rest)
    → start ≡ length xs + k
    → end ≡ length xs + length ys
    → Ahead k ys
    → Plain k rest
    → escape_loop all s start end rest out ≡ some (out ++ (ys ++ escaped all k rest))
unfolding escaped
escape_loop-escaped all s zero xs ys [] out start end es e₁ e₂ a p =
    escape_loop-end all s xs ys out start end es (omega arith) e₂
escape_loop-escaped all s (suc k) xs ys [] out start end es e₁ e₂ a p = absurd p
escape_loop-escaped all s (suc k) xs ys (c ∷ rest) out start end es e₁ e₂ a p =
    escape_loop-plain all s out start end c rest p.0
    ∙ (escape_loop-escaped all s k (xs ++ c ∷ []) [] rest out start (end + 1)
          (rw a at es ∙ sym (append_assoc xs (c ∷ []) rest))
          (omega (arith, length-append xs (c ∷ [])))
          (omega (arith, length-append xs (c ∷ []), ap (length {A = ℕ}) a)) (Ahead-nil k) p.1
        ∙ rw a)
escape_loop-escaped all s zero xs ys (c ∷ rest) out start end es e₁ e₂ a p =
    elim (Option-cases (html_escape_seq c)) [
      | inl plain ↦
          escape_loop-plain all s out start end c rest plain
          ∙ escape_loop-escaped all s zero xs (ys ++ c ∷ []) rest out start (end + 1)
              (regroup s xs ys rest c es) e₁ (omega (arith, length-append ys (c ∷ []))) tt tt
          ∙ ap some (
              ground (
                arith,
                append_assoc ys (c ∷ []) (escaped all zero rest),
                kept-none all c rest plain,
              ))
      | inr (q, special) ↦
          let (b, e, found, v) = node_is_entity-kept all end c rest in
          elim (Option-cases (kept all c rest)) [
            | inl no_entity ↦
                escape_loop-seq all s out start end c rest q b e special found ys
                  (rw no_entity at v)
                  (slice-append s xs ys (c ∷ rest) start end es (omega arith) e₂)
                ∙ escape_loop-escaped all s zero (xs ++ (ys ++ c ∷ [])) [] rest (out ++ (ys ++ q))
                    (end + 1) (end + 1) (onwards s xs ys rest c es)
                    (omega (arith, length-onwards xs ys c)) (omega (arith, length-onwards xs ys c))
                    tt tt
                ∙ simp (escaped-seq all c rest q special no_entity, append_assoc)
            | inr (n, entity) ↦
                let (taken, at_end) = rw entity at v in
                let plain = kept-Plain all c n rest entity in
                escape_loop-kept all s out start end c rest q b e special found
                  (ys ++ (c ∷ take n rest)) taken
                  (slice-append s xs (ys ++ (c ∷ take n rest)) (drop n rest) start (e + 1)
                    (cut s xs ys rest c n es) (omega arith)
                    (omega (arith, length-append ys (c ∷ take n rest), Plain-length n rest plain)))
                ∙ escape_loop-escaped all s n (xs ++ (ys ++ c ∷ [])) [] rest
                    (out ++ (ys ++ (c ∷ take n rest))) (e + 1) (end + 1) (onwards s xs ys rest c es)
                    (omega (arith, length-onwards xs ys c)) (omega (arith, length-onwards xs ys c))
                    (Ahead-nil n) plain
                ∙ simp (escaped-kept all c rest n entity, append_assoc)
          ]
    ]

-- The escaper never panics, and its output is what was there followed by the escaped text: byte by
-- byte the escape sequence or the byte itself, and, unless valid entities are escaped too, every
-- entity of the table that ends with `;` as it stands. A name of the table that stands without its
-- `;`, as in `&amp`, is escaped.
pub escape_entities-escaped :
    (out s : Bytes) (all : Bool) → escape_entities out s all ≡ some (out ++ escaped all zero s)
unfolding escape_entities
escape_entities-escaped out s all =
    escape_loop-escaped all s zero [] [] s out 0 0 refl refl refl tt tt
