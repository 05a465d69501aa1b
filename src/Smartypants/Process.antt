-- ===== src/Smartypants/Process.antt =====
-- src/smartypants.rs, `process`: its loop over `mark` and `i` against a description without them.
use blackfriday_2_rust.Base.{
  ℕ, zero, suc, ◌+◌, ◌≤◌, ◌<◌, ◌≡◌, refl, sym, ap, ◌∙◌, Option, none, some, [], ◌∷◌, ◌++◌, arith,
  append-nil, append_assoc, length-append, length-take, length-drop, take, drop, take-append-drop,
  drop_over, slice-append, Bool-cases, Option-cases, Bytes, length, leb, inl, inr,
}
use blackfriday_2_rust.Smartypants.Handlers.{Quotes}
use blackfriday_2_rust.Smartypants.{
  SmartCallback, Callbacks, SpRenderer, dispatch, copy_run, before, process_loop, process,
}
use blackfriday_2_rust.Smartypants.Used.{dispatch-used}

-- The text and the quotes that come of `rest`, where `p` is the byte before it and the first `k`
-- bytes are taken already.
unfoldable pub processed : Callbacks → ℕ → ℕ → Bytes → Quotes → Bytes × Quotes
processed t k p [] q = ([], q)
processed t (suc k) p (c ∷ rest) q = processed t k c rest q
processed t zero p (c ∷ rest) q = elim (t c) [
  | none ↦ let r = processed t zero c rest q in (c ∷ r.0, r.1)
  | some action ↦
      let h = dispatch action q p (c ∷ rest) in
      let r = processed t h.used c rest h.quotes in (h.written ++ r.0, r.1)
]

before-append : (zs rest : Bytes) (c : ℕ) → before (zs ++ c ∷ rest) (suc (length zs)) ≡ c
before-append [] rest c = refl
before-append (z ∷ zs) rest c = before-append zs rest c

before-next :
    (s zs rest : Bytes) (c i : ℕ) → s ≡ zs ++ c ∷ rest → i ≡ length zs + 1 → before s i ≡ c
before-next s zs rest c i e l =
    ap (λ (x : Bytes). before x i) e
    ∙ ap (before (zs ++ c ∷ rest)) {y = suc (length zs)} (omega arith)
    ∙ before-append zs rest c

-- Bytes that are taken already do not show, but the last of them is the byte before the rest.
processed-drop :
    (t : Callbacks) (s zs rest : Bytes) (u i j : ℕ) (q : Quotes)
    → s ≡ zs ++ rest
    → i ≡ length zs
    → j ≡ i + u
    → u ≤ length rest
    → processed t u (before s i) rest q ≡ processed t zero (before s j) (drop u rest) q
unfolding processed
processed-drop t s zs rest zero i j q e l m h =
    ap (λ (k : ℕ). processed t zero (before s k) rest q) (omega arith)
processed-drop t s zs [] (suc u) i j q e l m h = absurd (omega arith)
processed-drop t s zs (c ∷ rest) (suc u) i j q e l m h =
    ap (λ (x : ℕ). processed t u x rest q) (sym (before-next s zs rest c (i + 1) e (omega arith)))
    ∙ processed-drop t s (zs ++ c ∷ []) rest u (i + 1) j q (e ∙ sym (append_assoc zs (c ∷ []) rest))
        (omega (arith, length-append zs (c ∷ []))) (omega arith) (omega arith)

-- The same behind a byte of its own.
processed-behind :
    (t : Callbacks) (s zs rest : Bytes) (c i u : ℕ) (q : Quotes)
    → s ≡ zs ++ c ∷ rest
    → i ≡ length zs
    → u ≤ length rest
    → processed t u c rest q ≡ processed t zero (before s (i + u + 1)) (drop u rest) q
processed-behind t s zs rest c i u q e l h =
    ap (λ (x : ℕ). processed t u x rest q) (sym (before-next s zs rest c (i + 1) e (omega arith)))
    ∙ processed-drop t s (zs ++ c ∷ []) rest u (i + 1) (i + u + 1) q
        (e ∙ sym (append_assoc zs (c ∷ []) rest)) (omega (arith, length-append zs (c ∷ [])))
        (omega arith) h

-- Where every byte of the rest is taken, nothing more is written.
processed-over :
    (t : Callbacks) (u p : ℕ) (rest : Bytes) (q : Quotes)
    → length rest ≤ u
    → processed t u p rest q ≡ ([], q)
unfolding processed
processed-over t u p [] q h = refl
processed-over t zero p (c ∷ rest) q h = absurd (omega arith)
processed-over t (suc u) p (c ∷ rest) q h = processed-over t u c rest q (omega arith)

module _ (t : Callbacks) (s : Bytes) where
  loop_done :
      (fuel mark i : ℕ) (q : Quotes) (out : Bytes)
      → length s ≤ mark
      → process_loop (suc fuel) t s mark i [] q out ≡ some (out, q)
  unfolding process_loop
  loop_done fuel mark i q out h = ground arith

  loop_end :
      (fuel : ℕ) (xs ys : Bytes) (mark i : ℕ) (q : Quotes) (out : Bytes)
      → s ≡ xs ++ (ys ++ [])
      → mark ≡ length xs
      → process_loop (suc fuel) t s mark i [] q out ≡ some (out ++ (ys ++ []), q)
  unfolding process_loop
  loop_end fuel xs [] mark i q out e l =
      ground (arith, ap (length {A = ℕ}) e, length-append xs [], append-nil out)
  loop_end fuel xs (y ∷ ys) mark i q out e l =
      let n = ap (length {A = ℕ}) e in
      rw
        (slice-append s xs (y ∷ ys) [] mark (length s) e l
          (omega (arith, n, length-append xs ((y ∷ ys) ++ []), length-append ys [])))
        (ground (arith, n, length-append xs ((y ∷ ys) ++ []), append-nil ys))

  copy_run-append :
      (xs ys rest : Bytes) (mark i : ℕ) (out : Bytes)
      → s ≡ xs ++ (ys ++ rest)
      → mark ≡ length xs
      → i ≡ length xs + length ys
      → copy_run s mark i out ≡ some (out ++ ys)
  copy_run-append xs [] rest mark i out e l m = ground (arith, append-nil out)
  copy_run-append xs (y ∷ ys) rest mark i out e l m =
      rw (slice-append s xs (y ∷ ys) rest mark i e l m) (ground arith)

  loop_plain :
      (fuel mark i c : ℕ) (rest out : Bytes) (q : Quotes)
      → t c ≡ none
      → process_loop (suc fuel) t s mark i (c ∷ rest) q out
        ≡ process_loop fuel t s mark (i + 1) rest q out
  unfolding process_loop
  loop_plain fuel mark i c rest out q e = rw (e, process_loop) refl

  loop_special :
      (fuel i c : ℕ) (action : SmartCallback) (xs ys rest out : Bytes) (q : Quotes) (mark : ℕ)
      → t c ≡ some action
      → copy_run s mark i out ≡ some (out ++ ys)
      → process_loop (suc fuel) t s mark i (c ∷ rest) q out ≡ (
          let h = dispatch action q (before s i) (c ∷ rest) in
          process_loop fuel t s
            (i + h.used + 1)
            (i + h.used + 1)
            (drop h.used rest)
            h.quotes
            ((out ++ ys) ++ h.written))
  unfolding process_loop
  loop_special fuel i c action xs ys rest out q mark e w = rw (e, process_loop) (rw w refl)

pub processed_plain :
    (t : Callbacks) (p c : ℕ) (rest : Bytes) (q : Quotes)
    → t c ≡ none
    → processed t zero p (c ∷ rest) q ≡ (let r = processed t zero c rest q in (c ∷ r.0, r.1))
unfolding processed
processed_plain t p c rest q e = rw (e, processed) refl

pub processed_special :
    (t : Callbacks) (p c : ℕ) (rest : Bytes) (q : Quotes) (action : SmartCallback)
    → t c ≡ some action
    → processed t zero p (c ∷ rest) q ≡ (
        let h = dispatch action q p (c ∷ rest) in
        let r = processed t h.used c rest h.quotes in (h.written ++ r.0, r.1))
unfolding processed
processed_special t p c rest q action e = rw (e, processed) refl

-- What the loop gives: `ys` is between `mark` and `i`, and `r` comes of the rest.
abbrev result : Bytes → Bytes → Bytes × Quotes → Option (Bytes × Quotes)
result out ys r = some (out ++ (ys ++ r.0), r.1)

result_plain :
    (out ys : Bytes) (c : ℕ) (r : Bytes × Quotes)
    → result out (ys ++ c ∷ []) r ≡ result out ys (c ∷ r.0, r.1)
result_plain out ys c r = ap (λ (x : Bytes). some (out ++ x, r.1)) (append_assoc ys (c ∷ []) r.0)

result_special :
    (out ys w : Bytes) (r : Bytes × Quotes)
    → result ((out ++ ys) ++ w) [] r ≡ result out ys (w ++ r.0, r.1)
result_special out ys w r =
    ap (λ (x : Bytes). some (x, r.1))
      (append_assoc (out ++ ys) w r.0 ∙ append_assoc out ys (w ++ r.0))

module _ (t : Callbacks) (s : Bytes) where
  -- The text behind a handler's bytes: it may stop at the end, or one step past it.
  loop_behind :
      (fuel : ℕ)
      (loop : (xs rest : Bytes) (q : Quotes) (out : Bytes) (i : ℕ)
        → s ≡ xs ++ rest
        → i ≡ length xs
        → length rest < fuel
        → process_loop fuel t s i i rest q out
          ≡ result out [] (processed t zero (before s i) rest q))
      (zs rest out : Bytes) (q : Quotes) (i c u : ℕ)
      → s ≡ zs ++ c ∷ rest
      → i ≡ length zs
      → length rest < fuel
      → u ≤ suc (length rest)
      → process_loop fuel t s (i + u + 1) (i + u + 1) (drop u rest) q out
        ≡ result out [] (processed t u c rest q)
  loop_behind zero loop zs rest out q i c u e l h k = absurd (omega arith)
  loop_behind (suc fuel) loop zs rest out q i c u e l h k =
      let n = ap (length {A = ℕ}) e in
      let m = length-append zs (c ∷ rest) in
      elim (Bool-cases (leb u (length rest))) [
        | inr b ↦
            rw (drop_over u rest (ground arith), processed-over t u c rest q (ground arith))
              (loop_done t s fuel (i + u + 1) (i + u + 1) q out (ground (arith, n, m))
                ∙ ap (λ (x : Bytes). some (x, q)) (sym (append-nil out)))
        | inl b ↦
            let e' : s ≡ (zs ++ c ∷ take u rest) ++ drop u rest =
              e
              ∙ ap (λ (x : Bytes). zs ++ c ∷ x) (sym (take-append-drop u rest))
              ∙ sym (append_assoc zs (c ∷ take u rest) (drop u rest)) in
            loop (zs ++ c ∷ take u rest) (drop u rest) q out (i + u + 1) e'
              (ground (arith, length-append zs (c ∷ take u rest), length-take u rest))
              (ground (arith, length-drop u rest))
            ∙ ap (result out []) (sym (processed-behind t s zs rest c i u q e l (ground arith)))
      ]

  loop-processed :
      (fuel : ℕ) (xs ys rest : Bytes) (mark i : ℕ) (q : Quotes) (out : Bytes)
      → s ≡ xs ++ (ys ++ rest)
      → mark ≡ length xs
      → i ≡ length xs + length ys
      → length rest < fuel
      → process_loop fuel t s mark i rest q out
        ≡ result out ys (processed t zero (before s i) rest q)
  unfolding processed
  loop-processed zero xs ys rest mark i q out e l m h = absurd (omega arith)
  loop-processed (suc fuel) xs ys [] mark i q out e l m h = loop_end t s fuel xs ys mark i q out e l
  loop-processed (suc fuel) xs ys (c ∷ rest) mark i q out e l m h =
      let e' : s ≡ (xs ++ ys) ++ c ∷ rest = e ∙ sym (append_assoc xs ys (c ∷ rest)) in
      let m' : i ≡ length (xs ++ ys) = omega (arith, length-append xs ys) in
      elim (Option-cases (t c)) [
        | inl plain ↦
            loop_plain t s fuel mark i c rest out q plain
            ∙ loop-processed fuel xs (ys ++ c ∷ []) rest mark (i + 1) q out
                (e ∙ ap (◌++◌ xs) (sym (append_assoc ys (c ∷ []) rest))) l
                (omega (arith, length-append ys (c ∷ []))) (omega arith)
            ∙ ap (λ (x : ℕ). result out (ys ++ c ∷ []) (processed t zero x rest q))
                (before-next s (xs ++ ys) rest c (i + 1) e' (omega arith))
            ∙ result_plain out ys c (processed t zero c rest q)
            ∙ ap (result out ys) (sym (processed_plain t (before s i) c rest q plain))
        | inr (action, special) ↦
            let d = dispatch action q (before s i) (c ∷ rest) in
            loop_special t s fuel i c action xs ys rest out q mark special
              (copy_run-append t s xs ys (c ∷ rest) mark i out e l m)
            ∙ loop_behind fuel
                (λ xs' rest' q' out' i' e2 l2 h2.
                  loop-processed fuel xs' [] rest' i' i' q' out' e2 l2 (omega arith) h2)
                (xs ++ ys) rest ((out ++ ys) ++ d.written) d.quotes i c d.used e' m' (omega arith)
                (dispatch-used action q (before s i) c rest).0
            ∙ result_special out ys d.written (processed t d.used c rest d.quotes)
            ∙ ap (result out ys) (sym (processed_special t (before s i) c rest q action special))
      ]

-- On any text and with any table of handlers the loop of `process` ends, with every slice it takes
-- within the text: it appends what the description, which takes the text byte by byte, gives from
-- the quotes held so far, and keeps the quotes that come of it.
pub process-processed :
    (r : SpRenderer) (out s : Bytes)
    → process r out s ≡ (
        let p = processed r.callbacks zero 0 s r.quotes in
        some (out ++ p.0, record r { quotes = p.1 }))
unfolding process
process-processed r out s =
    rw
      (loop-processed r.callbacks s (length s + 1) [] [] s 0 0 r.quotes out refl refl refl
        (omega arith))
      refl
