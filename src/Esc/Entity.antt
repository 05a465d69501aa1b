-- ===== src/Esc/Entity.antt =====
-- src/esc.rs, `node_is_entity`: its scan finds an entity exactly where the table's names can stand.
use blackfriday_2_rust.Base.{
  ℕ, suc, ◌+◌, ◌≡◌, refl, Bool, true, false, Option, none, some, ◌&&◌, inl, inr, [], ◌∷◌, ◌++◌,
  append_assoc, arith, ◌==◌, Bool-cases, if◌then◌else◌, Bytes, is_at, take, count_while, equal,
}
use blackfriday_2_rust.Util.{is_alnum}
use blackfriday_2_rust.Entities.{is_entity}
use blackfriday_2_rust.Entities.Shape.{is_key_tail, is_key, is_entity-is_key}
use blackfriday_2_rust.Esc.{scan_entity}

-- How many bytes behind an `&` its entity takes: a run of letters and digits and the `;` after it,
-- if the table has that name.
unfoldable pub entity_tail : Bytes → Bytes → Option ℕ
entity_tail seen cs =
    let n = count_while is_alnum cs in
    if is_at cs n b';' && is_entity (seen ++ take (suc n) cs) then some (suc n) else none

is_key_tail-mark :
    (xs ys : Bytes) (c : ℕ)
    → is_alnum c ≡ false
    → (c == b';') ≡ false
    → is_key_tail (xs ++ c ∷ ys) ≡ false
unfolding is_key_tail equal
is_key_tail-mark [] ys c a s = ground arith
is_key_tail-mark (x ∷ []) ys c a s = ground (arith, is_key_tail-mark [] ys c a s)
is_key_tail-mark (x ∷ (y ∷ xs)) ys c a s = ground (arith, is_key_tail-mark (y ∷ xs) ys c a s)

-- No name begins with these bytes.
abbrev Dead : Bytes → Type 0
Dead seen = (zs : Bytes) → is_entity (seen ++ zs) ≡ false

-- Names hold neither `&` nor `#` behind their first byte, so the scan may run over them in vain.
Dead-mark :
    (xs : Bytes) (c : ℕ) → is_alnum c ≡ false → (c == b';') ≡ false → Dead (b'&' ∷ (xs ++ c ∷ []))
unfolding is_key
Dead-mark xs c a s zs = elim (Bool-cases (is_entity (b'&' ∷ ((xs ++ c ∷ []) ++ zs)))) [
  | inl yes' ↦
      ground
        (arith, is_entity-is_key _ yes', is_key_tail-mark xs zs c a s, append_assoc xs (c ∷ []) zs)
  | inr no' ↦ no'
]

Dead-step : (seen : Bytes) (c : ℕ) → Dead seen → Dead (seen ++ c ∷ [])
Dead-step seen c d zs = rw append_assoc (d (c ∷ zs))

scan_entity-Dead : (seen cs : Bytes) (pos : ℕ) → Dead seen → (scan_entity seen cs pos).0 ≡ false
unfolding scan_entity
scan_entity-Dead seen [] pos d = refl
scan_entity-Dead seen (c ∷ cs) pos d =
    ground (arith, d (c ∷ []), scan_entity-Dead (seen ++ c ∷ []) cs (pos + 1) (Dead-step seen c d))

-- The verdict of the scan, and where it ends if it finds an entity.
abbrev pub Agrees : Bool × ℕ → Option ℕ → ℕ → Type 0
Agrees r none pos = r.0 ≡ false
Agrees r (some n) pos = (r.0 ≡ true) × (r.1 + 1 ≡ pos + n)

scan_entity-alnum :
    (seen cs : Bytes) (c pos : ℕ)
    → is_alnum c ≡ true
    → Agrees (scan_entity (seen ++ c ∷ []) cs (pos + 1)) (entity_tail (seen ++ c ∷ []) cs) (pos + 1)
    → Agrees (scan_entity seen (c ∷ cs) pos) (entity_tail seen (c ∷ cs)) pos
unfolding scan_entity entity_tail count_while is_alnum
scan_entity-alnum seen cs c pos a ih =
    ground (arith, append_assoc seen (c ∷ []) (take (suc (count_while is_alnum cs)) cs))

scan_entity-semicolon :
    (seen cs : Bytes) (c pos : ℕ)
    → (c == b';') ≡ true
    → Agrees (scan_entity seen (c ∷ cs) pos) (entity_tail seen (c ∷ cs)) pos
unfolding scan_entity entity_tail count_while is_alnum
scan_entity-semicolon seen cs c pos s = ground arith

scan_entity-mark :
    (xs cs : Bytes) (c pos : ℕ)
    → is_alnum c ≡ false
    → (c == b';') ≡ false
    → Agrees (scan_entity (b'&' ∷ xs) (c ∷ cs) pos) (entity_tail (b'&' ∷ xs) (c ∷ cs)) pos
unfolding scan_entity entity_tail count_while
scan_entity-mark xs cs c pos a s =
    ground (arith, scan_entity-Dead (b'&' ∷ (xs ++ c ∷ [])) cs (pos + 1) (Dead-mark xs c a s))

pub scan_entity-Agrees :
    (xs cs : Bytes) (pos : ℕ)
    → Agrees (scan_entity (b'&' ∷ xs) cs pos) (entity_tail (b'&' ∷ xs) cs) pos
unfolding scan_entity entity_tail count_while
scan_entity-Agrees xs [] pos = refl
scan_entity-Agrees xs (c ∷ cs) pos = elim (Bool-cases (is_alnum c)) [
  | inl a ↦
      scan_entity-alnum (b'&' ∷ xs) cs c pos a (scan_entity-Agrees (xs ++ c ∷ []) cs (pos + 1))
  | inr a ↦ elim (Bool-cases (c == b';')) [
    | inl s ↦ scan_entity-semicolon (b'&' ∷ xs) cs c pos s
    | inr s ↦ scan_entity-mark xs cs c pos a s
  ]
]
