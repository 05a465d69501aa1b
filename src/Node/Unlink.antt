-- ===== src/Node/Unlink.antt =====
-- src/node.rs, `Arena::unlink`: every link after it, and that the links still agree.
use blackfriday_2_rust.Base.{
  ◌<◌, ◌≡◌, ◌∙◌, inl, inr, Option, none, some, arith, ◌==◌, if◌then◌else◌, length, Option-cases,
  ◌>>=◌,
}
use blackfriday_2_rust.Node.{
  NodeId, Arena, set_first_child, set_last_child, set_prev, set_next, detach, unlink_front,
  unlink_back, unlink,
}
use blackfriday_2_rust.Node.Links.{
  at, is, Within, put, length-put, at-put, get-at, modify-put, modify_some-put, IsLinked,
}

-- The node or, if the link is none, the parent takes the new link of one side.
abbrev front : (parent prev next : Option NodeId) → Arena → Arena
front parent (some p) next a = put (some p) (set_next next) a
front parent none next a = put parent (set_first_child next) a

abbrev back : (parent prev next : Option NodeId) → Arena → Arena
back parent prev (some n) a = put (some n) (set_prev prev) a
back parent prev none a = put parent (set_last_child prev) a

unlink_front-front :
    (parent prev next : Option NodeId) (a : Arena)
    → Within parent a
    → Within prev a
    → unlink_front parent prev next a ≡ some (front parent prev next a)
unlink_front-front parent (some p) next a h g = modify-put p (set_next next) a g
unlink_front-front parent none next a h g = modify_some-put parent (set_first_child next) a h

unlink_back-back :
    (parent prev next : Option NodeId) (a : Arena)
    → Within parent a
    → Within next a
    → unlink_back parent prev next a ≡ some (back parent prev next a)
unlink_back-back parent prev (some n) a h g = modify-put n (set_prev prev) a g
unlink_back-back parent prev none a h g = modify_some-put parent (set_last_child prev) a h

length-front :
    (parent prev next : Option NodeId) (a : Arena) → length (front parent prev next a) ≡ length a
length-front parent (some p) next a = length-put (some p) (set_next next) a
length-front parent none next a = length-put parent (set_first_child next) a

length-back :
    (parent prev next : Option NodeId) (a : Arena) → length (back parent prev next a) ≡ length a
length-back parent prev (some n) a = length-put (some n) (set_prev prev) a
length-back parent prev none a = length-put parent (set_last_child prev) a

-- The links of a node, and all else that it holds.
abbrev pub unlinked_next :
    (prev next : Option NodeId) → NodeId → NodeId → Option NodeId → Option NodeId
unlinked_next prev next id j old = if id == j then none else if is prev j then next else old

abbrev pub unlinked_end : (parent side new : Option NodeId) → NodeId → Option NodeId → Option NodeId
unlinked_end parent none new j old = if is parent j then new else old
unlinked_end parent (some p) new j old = old

pub record Unlinked (a : Arena) (id : NodeId) (a' : Arena) : Type 0 where
  pub same_length : length a' ≡ length a
  pub parent_is : (j : NodeId) → (at a' j).parent ≡ (if id == j then none else (at a j).parent)
  pub next_is :
      (j : NodeId) → (at a' j).next ≡ unlinked_next (at a id).prev (at a id).next id j (at a j).next
  pub prev_is :
      (j : NodeId) → (at a' j).prev ≡ unlinked_next (at a id).next (at a id).prev id j (at a j).prev
  pub first_is :
      (j : NodeId)
      → (at a' j).first_child
        ≡ unlinked_end (at a id).parent (at a id).prev (at a id).next j (at a j).first_child
  pub last_is :
      (j : NodeId)
      → (at a' j).last_child
        ≡ unlinked_end (at a id).parent (at a id).next (at a id).prev j (at a j).last_child
  pub kind_is : (j : NodeId) → (at a' j).node_type ≡ (at a j).node_type

-- The arena after `unlink`, with the links of `id` as the source reads them at the start.
abbrev pub after : (parent prev next : Option NodeId) → NodeId → Arena → Arena
after parent prev next id a =
    put (some id) detach (back parent prev next (front parent prev next a))

pub Within-length :
    (o : Option NodeId) (a b : Arena) → length b ≡ length a → Within o a → Within o b
Within-length none a b e h = tt
Within-length (some i) a b e h = omega arith

module _ (a : Arena) (id : NodeId) (inside : id < length a) (P : Option NodeId)
    (P_in : Within P a) where
  length-after : (p n : Option NodeId) → length (after P p n id a) ≡ length a
  length-after p n =
      length-put (some id) detach (back P p n (front P p n a))
      ∙ length-back P p n (front P p n a)
      ∙ length-front P p n a

  at-front-some :
      (p : NodeId) (n : Option NodeId) (j : NodeId)
      → p < length a
      → at (front P (some p) n a) j ≡ (if p == j then set_next n (at a j) else at a j)
  at-front-some p n j w = at-put (some p) (set_next n) a j w

  at-front-none :
      (n : Option NodeId) (j : NodeId)
      → at (front P none n a) j ≡ (if is P j then set_first_child n (at a j) else at a j)
  at-front-none n j = at-put P (set_first_child n) a j P_in

  at-back-some :
      (p : Option NodeId) (q : Option NodeId) (n : NodeId) (j : NodeId)
      → n < length a
      → at (back P p (some n) (front P p q a)) j
        ≡ (if n == j then set_prev p (at (front P p q a) j) else at (front P p q a) j)
  at-back-some p q n j w =
      at-put (some n) (set_prev p) (front P p q a) j (omega (arith, length-front P p q a))

  at-back-none :
      (p : Option NodeId) (q : Option NodeId) (j : NodeId)
      → at (back P p none (front P p q a)) j
        ≡ (if is P j then set_last_child p (at (front P p q a) j) else at (front P p q a) j)
  at-back-none p q j =
      at-put P (set_last_child p) (front P p q a) j
        (Within-length P a (front P p q a) (length-front P p q a) P_in)

  -- The three assignments, one after another.
  at-after :
      (p n : Option NodeId) (j : NodeId)
      → at (after P p n id a) j ≡ (
          if id == j
          then detach (at (back P p n (front P p n a)) j)
          else at (back P p n (front P p n a)) j)
  at-after p n j =
      at-put (some id) detach (back P p n (front P p n a)) j
        (omega (arith, length-back P p n (front P p n a), length-front P p n a))

  -- The links of the node at `j` after the operation.
  record AfterAt (p n : Option NodeId) (j : NodeId) : Type 0 where
    parent_is : (at (after P p n id a) j).parent ≡ (if id == j then none else (at a j).parent)
    next_is : (at (after P p n id a) j).next ≡ unlinked_next p n id j (at a j).next
    prev_is : (at (after P p n id a) j).prev ≡ unlinked_next n p id j (at a j).prev
    first_is : (at (after P p n id a) j).first_child ≡ unlinked_end P p n j (at a j).first_child
    last_is : (at (after P p n id a) j).last_child ≡ unlinked_end P n p j (at a j).last_child
    kind_is : (at (after P p n id a) j).node_type ≡ (at a j).node_type

  after-AfterAt : (p n : Option NodeId) (j : NodeId) → Within p a → Within n a → AfterAt p n j
  after-AfterAt none none j p_in n_in =
      ground (arith, at-after none none j, at-back-none none none j, at-front-none none j)
  after-AfterAt none (some n) j p_in n_in =
      ground
        (arith, at-after none (some n) j, at-back-some none (some n) n j, at-front-none (some n) j)
  after-AfterAt (some p) none j p_in n_in =
      ground (arith, at-after (some p) none j, at-back-none (some p) none j, at-front-some p none j)
  after-AfterAt (some p) (some n) j p_in n_in = ground (
    arith,
    at-after (some p) (some n) j,
    at-back-some (some p) (some n) n j,
    at-front-some p (some n) j,
  )

module _ {a : Arena} (ok : IsLinked a) where
  open ok use {next_ok, prev_ok, first_ok, last_ok, parent_ok, root_ok, ends_ok}

  pub Within-next : (i : NodeId) → Within (at a i).next a
  Within-next i = elim (Option-cases (at a i).next) [
    | inl e ↦ rw e tt
    | inr (j, e) ↦ rw e (next_ok i j e).0
  ]

  pub Within-prev : (i : NodeId) → Within (at a i).prev a
  Within-prev i = elim (Option-cases (at a i).prev) [
    | inl e ↦ rw e tt
    | inr (j, e) ↦ rw e (prev_ok i j e).0
  ]

  pub Within-parent : (i : NodeId) → Within (at a i).parent a
  Within-parent i = elim (Option-cases (at a i).parent) [
    | inl e ↦ rw e tt
    | inr (j, e) ↦ rw e (parent_ok i j e).0
  ]

  pub Within-last : (i : NodeId) → Within (at a i).last_child a
  Within-last i = elim (Option-cases (at a i).last_child) [
    | inl e ↦ rw e tt
    | inr (j, e) ↦ rw e (last_ok i j e).0
  ]

  unlink-after :
      (id : NodeId)
      → id < length a
      → unlink id a ≡ some (after (at a id).parent (at a id).prev (at a id).next id a)
  unfolding unlink
  unlink-after id inside =
      let P = (at a id).parent in
      let p = (at a id).prev in
      let n = (at a id).next in
      rw (get-at a id inside, ◌>>=◌)
        (rw (unlink_front-front P p n a (Within-parent id) (Within-prev id)) (
          rw
            (unlink_back-back P p n (front P p n a)
              (Within-length P a (front P p n a) (length-front P p n a) (Within-parent id))
              (Within-length n a (front P p n a) (length-front P p n a) (Within-next id)))
            (modify-put id detach (back P p n (front P p n a))
              (omega (arith, length-back P p n (front P p n a), length-front P p n a)))))

  -- With links that agree, unlinking a node of the arena is no panic, and changes just these links.
  pub unlink-Unlinked :
      (id : NodeId) → id < length a → (a' : Arena) × (unlink id a ≡ some a') × Unlinked a id a'
  unlink-Unlinked id inside =
      let P = (at a id).parent in
      let p = (at a id).prev in
      let n = (at a id).next in
      let each = λ (j : NodeId).
        after-AfterAt a id inside P (Within-parent id) p n j (Within-prev id) (Within-next id) in
      (
        after P p n id a,
        unlink-after id inside,
        record {
          same_length = length-after a id inside P (Within-parent id) p n;
          parent_is = λ j. (each j).parent_is;
          next_is = λ j. (each j).next_is;
          prev_is = λ j. (each j).prev_is;
          first_is = λ j. (each j).first_is;
          last_is = λ j. (each j).last_is;
          kind_is = λ j. (each j).kind_is;
        },
      )
