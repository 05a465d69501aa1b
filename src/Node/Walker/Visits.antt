-- ===== src/Node/Walker/Visits.antt =====
-- src/node.rs: the walk over the links visits a tree in the order of its tour.
use blackfriday_2_rust.Base.{
  ℕ, suc, ◌+◌, ◌-◌, ◌<◌, ◌≡◌, ◌≢◌, refl, sym, ap, ◌∙◌, Bool, true, false, ◌&&◌, Option, none, some,
  ◌⊎◌, inl, inr, List, [], ◌∷◌, ◌++◌, append-nil, append_assoc, arith, Bool-cases, Option-cases,
  length,
}
use blackfriday_2_rust.NodeType.{is_container}
use blackfriday_2_rust.Node.{NodeId, Arena}
use blackfriday_2_rust.Node.Links.{at, get-at}
use blackfriday_2_rust.Node.Walker.{
  WalkStatus, go_to_next, skip_children, terminate, Visit, start, move_on, step, advance, walk,
}
use blackfriday_2_rust.Node.Walker.Tour.{
  Tree, branch, Forest, nil, cons, top, Trip, goes_on, around, followed, tour, tour_forest, IsTree,
  IsForest,
}

-- The fuel for these visits, on top of `k`.
abbrev pub fuel_for : List Visit → ℕ → ℕ
fuel_for [] k = k
fuel_for (v ∷ vs) k = suc (fuel_for vs k)

fuel_for-append : (vs ws : List Visit) (k : ℕ) → fuel_for (vs ++ ws) k ≡ fuel_for vs (fuel_for ws k)
fuel_for-append [] ws k = refl
fuel_for-append (v ∷ vs) ws k = ap suc (fuel_for-append vs ws k)

abbrev prepend : List Visit → Option (List Visit) → Option (List Visit)
prepend vs none = none
prepend vs (some ws) = some (vs ++ ws)

prepend-prepend :
    (vs ws : List Visit) (o : Option (List Visit))
    → prepend vs (prepend ws o) ≡ prepend (vs ++ ws) o
prepend-prepend vs ws none = refl
prepend-prepend vs ws (some us) = ap some (sym (append_assoc vs ws us))

WalkStatus-cases : (s : WalkStatus) → (s ≡ terminate) ⊎ ((s ≡ skip_children) ⊎ (s ≡ go_to_next))
WalkStatus-cases terminate = inl refl
WalkStatus-cases skip_children = inr (inl refl)
WalkStatus-cases go_to_next = inr (inr refl)

-- What is left of a walk behind a trip: nothing if the visitor ended it.
abbrev resume : Bool → Option (List Visit) → Option (List Visit)
resume true o = o
resume false o = some []

module _ (visitor : NodeId → Bool → WalkStatus) (a : Arena) (root : NodeId) where
  abbrev go : ℕ → Option NodeId → Bool → Option (List Visit)
  go k cur entering = walk k visitor a (record { current = cur; root = root; entering = entering })

  -- The walk behind node `i`.
  abbrev leave : ℕ → NodeId → Option (List Visit)
  leave k i = walk k visitor a (
      move_on (record { current = some i; root = root; entering = true }) (at a i).next
        (at a i).parent)

  -- One round of the loop at a node below the root that is no container, or is left.
  walk_past :
      (k : ℕ) (i : NodeId) (entering : Bool)
      → i < length a
      → i ≢ root
      → (entering && is_container (at a i).node_type) ≡ false
      → go (suc k) (some i) entering
        ≡ prepend ((i, entering) ∷ []) (resume (goes_on (visitor i entering)) (leave k i))
  unfolding walk advance step
  walk_past k i entering inside ne shut = elim (WalkStatus-cases (visitor i entering)) [
    | inl e ↦ rw (e, walk) refl
    | inr (inl e) ↦ ground (arith, get-at a i inside)
    | inr (inr e) ↦ ground (arith, get-at a i inside)
  ]

  -- A container below the root whose children the visitor skips.
  walk_over :
      (k : ℕ) (i : NodeId)
      → i < length a
      → i ≢ root
      → visitor i true ≡ skip_children
      → go (suc k) (some i) true ≡ prepend ((i, true) ∷ []) (leave k i)
  unfolding walk advance step
  walk_over k i inside ne e = ground (arith, get-at a i inside)

  walk_end :
      (k : ℕ) (i : NodeId)
      → visitor i true ≡ terminate
      → go (suc k) (some i) true ≡ some ((i, true) ∷ [])
  unfolding walk
  walk_end k i e = rw (e, walk) refl

  -- Into the children of `p`, or out of `p` if there are none.
  abbrev enter : NodeId → ℕ → Option NodeId → Option (List Visit)
  enter p k none = go k (some p) false
  enter p k (some c) = go k (some c) true

  walk_down :
      (k : ℕ) (i : NodeId)
      → i < length a
      → is_container (at a i).node_type ≡ true
      → visitor i true ≡ go_to_next
      → go (suc k) (some i) true ≡ prepend ((i, true) ∷ []) (enter i k (at a i).first_child)
  unfolding walk advance step
  walk_down k i inside c e = elim (Option-cases (at a i).first_child) [
    | inl f ↦ ground (arith, get-at a i inside)
    | inr (j, f) ↦ ground (arith, get-at a i inside)
  ]

  leave-enter :
      (k : ℕ) (i p : NodeId) → (at a i).parent ≡ some p → leave k i ≡ enter p k (at a i).next
  leave-enter k i p e = elim (Option-cases (at a i).next) [
    | inl n ↦ rw (n, e) refl
    | inr (j, n) ↦ rw n refl
  ]

  prepend-nil : (o : Option (List Visit)) → prepend [] o ≡ o
  prepend-nil none = refl
  prepend-nil (some vs) = refl

  -- A container entered and its children walked: what the visits around them add.
  walk_container :
      (k : ℕ) (i : NodeId) (f : Trip) (last : Option (List Visit))
      → i < length a
      → is_container (at a i).node_type ≡ true
      → visitor i true ≡ go_to_next
      → ((n : ℕ)
          → enter i (fuel_for f.0 n) (at a i).first_child
            ≡ prepend f.0 (resume f.1 (go n (some i) false)))
      → go (suc k) (some i) false
        ≡ prepend ((i, false) ∷ []) (resume (goes_on (visitor i false)) last)
      → go (fuel_for (around i (goes_on (visitor i false)) f).0 k) (some i) true
        ≡ prepend
            (around i (goes_on (visitor i false)) f).0
            (resume (around i (goes_on (visitor i false)) f).1 last)
  walk_container k i (vs, true) last inside c e below out =
      ap (λ n. go (suc n) (some i) true) (fuel_for-append vs ((i, false) ∷ []) k)
      ∙ walk_down (fuel_for vs (suc k)) i inside c e
      ∙ ap (prepend ((i, true) ∷ [])) (below (suc k) ∙ ap (prepend vs) out ∙ prepend-prepend vs _ _)
      ∙ prepend-prepend ((i, true) ∷ []) (vs ++ (i, false) ∷ []) _
  walk_container k i (vs, false) last inside c e below out =
      walk_down (fuel_for vs k) i inside c e ∙ ap (prepend ((i, true) ∷ [])) (below k)

  -- The visits of one child and of those behind it.
  walk_cons :
      (k : ℕ) (t : Tree) (f : Trip) (p : NodeId) (r : Trip)
      → (at a (top t)).parent ≡ some p
      → ((n : ℕ)
          → go (fuel_for f.0 n) (some (top t)) true ≡ prepend f.0 (resume f.1 (leave n (top t))))
      → enter p (fuel_for r.0 k) (at a (top t)).next
        ≡ prepend r.0 (resume r.1 (go k (some p) false))
      → go (fuel_for (followed f r).0 k) (some (top t)) true
        ≡ prepend (followed f r).0 (resume (followed f r).1 (go k (some p) false))
  walk_cons k t (vs, true) p r e first rest =
      ap (λ n. go n (some (top t)) true) (fuel_for-append vs r.0 k)
      ∙ first (fuel_for r.0 k)
      ∙ ap (prepend vs) (leave-enter (fuel_for r.0 k) (top t) p e ∙ rest)
      ∙ prepend-prepend vs r.0 _
  walk_cons k t (vs, false) p r e first rest = first k

  mutual
    unfolding tour

    walk_tree :
        (t : Tree) (k : ℕ)
        → IsTree a root t
        → top t ≢ root
        → go (fuel_for (tour visitor a t).0 k) (some (top t)) true
          ≡ prepend (tour visitor a t).0 (resume (tour visitor a t).1 (leave k (top t)))
    walk_tree (branch i f) k t ne = elim (Bool-cases (is_container (at a i).node_type)) [
      | inl c ↦
          rw (c, tour)
            (elim (WalkStatus-cases (visitor i true)) [
              | inl e ↦ rw e (walk_end k i e)
              | inr (inl e) ↦ rw e (walk_over k i t.0 ne e)
              | inr (inr e) ↦ rw e (
                  walk_container k i (tour_forest visitor a f) (leave k i) t.0 c e
                    (λ n. walk_forest f n i (at a i).first_child (t.1 c))
                    (walk_past k i false t.0 ne refl))
            ])
      | inr c ↦ rw (c, tour) (walk_past k i true t.0 ne c)
    ]

    walk_forest :
        (f : Forest) (k : ℕ) (p : NodeId) (cur : Option NodeId)
        → IsForest a root p cur f
        → enter p (fuel_for (tour_forest visitor a f).0 k) cur
          ≡ prepend
              (tour_forest visitor a f).0
              (resume (tour_forest visitor a f).1 (go k (some p) false))
    walk_forest nil k p cur h = rw h (sym (prepend-nil _))
    walk_forest (cons t rest) k p cur h = rw (h.0) (
        walk_cons k t (tour visitor a t) p (tour_forest visitor a rest) h.2
          (λ n. walk_tree t n h.3 h.1) (walk_forest rest k p (at a (top t)).next h.4))

  -- At the root the walk ends where another node would be left.
  walk_out :
      (k : ℕ) (entering : Bool)
      → root < length a
      → (entering && is_container (at a root).node_type) ≡ false
      → go (suc (suc k)) (some root) entering
        ≡ prepend ((root, entering) ∷ []) (resume (goes_on (visitor root entering)) (some []))
  unfolding walk advance step
  walk_out k entering inside shut = elim (WalkStatus-cases (visitor root entering)) [
    | inl e ↦ rw (e, walk) refl
    | inr (inl e) ↦ ground (arith, get-at a root inside)
    | inr (inr e) ↦ ground (arith, get-at a root inside)
  ]

  walk_over_root :
      (k : ℕ)
      → root < length a
      → visitor root true ≡ skip_children
      → go (suc (suc k)) (some root) true ≡ some ((root, true) ∷ [])
  unfolding walk advance step
  walk_over_root k inside e = ground (arith, get-at a root inside)

  prepend_done : (vs : List Visit) (b : Bool) → prepend vs (resume b (some [])) ≡ some vs
  prepend_done vs true = ap some (append-nil vs)
  prepend_done vs false = ap some (append-nil vs)

  walk_root :
      (f : Forest) (k : ℕ)
      → IsTree a root (branch root f)
      → go (fuel_for (tour visitor a (branch root f)).0 (suc k)) (some root) true
        ≡ some (tour visitor a (branch root f)).0
  unfolding tour
  walk_root f k t = elim (Bool-cases (is_container (at a root).node_type)) [
    | inl c ↦
        rw (c, tour)
          (elim (WalkStatus-cases (visitor root true)) [
            | inl e ↦ rw e (walk_end (suc k) root e)
            | inr (inl e) ↦ rw e (walk_over_root k t.0 e)
            | inr (inr e) ↦ rw e (
                walk_container (suc k) root (tour_forest visitor a f) (some []) t.0 c e
                  (λ n. walk_forest f n root (at a root).first_child (t.1 c))
                  (walk_out k false t.0 refl)
                ∙ prepend_done
                    (around root (goes_on (visitor root false)) (tour_forest visitor a f)).0
                    (around root (goes_on (visitor root false)) (tour_forest visitor a f)).1)
          ])
    | inr c ↦
        rw (c, tour)
          (walk_out k true t.0 c ∙ prepend_done ((root, true) ∷ []) (goes_on (visitor root true)))
  ]

fuel_for-length : (vs : List Visit) (k : ℕ) → fuel_for vs k ≡ length vs + k
fuel_for-length [] k = omega arith
fuel_for-length (v ∷ vs) k = omega (arith, fuel_for-length vs k)

-- On links that form a tree, a walk from its root is no panic and ends, and the visits are those of
-- the tour: each container before and after its children, each leaf once, the children in order;
-- behind `SkipChildren` neither the children nor the node again, behind `Terminate` nothing more.
pub walk-tour :
    (visitor : NodeId → Bool → WalkStatus) (a : Arena) (root : NodeId) (f : Forest) (fuel : ℕ)
    → IsTree a root (branch root f)
    → length (tour visitor a (branch root f)).0 < fuel
    → walk fuel visitor a (start root) ≡ some (tour visitor a (branch root f)).0
walk-tour visitor a root f fuel t h =
    let vs = (tour visitor a (branch root f)).0 in
    let e : fuel ≡ fuel_for vs (suc (fuel - length vs - 1)) =
      omega (arith, fuel_for-length vs (suc (fuel - length vs - 1))) in
    ap (λ n. walk n visitor a (start root)) e ∙ walk_root visitor a root f (fuel - length vs - 1) t
