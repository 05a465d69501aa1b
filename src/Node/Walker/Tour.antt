-- ===== src/Node/Walker/Tour.antt =====
-- The tour of a tree: what a walk should visit, by recursion on the tree instead of the links.
use blackfriday_2_rust.Base.{
  ◌<◌, ◌≡◌, ◌≢◌, Bool, true, false, Option, none, some, List, [], ◌∷◌, ◌++◌, length, if◌then◌else◌,
}
use blackfriday_2_rust.NodeType.{is_container}
use blackfriday_2_rust.Node.{NodeId, Arena}
use blackfriday_2_rust.Node.Links.{at}
use blackfriday_2_rust.Node.Walker.{WalkStatus, go_to_next, skip_children, terminate, Visit}

mutual
  pub data Tree : Type 0 where
    branch : NodeId → Forest → Tree

  pub data Forest : Type 0 where
    nil : Forest
    cons : Tree → Forest → Forest

abbrev pub top : Tree → NodeId
top (branch i f) = i

-- The visits, and whether the walk goes on behind them.
abbrev pub Trip : Type 0
Trip = List Visit × Bool

abbrev pub goes_on : WalkStatus → Bool
goes_on terminate = false
goes_on _ = true

-- The visits of the children stand between those of the node.
abbrev pub around : NodeId → Bool → Trip → Trip
around i on (vs, true) = ((i, true) ∷ (vs ++ (i, false) ∷ []), on)
around i on (vs, false) = ((i, true) ∷ vs, false)

abbrev pub visit_container : (NodeId → Bool → WalkStatus) → NodeId → WalkStatus → Trip → Trip
visit_container visitor i terminate t = ((i, true) ∷ [], false)
visit_container visitor i skip_children t = ((i, true) ∷ [], true)
visit_container visitor i go_to_next t = around i (goes_on (visitor i false)) t

abbrev pub followed : Trip → Trip → Trip
followed (vs, true) (ws, on) = (vs ++ ws, on)
followed (vs, false) t = (vs, false)

module _ (visitor : NodeId → Bool → WalkStatus) (a : Arena) where
  unfoldable mutual
    pub tour : Tree → Trip
    tour (branch i f) =
        if is_container (at a i).node_type
        then visit_container visitor i (visitor i true) (tour_forest f)
        else ((i, true) ∷ [], goes_on (visitor i true))

    pub tour_forest : Forest → Trip
    tour_forest nil = ([], true)
    tour_forest (cons t f) = followed (tour t) (tour_forest f)

-- The links below a node are those of the tree: children by `first_child` and `next`, back by
-- `parent`, none of them the root of the walk. A leaf's links downward are not read.
module _ (a : Arena) (root : NodeId) where
  abbrev mutual
    pub IsTree : Tree → Type 0
    IsTree (branch i f) =
        (i < length a)
        × (is_container (at a i).node_type ≡ true → IsForest i (at a i).first_child f)

    pub IsForest : NodeId → Option NodeId → Forest → Type 0
    IsForest p cur nil = cur ≡ none
    IsForest p cur (cons t rest) =
        (cur ≡ some (top t))
        × (top t ≢ root)
        × ((at a (top t)).parent ≡ some p)
        × IsTree t
        × IsForest p (at a (top t)).next rest
