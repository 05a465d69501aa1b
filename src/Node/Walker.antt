-- ===== src/Node/Walker.antt =====
-- src/node.rs, `Walker`, `WalkStatus` and `Arena::walk`. `none` is the panic of a link out of range,
-- or the end of the fuel of `walk`.
pub mod Tour
pub mod Visits
use blackfriday_2_rust.Base.{
  ℕ, zero, suc, Bool, true, false, not, ◌&&◌, ◌||◌, Option, none, some, List, [], ◌∷◌, ◌==◌, ◌>>=◌,
  if◌then◌else◌,
}
use blackfriday_2_rust.NodeType.{is_container}
use blackfriday_2_rust.Node.{NodeId, Node, Arena, get}

pub data WalkStatus : Type 0 where
  go_to_next skip_children terminate : WalkStatus

pub record Walker : Type 0 where
  pub current : Option NodeId
  pub root : NodeId
  pub entering : Bool

abbrev pub start : NodeId → Walker
start root = record { current = some root; root = root; entering = true }

-- What `step` does at a container that is entered.
abbrev pub descend : Walker → Option NodeId → Walker
descend w none = record w { entering = false }
descend w (some child) = record w { current = some child; entering = true }

-- What `step` does behind a node: the next sibling, or back to the parent.
abbrev pub move_on : Walker → Option NodeId → Option NodeId → Walker
move_on w none parent = record w { current = parent; entering = false }
move_on w (some n) parent = record w { current = some n; entering = true }

abbrev pub step_at : Walker → NodeId → Node → Walker
step_at w cur node =
    if (not (is_container node.node_type) || not w.entering) && cur == w.root
    then record w { current = none }
    else if w.entering && is_container node.node_type
    then descend w node.first_child
    else move_on w node.next node.parent

unfoldable pub step : Arena → Walker → Option Walker
step arena w = elim w.current [
  | none ↦ some w
  | some cur ↦ get arena cur >>= λ node. some (step_at w cur node)
]

unfoldable pub advance : Arena → WalkStatus → Walker → Option Walker
unfolding step
advance arena terminate w = some (record w { current = none })
advance arena skip_children w = step arena (record w { entering = false })
advance arena go_to_next w = step arena w

-- `Arena::walk` with a visitor that only answers: the visits it is asked about, in order.
abbrev pub Visit : Type 0
Visit = NodeId × Bool

unfoldable pub walk : ℕ → (NodeId → Bool → WalkStatus) → Arena → Walker → Option (List Visit)
unfolding advance
walk zero visitor arena w = none
walk (suc fuel) visitor arena w = elim w.current [
  | none ↦ some []
  | some id ↦ elim (visitor id w.entering) [
    | terminate ↦ some ((id, w.entering) ∷ [])
    | status ↦ advance arena status w >>= λ w'.
        walk fuel visitor arena w' >>= λ rest. some ((id, w.entering) ∷ rest)
  ]
]
