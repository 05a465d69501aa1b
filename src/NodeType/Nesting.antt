-- ===== src/NodeType/Nesting.antt =====
-- src/node.rs, `NodeType`: how the tables about the kinds of nodes fit together.
use blackfriday_2_rust.Base.{◌≡◌, true, false, arith}
use blackfriday_2_rust.NodeType.{
  NodeType, item, list, discriminant, is_container, is_leaf, can_contain,
}

-- A node that may hold some other node is a container, no leaf may; and items stand in lists alone,
-- while a list holds nothing but items.
pub can_contain-is_container :
    (t u : NodeType) → can_contain t u ≡ true → (is_container t ≡ true) × (is_leaf t ≡ false)
unfolding can_contain is_container is_leaf
can_contain-is_container t u h = ground arith

pub can_contain-item : (t : NodeType) → can_contain t item ≡ true → t ≡ list
unfolding can_contain
can_contain-item t h = ground arith

pub discriminant-injective : (t u : NodeType) → discriminant t ≡ discriminant u → t ≡ u
unfolding discriminant
discriminant-injective t u h = ground arith
