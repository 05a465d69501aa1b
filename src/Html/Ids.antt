-- ===== src/Html/Ids.antt =====
-- src/html.rs, `ensure_unique_heading_id`: the map of heading ids and the loop that finds a new one.
pub mod Unique
use blackfriday_2_rust.Base.{
  ℕ, zero, suc, ◌+◌, Bool, true, false, Option, none, some, List, [], ◌∷◌, ◌++◌, if◌then◌else◌,
  Bytes, codes, length, equal, decimal, ◌>>=◌,
}

-- `HashMap<Vec<u8>, usize>` as an association list without repeated keys.
abbrev pub HeadingIds : Type 0
HeadingIds = List (Bytes × ℕ)

-- `get`.
unfoldable pub count_of : HeadingIds → Bytes → Option ℕ
unfolding equal
count_of [] id = none
count_of ((k, n) ∷ m) id = if equal k id then some n else count_of m id

-- `insert`.
unfoldable pub put_count : Bytes → ℕ → HeadingIds → HeadingIds
unfolding equal
put_count id n [] = (id, n) ∷ []
put_count id n ((k, v) ∷ m) = if equal k id then (k, n) ∷ m else (k, v) ∷ put_count id n m

-- `entry(id).or_insert(0)`.
unfoldable pub or_insert_zero : Bytes → HeadingIds → HeadingIds
unfolding count_of put_count
or_insert_zero id m = elim (count_of m id) [ none ↦ put_count id 0 m | some n ↦ m ]

-- `tmp`: the id with a dash and the next count behind it.
abbrev pub candidate : Bytes → ℕ → Bytes
candidate id count = id ++ b'-' ∷ decimal (count + 1)

-- The loop on fuel, with `heading_ids` and `id`; `none` is the end of the fuel.
unfoldable pub unique_loop : ℕ → HeadingIds → Bytes → Option (HeadingIds × Bytes)
unfolding count_of put_count decimal
unique_loop zero m id = none
unique_loop (suc fuel) m id = elim (count_of m id) [
  | none ↦ some (m, id)
  | some count ↦ elim (count_of m (candidate id count)) [
    | none ↦ unique_loop fuel (put_count id (count + 1) m) (candidate id count)
    | some other ↦ unique_loop fuel m (id ++ codes "-1")
  ]
]

-- The length of the longest key.
unfoldable pub longest_key : HeadingIds → ℕ
longest_key [] = 0
longest_key ((k, n) ∷ m) = Prim.Native.Nat.max (length k) (longest_key m)

unfoldable pub ensure_unique_heading_id : HeadingIds → Bytes → Option (HeadingIds × Bytes)
unfolding unique_loop or_insert_zero longest_key
ensure_unique_heading_id m id =
    unique_loop (longest_key m + 3) m id >>= λ (m', id'). some (or_insert_zero id' m', id')
