-- ===== src/Entities/Shape.antt =====
-- What every name of the table looks like: `&`, ASCII letters and digits, and `;` at the end if at
-- all; and that the table is sorted, as a binary search needs it.
use Prim.Native.String.{String}
use blackfriday_2_rust.Base.{
  Bool, true, false, ◌&&◌, ◌≡◌, refl, List, [], ◌∷◌, arith, ◌==◌, ltb, Bytes, codes, equal,
  equal→eq, if◌then◌else◌,
}
use blackfriday_2_rust.Util.{is_alnum}
use blackfriday_2_rust.Entities.{entities, contains, is_entity}

-- Letters and digits up to the end, or up to a `;` that is the last byte.
unfoldable pub is_key_tail : Bytes → Bool
is_key_tail [] = true
is_key_tail (c ∷ cs) = if is_alnum c then is_key_tail cs else c == b';' && equal cs []

unfoldable pub is_key : Bytes → Bool
unfolding is_key_tail
is_key [] = false
is_key (c ∷ cs) = c == b'&' && is_key_tail cs

all_keys : List String → Bool
all_keys [] = true
all_keys (name ∷ names) = is_key (codes name) && all_keys names

all_keys_sound :
    (names : List String) (e : Bytes)
    → all_keys names ≡ true
    → contains names e ≡ true
    → is_key e ≡ true
unfolding all_keys contains
all_keys_sound [] e h m = cc
all_keys_sound (name ∷ names) e h m =
    ground (arith, equal→eq (codes name) e, all_keys_sound names e)

all_keys_table : all_keys entities ≡ true
unfolding all_keys entities is_key is_alnum equal
all_keys_table = refl

-- Byte-wise, as `Ord` for `str`.
less : Bytes → Bytes → Bool
less [] [] = false
less [] (y ∷ ys) = true
less (x ∷ xs) [] = false
less (x ∷ xs) (y ∷ ys) = if x == y then less xs ys else ltb x y

ascending_from : String → List String → Bool
ascending_from prev [] = true
ascending_from prev (name ∷ names) = less (codes prev) (codes name) && ascending_from name names

entities_ascending : ascending_from "" entities ≡ true
unfolding ascending_from entities less
entities_ascending = refl

-- A recognised entity is `&`, then letters and digits, then at most a final `;`.
pub is_entity-is_key : (e : Bytes) → is_entity e ≡ true → is_key e ≡ true
unfolding is_entity
is_entity-is_key e h = all_keys_sound entities e all_keys_table h
