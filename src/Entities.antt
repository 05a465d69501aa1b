-- ===== src/Entities.antt =====
-- src/entities.rs: the table of HTML entity names that the escaper consults, in fifteen parts, and
-- the lookup in it. The parts stand in the order of the source.
mod Part01
mod Part02
mod Part03
mod Part04
mod Part05
mod Part06
mod Part07
mod Part08
mod Part09
mod Part10
mod Part11
mod Part12
mod Part13
mod Part14
mod Part15
pub mod Shape
use Prim.Native.String.{String}
use blackfriday_2_rust.Base.{Bool, false, ◌||◌, List, [], ◌∷◌, ◌++◌, Bytes, codes, equal}
use blackfriday_2_rust.Entities.Part01.{part_01}
use blackfriday_2_rust.Entities.Part02.{part_02}
use blackfriday_2_rust.Entities.Part03.{part_03}
use blackfriday_2_rust.Entities.Part04.{part_04}
use blackfriday_2_rust.Entities.Part05.{part_05}
use blackfriday_2_rust.Entities.Part06.{part_06}
use blackfriday_2_rust.Entities.Part07.{part_07}
use blackfriday_2_rust.Entities.Part08.{part_08}
use blackfriday_2_rust.Entities.Part09.{part_09}
use blackfriday_2_rust.Entities.Part10.{part_10}
use blackfriday_2_rust.Entities.Part11.{part_11}
use blackfriday_2_rust.Entities.Part12.{part_12}
use blackfriday_2_rust.Entities.Part13.{part_13}
use blackfriday_2_rust.Entities.Part14.{part_14}
use blackfriday_2_rust.Entities.Part15.{part_15}

-- `ENTITIES`.
unfoldable pub entities : List String
unfolding part_01 part_02 part_03 part_04 part_05 part_06 part_07 part_08 part_09 part_10 part_11
    part_12 part_13 part_14 part_15
entities =
    part_01 ++ part_02 ++ part_03 ++ part_04 ++ part_05 ++ part_06 ++ part_07 ++ part_08 ++ part_09
    ++ part_10 ++ part_11 ++ part_12 ++ part_13 ++ part_14 ++ part_15

-- What `binary_search_by(..).is_ok()` answers on a sorted table: whether an element is equal.
unfoldable pub contains : List String → Bytes → Bool
unfolding equal
contains [] candidate = false
contains (name ∷ names) candidate = equal (codes name) candidate || contains names candidate

unfoldable pub is_entity : Bytes → Bool
unfolding entities contains
is_entity candidate = contains entities candidate
