-- ===== src/HtmlEntities.antt =====
-- src/html_entities.rs: the tables of character references of HTML5, in the order of the source, and
-- the lookups in them.
mod Part01
mod Part02
mod Part03
mod Part04
mod Part05
mod Part06
mod Part07
mod Part08
mod Part09
mod Part10
mod Part11
mod Part12
mod Part13
mod Part14
mod Part15
mod Pairs
use Prim.Native.String.{String}
use blackfriday_2_rust.Base.{
  ℕ, Option, none, some, List, [], ◌∷◌, ◌++◌, Bytes, codes, equal, if◌then◌else◌,
}
use blackfriday_2_rust.HtmlEntities.Part01.{entity_01}
use blackfriday_2_rust.HtmlEntities.Part02.{entity_02}
use blackfriday_2_rust.HtmlEntities.Part03.{entity_03}
use blackfriday_2_rust.HtmlEntities.Part04.{entity_04}
use blackfriday_2_rust.HtmlEntities.Part05.{entity_05}
use blackfriday_2_rust.HtmlEntities.Part06.{entity_06}
use blackfriday_2_rust.HtmlEntities.Part07.{entity_07}
use blackfriday_2_rust.HtmlEntities.Part08.{entity_08}
use blackfriday_2_rust.HtmlEntities.Part09.{entity_09}
use blackfriday_2_rust.HtmlEntities.Part10.{entity_10}
use blackfriday_2_rust.HtmlEntities.Part11.{entity_11}
use blackfriday_2_rust.HtmlEntities.Part12.{entity_12}
use blackfriday_2_rust.HtmlEntities.Part13.{entity_13}
use blackfriday_2_rust.HtmlEntities.Part14.{entity_14}
use blackfriday_2_rust.HtmlEntities.Part15.{entity_15}
use blackfriday_2_rust.HtmlEntities.Pairs.{entity_pairs}

-- `ENTITY`.
unfoldable pub entity_table : List (String × ℕ)
unfolding entity_01 entity_02 entity_03 entity_04 entity_05 entity_06 entity_07 entity_08 entity_09
    entity_10 entity_11 entity_12 entity_13 entity_14 entity_15
entity_table =
    entity_01 ++ entity_02 ++ entity_03 ++ entity_04 ++ entity_05 ++ entity_06 ++ entity_07
    ++ entity_08 ++ entity_09 ++ entity_10 ++ entity_11 ++ entity_12 ++ entity_13 ++ entity_14
    ++ entity_15

abbrev pub longest_entity_without_semicolon : ℕ
longest_entity_without_semicolon = 6

-- What `binary_search_by` finds in a sorted table: the value of an entry with this key.
module _ {ℓ} {V : Type ℓ} where
  unfoldable pub find : List (String × V) → Bytes → Option V
  unfolding equal
  find [] key = none
  find ((name, v) ∷ rest) key = if equal (codes name) key then some v else find rest key

unfoldable pub entity : Bytes → Option ℕ
unfolding entity_table find
entity name = find entity_table name

unfoldable pub entity2 : Bytes → Option (ℕ × ℕ)
unfolding entity_pairs find
entity2 name = find entity_pairs name
