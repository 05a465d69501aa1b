-- ===== src/Entities/Part06.antt =====
-- src/entities.rs: lines 777 to 925 of the table `ENTITIES`.
use Prim.Native.String.{String}
use mathlib.Core.List.{List, [], ◌∷◌}

unfoldable pub part_06 : List String
part_06 =
    "&blacktriangleright;" ∷ "&blank;" ∷ "&blk12;" ∷ "&blk14;" ∷ "&blk34;" ∷ "&block;" ∷ "&bne;"
    ∷ "&bnequiv;" ∷ "&bnot;" ∷ "&bopf;" ∷ "&bot;" ∷ "&bottom;" ∷ "&bowtie;" ∷ "&boxDL;" ∷ "&boxDR;"
    ∷ "&boxDl;" ∷ "&boxDr;" ∷ "&boxH;" ∷ "&boxHD;" ∷ "&boxHU;" ∷ "&boxHd;" ∷ "&boxHu;" ∷ "&boxUL;"
    ∷ "&boxUR;" ∷ "&boxUl;" ∷ "&boxUr;" ∷ "&boxV;" ∷ "&boxVH;" ∷ "&boxVL;" ∷ "&boxVR;" ∷ "&boxVh;"
    ∷ "&boxVl;" ∷ "&boxVr;" ∷ "&boxbox;" ∷ "&boxdL;" ∷ "&boxdR;" ∷ "&boxdl;" ∷ "&boxdr;" ∷ "&boxh;"
    ∷ "&boxhD;" ∷ "&boxhU;" ∷ "&boxhd;" ∷ "&boxhu;" ∷ "&boxminus;" ∷ "&boxplus;" ∷ "&boxtimes;"
    ∷ "&boxuL;" ∷ "&boxuR;" ∷ "&boxul;" ∷ "&boxur;" ∷ "&boxv;" ∷ "&boxvH;" ∷ "&boxvL;" ∷ "&boxvR;"
    ∷ "&boxvh;" ∷ "&boxvl;" ∷ "&boxvr;" ∷ "&bprime;" ∷ "&breve;" ∷ "&brvbar" ∷ "&brvbar;" ∷ "&bscr;"
    ∷ "&bsemi;" ∷ "&bsim;" ∷ "&bsime;" ∷ "&bsol;" ∷ "&bsolb;" ∷ "&bsolhsub;" ∷ "&bull;" ∷ "&bullet;"
    ∷ "&bump;" ∷ "&bumpE;" ∷ "&bumpe;" ∷ "&bumpeq;" ∷ "&cacute;" ∷ "&cap;" ∷ "&capand;"
    ∷ "&capbrcup;" ∷ "&capcap;" ∷ "&capcup;" ∷ "&capdot;" ∷ "&caps;" ∷ "&caret;" ∷ "&caron;"
    ∷ "&ccaps;" ∷ "&ccaron;" ∷ "&ccedil" ∷ "&ccedil;" ∷ "&ccirc;" ∷ "&ccups;" ∷ "&ccupssm;"
    ∷ "&cdot;" ∷ "&cedil" ∷ "&cedil;" ∷ "&cemptyv;" ∷ "&cent" ∷ "&cent;" ∷ "&centerdot;" ∷ "&cfr;"
    ∷ "&chcy;" ∷ "&check;" ∷ "&checkmark;" ∷ "&chi;" ∷ "&cir;" ∷ "&cirE;" ∷ "&circ;" ∷ "&circeq;"
    ∷ "&circlearrowleft;" ∷ "&circlearrowright;" ∷ "&circledR;" ∷ "&circledS;" ∷ "&circledast;"
    ∷ "&circledcirc;" ∷ "&circleddash;" ∷ "&cire;" ∷ "&cirfnint;" ∷ "&cirmid;" ∷ "&cirscir;"
    ∷ "&clubs;" ∷ "&clubsuit;" ∷ "&colon;" ∷ "&colone;" ∷ "&coloneq;" ∷ "&comma;" ∷ "&commat;"
    ∷ "&comp;" ∷ "&compfn;" ∷ "&complement;" ∷ "&complexes;" ∷ "&cong;" ∷ "&congdot;" ∷ "&conint;"
    ∷ "&copf;" ∷ "&coprod;" ∷ "&copy" ∷ "&copy;" ∷ "&copysr;" ∷ "&crarr;" ∷ "&cross;" ∷ "&cscr;"
    ∷ "&csub;" ∷ "&csube;" ∷ "&csup;" ∷ "&csupe;" ∷ "&ctdot;" ∷ "&cudarrl;" ∷ "&cudarrr;"
    ∷ "&cuepr;" ∷ "&cuesc;" ∷ []
