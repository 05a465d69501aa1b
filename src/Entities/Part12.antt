-- ===== src/Entities/Part12.antt =====
-- src/entities.rs: lines 1671 to 1819 of the table `ENTITIES`.
use Prim.Native.String.{String}
use mathlib.Core.List.{List, [], ◌∷◌}

unfoldable pub part_12 : List String
part_12 =
    "&olcross;" ∷ "&oline;" ∷ "&olt;" ∷ "&omacr;" ∷ "&omega;" ∷ "&omicron;" ∷ "&omid;" ∷ "&ominus;"
    ∷ "&oopf;" ∷ "&opar;" ∷ "&operp;" ∷ "&oplus;" ∷ "&or;" ∷ "&orarr;" ∷ "&ord;" ∷ "&order;"
    ∷ "&orderof;" ∷ "&ordf" ∷ "&ordf;" ∷ "&ordm" ∷ "&ordm;" ∷ "&origof;" ∷ "&oror;" ∷ "&orslope;"
    ∷ "&orv;" ∷ "&oscr;" ∷ "&oslash" ∷ "&oslash;" ∷ "&osol;" ∷ "&otilde" ∷ "&otilde;" ∷ "&otimes;"
    ∷ "&otimesas;" ∷ "&ouml" ∷ "&ouml;" ∷ "&ovbar;" ∷ "&par;" ∷ "&para" ∷ "&para;" ∷ "&parallel;"
    ∷ "&parsim;" ∷ "&parsl;" ∷ "&part;" ∷ "&pcy;" ∷ "&percnt;" ∷ "&period;" ∷ "&permil;" ∷ "&perp;"
    ∷ "&pertenk;" ∷ "&pfr;" ∷ "&phi;" ∷ "&phiv;" ∷ "&phmmat;" ∷ "&phone;" ∷ "&pi;" ∷ "&pitchfork;"
    ∷ "&piv;" ∷ "&planck;" ∷ "&planckh;" ∷ "&plankv;" ∷ "&plus;" ∷ "&plusacir;" ∷ "&plusb;"
    ∷ "&pluscir;" ∷ "&plusdo;" ∷ "&plusdu;" ∷ "&pluse;" ∷ "&plusmn" ∷ "&plusmn;" ∷ "&plussim;"
    ∷ "&plustwo;" ∷ "&pm;" ∷ "&pointint;" ∷ "&popf;" ∷ "&pound" ∷ "&pound;" ∷ "&pr;" ∷ "&prE;"
    ∷ "&prap;" ∷ "&prcue;" ∷ "&pre;" ∷ "&prec;" ∷ "&precapprox;" ∷ "&preccurlyeq;" ∷ "&preceq;"
    ∷ "&precnapprox;" ∷ "&precneqq;" ∷ "&precnsim;" ∷ "&precsim;" ∷ "&prime;" ∷ "&primes;"
    ∷ "&prnE;" ∷ "&prnap;" ∷ "&prnsim;" ∷ "&prod;" ∷ "&profalar;" ∷ "&profline;" ∷ "&profsurf;"
    ∷ "&prop;" ∷ "&propto;" ∷ "&prsim;" ∷ "&prurel;" ∷ "&pscr;" ∷ "&psi;" ∷ "&puncsp;" ∷ "&qfr;"
    ∷ "&qint;" ∷ "&qopf;" ∷ "&qprime;" ∷ "&qscr;" ∷ "&quaternions;" ∷ "&quatint;" ∷ "&quest;"
    ∷ "&questeq;" ∷ "&quot" ∷ "&quot;" ∷ "&rAarr;" ∷ "&rArr;" ∷ "&rAtail;" ∷ "&rBarr;" ∷ "&rHar;"
    ∷ "&race;" ∷ "&racute;" ∷ "&radic;" ∷ "&raemptyv;" ∷ "&rang;" ∷ "&rangd;" ∷ "&range;"
    ∷ "&rangle;" ∷ "&raquo" ∷ "&raquo;" ∷ "&rarr;" ∷ "&rarrap;" ∷ "&rarrb;" ∷ "&rarrbfs;"
    ∷ "&rarrc;" ∷ "&rarrfs;" ∷ "&rarrhk;" ∷ "&rarrlp;" ∷ "&rarrpl;" ∷ "&rarrsim;" ∷ "&rarrtl;"
    ∷ "&rarrw;" ∷ "&ratail;" ∷ "&ratio;" ∷ "&rationals;" ∷ "&rbarr;" ∷ "&rbbrk;" ∷ "&rbrace;" ∷ []
