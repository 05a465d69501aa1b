-- ===== src/Entities/Part07.antt =====
-- src/entities.rs: lines 926 to 1074 of the table `ENTITIES`.
use Prim.Native.String.{String}
use mathlib.Core.List.{List, [], ◌∷◌}

unfoldable pub part_07 : List String
part_07 =
    "&cularr;" ∷ "&cularrp;" ∷ "&cup;" ∷ "&cupbrcap;" ∷ "&cupcap;" ∷ "&cupcup;" ∷ "&cupdot;"
    ∷ "&cupor;" ∷ "&cups;" ∷ "&curarr;" ∷ "&curarrm;" ∷ "&curlyeqprec;" ∷ "&curlyeqsucc;"
    ∷ "&curlyvee;" ∷ "&curlywedge;" ∷ "&curren" ∷ "&curren;" ∷ "&curvearrowleft;"
    ∷ "&curvearrowright;" ∷ "&cuvee;" ∷ "&cuwed;" ∷ "&cwconint;" ∷ "&cwint;" ∷ "&cylcty;" ∷ "&dArr;"
    ∷ "&dHar;" ∷ "&dagger;" ∷ "&daleth;" ∷ "&darr;" ∷ "&dash;" ∷ "&dashv;" ∷ "&dbkarow;" ∷ "&dblac;"
    ∷ "&dcaron;" ∷ "&dcy;" ∷ "&dd;" ∷ "&ddagger;" ∷ "&ddarr;" ∷ "&ddotseq;" ∷ "&deg" ∷ "&deg;"
    ∷ "&delta;" ∷ "&demptyv;" ∷ "&dfisht;" ∷ "&dfr;" ∷ "&dharl;" ∷ "&dharr;" ∷ "&diam;"
    ∷ "&diamond;" ∷ "&diamondsuit;" ∷ "&diams;" ∷ "&die;" ∷ "&digamma;" ∷ "&disin;" ∷ "&div;"
    ∷ "&divide" ∷ "&divide;" ∷ "&divideontimes;" ∷ "&divonx;" ∷ "&djcy;" ∷ "&dlcorn;" ∷ "&dlcrop;"
    ∷ "&dollar;" ∷ "&dopf;" ∷ "&dot;" ∷ "&doteq;" ∷ "&doteqdot;" ∷ "&dotminus;" ∷ "&dotplus;"
    ∷ "&dotsquare;" ∷ "&doublebarwedge;" ∷ "&downarrow;" ∷ "&downdownarrows;" ∷ "&downharpoonleft;"
    ∷ "&downharpoonright;" ∷ "&drbkarow;" ∷ "&drcorn;" ∷ "&drcrop;" ∷ "&dscr;" ∷ "&dscy;" ∷ "&dsol;"
    ∷ "&dstrok;" ∷ "&dtdot;" ∷ "&dtri;" ∷ "&dtrif;" ∷ "&duarr;" ∷ "&duhar;" ∷ "&dwangle;" ∷ "&dzcy;"
    ∷ "&dzigrarr;" ∷ "&eDDot;" ∷ "&eDot;" ∷ "&eacute" ∷ "&eacute;" ∷ "&easter;" ∷ "&ecaron;"
    ∷ "&ecir;" ∷ "&ecirc" ∷ "&ecirc;" ∷ "&ecolon;" ∷ "&ecy;" ∷ "&edot;" ∷ "&ee;" ∷ "&efDot;"
    ∷ "&efr;" ∷ "&eg;" ∷ "&egrave" ∷ "&egrave;" ∷ "&egs;" ∷ "&egsdot;" ∷ "&el;" ∷ "&elinters;"
    ∷ "&ell;" ∷ "&els;" ∷ "&elsdot;" ∷ "&emacr;" ∷ "&empty;" ∷ "&emptyset;" ∷ "&emptyv;"
    ∷ "&emsp13;" ∷ "&emsp14;" ∷ "&emsp;" ∷ "&eng;" ∷ "&ensp;" ∷ "&eogon;" ∷ "&eopf;" ∷ "&epar;"
    ∷ "&eparsl;" ∷ "&eplus;" ∷ "&epsi;" ∷ "&epsilon;" ∷ "&epsiv;" ∷ "&eqcirc;" ∷ "&eqcolon;"
    ∷ "&eqsim;" ∷ "&eqslantgtr;" ∷ "&eqslantless;" ∷ "&equals;" ∷ "&equest;" ∷ "&equiv;"
    ∷ "&equivDD;" ∷ "&eqvparsl;" ∷ "&erDot;" ∷ "&erarr;" ∷ "&escr;" ∷ "&esdot;" ∷ "&esim;" ∷ "&eta;"
    ∷ "&eth" ∷ []
