-- ===== src/Entities/Part15.antt =====
-- src/entities.rs: lines 2118 to 2262 of the table `ENTITIES`.
use Prim.Native.String.{String}
use mathlib.Core.List.{List, [], ◌∷◌}

unfoldable pub part_15 : List String
part_15 =
    "&udblac;" ∷ "&udhar;" ∷ "&ufisht;" ∷ "&ufr;" ∷ "&ugrave" ∷ "&ugrave;" ∷ "&uharl;" ∷ "&uharr;"
    ∷ "&uhblk;" ∷ "&ulcorn;" ∷ "&ulcorner;" ∷ "&ulcrop;" ∷ "&ultri;" ∷ "&umacr;" ∷ "&uml" ∷ "&uml;"
    ∷ "&uogon;" ∷ "&uopf;" ∷ "&uparrow;" ∷ "&updownarrow;" ∷ "&upharpoonleft;" ∷ "&upharpoonright;"
    ∷ "&uplus;" ∷ "&upsi;" ∷ "&upsih;" ∷ "&upsilon;" ∷ "&upuparrows;" ∷ "&urcorn;" ∷ "&urcorner;"
    ∷ "&urcrop;" ∷ "&uring;" ∷ "&urtri;" ∷ "&uscr;" ∷ "&utdot;" ∷ "&utilde;" ∷ "&utri;" ∷ "&utrif;"
    ∷ "&uuarr;" ∷ "&uuml" ∷ "&uuml;" ∷ "&uwangle;" ∷ "&vArr;" ∷ "&vBar;" ∷ "&vBarv;" ∷ "&vDash;"
    ∷ "&vangrt;" ∷ "&varepsilon;" ∷ "&varkappa;" ∷ "&varnothing;" ∷ "&varphi;" ∷ "&varpi;"
    ∷ "&varpropto;" ∷ "&varr;" ∷ "&varrho;" ∷ "&varsigma;" ∷ "&varsubsetneq;" ∷ "&varsubsetneqq;"
    ∷ "&varsupsetneq;" ∷ "&varsupsetneqq;" ∷ "&vartheta;" ∷ "&vartriangleleft;"
    ∷ "&vartriangleright;" ∷ "&vcy;" ∷ "&vdash;" ∷ "&vee;" ∷ "&veebar;" ∷ "&veeeq;" ∷ "&vellip;"
    ∷ "&verbar;" ∷ "&vert;" ∷ "&vfr;" ∷ "&vltri;" ∷ "&vnsub;" ∷ "&vnsup;" ∷ "&vopf;" ∷ "&vprop;"
    ∷ "&vrtri;" ∷ "&vscr;" ∷ "&vsubnE;" ∷ "&vsubne;" ∷ "&vsupnE;" ∷ "&vsupne;" ∷ "&vzigzag;"
    ∷ "&wcirc;" ∷ "&wedbar;" ∷ "&wedge;" ∷ "&wedgeq;" ∷ "&weierp;" ∷ "&wfr;" ∷ "&wopf;" ∷ "&wp;"
    ∷ "&wr;" ∷ "&wreath;" ∷ "&wscr;" ∷ "&xcap;" ∷ "&xcirc;" ∷ "&xcup;" ∷ "&xdtri;" ∷ "&xfr;"
    ∷ "&xhArr;" ∷ "&xharr;" ∷ "&xi;" ∷ "&xlArr;" ∷ "&xlarr;" ∷ "&xmap;" ∷ "&xnis;" ∷ "&xodot;"
    ∷ "&xopf;" ∷ "&xoplus;" ∷ "&xotime;" ∷ "&xrArr;" ∷ "&xrarr;" ∷ "&xscr;" ∷ "&xsqcup;"
    ∷ "&xuplus;" ∷ "&xutri;" ∷ "&xvee;" ∷ "&xwedge;" ∷ "&yacute" ∷ "&yacute;" ∷ "&yacy;" ∷ "&ycirc;"
    ∷ "&ycy;" ∷ "&yen" ∷ "&yen;" ∷ "&yfr;" ∷ "&yicy;" ∷ "&yopf;" ∷ "&yscr;" ∷ "&yucy;" ∷ "&yuml"
    ∷ "&yuml;" ∷ "&zacute;" ∷ "&zcaron;" ∷ "&zcy;" ∷ "&zdot;" ∷ "&zeetrf;" ∷ "&zeta;" ∷ "&zfr;"
    ∷ "&zhcy;" ∷ "&zigrarr;" ∷ "&zopf;" ∷ "&zscr;" ∷ "&zwj;" ∷ "&zwnj;" ∷ []
