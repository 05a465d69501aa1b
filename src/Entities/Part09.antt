-- ===== src/Entities/Part09.antt =====
-- src/entities.rs: lines 1224 to 1372 of the table `ENTITIES`.
use Prim.Native.String.{String}
use mathlib.Core.List.{List, [], ◌∷◌}

unfoldable pub part_09 : List String
part_09 =
    "&iiiint;" ∷ "&iiint;" ∷ "&iinfin;" ∷ "&iiota;" ∷ "&ijlig;" ∷ "&imacr;" ∷ "&image;"
    ∷ "&imagline;" ∷ "&imagpart;" ∷ "&imath;" ∷ "&imof;" ∷ "&imped;" ∷ "&in;" ∷ "&incare;"
    ∷ "&infin;" ∷ "&infintie;" ∷ "&inodot;" ∷ "&int;" ∷ "&intcal;" ∷ "&integers;" ∷ "&intercal;"
    ∷ "&intlarhk;" ∷ "&intprod;" ∷ "&iocy;" ∷ "&iogon;" ∷ "&iopf;" ∷ "&iota;" ∷ "&iprod;"
    ∷ "&iquest" ∷ "&iquest;" ∷ "&iscr;" ∷ "&isin;" ∷ "&isinE;" ∷ "&isindot;" ∷ "&isins;"
    ∷ "&isinsv;" ∷ "&isinv;" ∷ "&it;" ∷ "&itilde;" ∷ "&iukcy;" ∷ "&iuml" ∷ "&iuml;" ∷ "&jcirc;"
    ∷ "&jcy;" ∷ "&jfr;" ∷ "&jmath;" ∷ "&jopf;" ∷ "&jscr;" ∷ "&jsercy;" ∷ "&jukcy;" ∷ "&kappa;"
    ∷ "&kappav;" ∷ "&kcedil;" ∷ "&kcy;" ∷ "&kfr;" ∷ "&kgreen;" ∷ "&khcy;" ∷ "&kjcy;" ∷ "&kopf;"
    ∷ "&kscr;" ∷ "&lAarr;" ∷ "&lArr;" ∷ "&lAtail;" ∷ "&lBarr;" ∷ "&lE;" ∷ "&lEg;" ∷ "&lHar;"
    ∷ "&lacute;" ∷ "&laemptyv;" ∷ "&lagran;" ∷ "&lambda;" ∷ "&lang;" ∷ "&langd;" ∷ "&langle;"
    ∷ "&lap;" ∷ "&laquo" ∷ "&laquo;" ∷ "&larr;" ∷ "&larrb;" ∷ "&larrbfs;" ∷ "&larrfs;" ∷ "&larrhk;"
    ∷ "&larrlp;" ∷ "&larrpl;" ∷ "&larrsim;" ∷ "&larrtl;" ∷ "&lat;" ∷ "&latail;" ∷ "&late;"
    ∷ "&lates;" ∷ "&lbarr;" ∷ "&lbbrk;" ∷ "&lbrace;" ∷ "&lbrack;" ∷ "&lbrke;" ∷ "&lbrksld;"
    ∷ "&lbrkslu;" ∷ "&lcaron;" ∷ "&lcedil;" ∷ "&lceil;" ∷ "&lcub;" ∷ "&lcy;" ∷ "&ldca;" ∷ "&ldquo;"
    ∷ "&ldquor;" ∷ "&ldrdhar;" ∷ "&ldrushar;" ∷ "&ldsh;" ∷ "&le;" ∷ "&leftarrow;"
    ∷ "&leftarrowtail;" ∷ "&leftharpoondown;" ∷ "&leftharpoonup;" ∷ "&leftleftarrows;"
    ∷ "&leftrightarrow;" ∷ "&leftrightarrows;" ∷ "&leftrightharpoons;" ∷ "&leftrightsquigarrow;"
    ∷ "&leftthreetimes;" ∷ "&leg;" ∷ "&leq;" ∷ "&leqq;" ∷ "&leqslant;" ∷ "&les;" ∷ "&lescc;"
    ∷ "&lesdot;" ∷ "&lesdoto;" ∷ "&lesdotor;" ∷ "&lesg;" ∷ "&lesges;" ∷ "&lessapprox;" ∷ "&lessdot;"
    ∷ "&lesseqgtr;" ∷ "&lesseqqgtr;" ∷ "&lessgtr;" ∷ "&lesssim;" ∷ "&lfisht;" ∷ "&lfloor;" ∷ "&lfr;"
    ∷ "&lg;" ∷ "&lgE;" ∷ "&lhard;" ∷ "&lharu;" ∷ "&lharul;" ∷ "&lhblk;" ∷ "&ljcy;" ∷ "&ll;"
    ∷ "&llarr;" ∷ "&llcorner;" ∷ []
