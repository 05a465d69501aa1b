-- ===== src/Entities/Part14.antt =====
-- src/entities.rs: lines 1969 to 2117 of the table `ENTITIES`.
use Prim.Native.String.{String}
use mathlib.Core.List.{List, [], ◌∷◌}

unfoldable pub part_14 : List String
part_14 =
    "&sqsup;" ∷ "&sqsupe;" ∷ "&sqsupset;" ∷ "&sqsupseteq;" ∷ "&squ;" ∷ "&square;" ∷ "&squarf;"
    ∷ "&squf;" ∷ "&srarr;" ∷ "&sscr;" ∷ "&ssetmn;" ∷ "&ssmile;" ∷ "&sstarf;" ∷ "&star;" ∷ "&starf;"
    ∷ "&straightepsilon;" ∷ "&straightphi;" ∷ "&strns;" ∷ "&sub;" ∷ "&subE;" ∷ "&subdot;" ∷ "&sube;"
    ∷ "&subedot;" ∷ "&submult;" ∷ "&subnE;" ∷ "&subne;" ∷ "&subplus;" ∷ "&subrarr;" ∷ "&subset;"
    ∷ "&subseteq;" ∷ "&subseteqq;" ∷ "&subsetneq;" ∷ "&subsetneqq;" ∷ "&subsim;" ∷ "&subsub;"
    ∷ "&subsup;" ∷ "&succ;" ∷ "&succapprox;" ∷ "&succcurlyeq;" ∷ "&succeq;" ∷ "&succnapprox;"
    ∷ "&succneqq;" ∷ "&succnsim;" ∷ "&succsim;" ∷ "&sum;" ∷ "&sung;" ∷ "&sup1" ∷ "&sup1;" ∷ "&sup2"
    ∷ "&sup2;" ∷ "&sup3" ∷ "&sup3;" ∷ "&sup;" ∷ "&supE;" ∷ "&supdot;" ∷ "&supdsub;" ∷ "&supe;"
    ∷ "&supedot;" ∷ "&suphsol;" ∷ "&suphsub;" ∷ "&suplarr;" ∷ "&supmult;" ∷ "&supnE;" ∷ "&supne;"
    ∷ "&supplus;" ∷ "&supset;" ∷ "&supseteq;" ∷ "&supseteqq;" ∷ "&supsetneq;" ∷ "&supsetneqq;"
    ∷ "&supsim;" ∷ "&supsub;" ∷ "&supsup;" ∷ "&swArr;" ∷ "&swarhk;" ∷ "&swarr;" ∷ "&swarrow;"
    ∷ "&swnwar;" ∷ "&szlig" ∷ "&szlig;" ∷ "&target;" ∷ "&tau;" ∷ "&tbrk;" ∷ "&tcaron;" ∷ "&tcedil;"
    ∷ "&tcy;" ∷ "&tdot;" ∷ "&telrec;" ∷ "&tfr;" ∷ "&there4;" ∷ "&therefore;" ∷ "&theta;"
    ∷ "&thetasym;" ∷ "&thetav;" ∷ "&thickapprox;" ∷ "&thicksim;" ∷ "&thinsp;" ∷ "&thkap;"
    ∷ "&thksim;" ∷ "&thorn" ∷ "&thorn;" ∷ "&tilde;" ∷ "&times" ∷ "&times;" ∷ "&timesb;"
    ∷ "&timesbar;" ∷ "&timesd;" ∷ "&tint;" ∷ "&toea;" ∷ "&top;" ∷ "&topbot;" ∷ "&topcir;" ∷ "&topf;"
    ∷ "&topfork;" ∷ "&tosa;" ∷ "&tprime;" ∷ "&trade;" ∷ "&triangle;" ∷ "&triangledown;"
    ∷ "&triangleleft;" ∷ "&trianglelefteq;" ∷ "&triangleq;" ∷ "&triangleright;"
    ∷ "&trianglerighteq;" ∷ "&tridot;" ∷ "&trie;" ∷ "&triminus;" ∷ "&triplus;" ∷ "&trisb;"
    ∷ "&tritime;" ∷ "&trpezium;" ∷ "&tscr;" ∷ "&tscy;" ∷ "&tshcy;" ∷ "&tstrok;" ∷ "&twixt;"
    ∷ "&twoheadleftarrow;" ∷ "&twoheadrightarrow;" ∷ "&uArr;" ∷ "&uHar;" ∷ "&uacute" ∷ "&uacute;"
    ∷ "&uarr;" ∷ "&ubrcy;" ∷ "&ubreve;" ∷ "&ucirc" ∷ "&ucirc;" ∷ "&ucy;" ∷ "&udarr;" ∷ []
