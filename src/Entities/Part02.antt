-- ===== src/Entities/Part02.antt =====
-- src/entities.rs: lines 181 to 329 of the table `ENTITIES`.
use Prim.Native.String.{String}
use mathlib.Core.List.{List, [], ◌∷◌}

unfoldable pub part_02 : List String
part_02 =
    "&Equal;" ∷ "&EqualTilde;" ∷ "&Equilibrium;" ∷ "&Escr;" ∷ "&Esim;" ∷ "&Eta;" ∷ "&Euml"
    ∷ "&Euml;" ∷ "&Exists;" ∷ "&ExponentialE;" ∷ "&Fcy;" ∷ "&Ffr;" ∷ "&FilledSmallSquare;"
    ∷ "&FilledVerySmallSquare;" ∷ "&Fopf;" ∷ "&ForAll;" ∷ "&Fouriertrf;" ∷ "&Fscr;" ∷ "&GJcy;"
    ∷ "&GT" ∷ "&GT;" ∷ "&Gamma;" ∷ "&Gammad;" ∷ "&Gbreve;" ∷ "&Gcedil;" ∷ "&Gcirc;" ∷ "&Gcy;"
    ∷ "&Gdot;" ∷ "&Gfr;" ∷ "&Gg;" ∷ "&Gopf;" ∷ "&GreaterEqual;" ∷ "&GreaterEqualLess;"
    ∷ "&GreaterFullEqual;" ∷ "&GreaterGreater;" ∷ "&GreaterLess;" ∷ "&GreaterSlantEqual;"
    ∷ "&GreaterTilde;" ∷ "&Gscr;" ∷ "&Gt;" ∷ "&HARDcy;" ∷ "&Hacek;" ∷ "&Hat;" ∷ "&Hcirc;" ∷ "&Hfr;"
    ∷ "&HilbertSpace;" ∷ "&Hopf;" ∷ "&HorizontalLine;" ∷ "&Hscr;" ∷ "&Hstrok;" ∷ "&HumpDownHump;"
    ∷ "&HumpEqual;" ∷ "&IEcy;" ∷ "&IJlig;" ∷ "&IOcy;" ∷ "&Iacute" ∷ "&Iacute;" ∷ "&Icirc"
    ∷ "&Icirc;" ∷ "&Icy;" ∷ "&Idot;" ∷ "&Ifr;" ∷ "&Igrave" ∷ "&Igrave;" ∷ "&Im;" ∷ "&Imacr;"
    ∷ "&ImaginaryI;" ∷ "&Implies;" ∷ "&Int;" ∷ "&Integral;" ∷ "&Intersection;" ∷ "&InvisibleComma;"
    ∷ "&InvisibleTimes;" ∷ "&Iogon;" ∷ "&Iopf;" ∷ "&Iota;" ∷ "&Iscr;" ∷ "&Itilde;" ∷ "&Iukcy;"
    ∷ "&Iuml" ∷ "&Iuml;" ∷ "&Jcirc;" ∷ "&Jcy;" ∷ "&Jfr;" ∷ "&Jopf;" ∷ "&Jscr;" ∷ "&Jsercy;"
    ∷ "&Jukcy;" ∷ "&KHcy;" ∷ "&KJcy;" ∷ "&Kappa;" ∷ "&Kcedil;" ∷ "&Kcy;" ∷ "&Kfr;" ∷ "&Kopf;"
    ∷ "&Kscr;" ∷ "&LJcy;" ∷ "&LT" ∷ "&LT;" ∷ "&Lacute;" ∷ "&Lambda;" ∷ "&Lang;" ∷ "&Laplacetrf;"
    ∷ "&Larr;" ∷ "&Lcaron;" ∷ "&Lcedil;" ∷ "&Lcy;" ∷ "&LeftAngleBracket;" ∷ "&LeftArrow;"
    ∷ "&LeftArrowBar;" ∷ "&LeftArrowRightArrow;" ∷ "&LeftCeiling;" ∷ "&LeftDoubleBracket;"
    ∷ "&LeftDownTeeVector;" ∷ "&LeftDownVector;" ∷ "&LeftDownVectorBar;" ∷ "&LeftFloor;"
    ∷ "&LeftRightArrow;" ∷ "&LeftRightVector;" ∷ "&LeftTee;" ∷ "&LeftTeeArrow;" ∷ "&LeftTeeVector;"
    ∷ "&LeftTriangle;" ∷ "&LeftTriangleBar;" ∷ "&LeftTriangleEqual;" ∷ "&LeftUpDownVector;"
    ∷ "&LeftUpTeeVector;" ∷ "&LeftUpVector;" ∷ "&LeftUpVectorBar;" ∷ "&LeftVector;"
    ∷ "&LeftVectorBar;" ∷ "&Leftarrow;" ∷ "&Leftrightarrow;" ∷ "&LessEqualGreater;"
    ∷ "&LessFullEqual;" ∷ "&LessGreater;" ∷ "&LessLess;" ∷ "&LessSlantEqual;" ∷ "&LessTilde;"
    ∷ "&Lfr;" ∷ "&Ll;" ∷ "&Lleftarrow;" ∷ "&Lmidot;" ∷ "&LongLeftArrow;" ∷ "&LongLeftRightArrow;"
    ∷ "&LongRightArrow;" ∷ "&Longleftarrow;" ∷ "&Longleftrightarrow;" ∷ "&Longrightarrow;" ∷ []
