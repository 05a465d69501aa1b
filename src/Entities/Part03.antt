-- ===== src/Entities/Part03.antt =====
-- src/entities.rs: lines 330 to 478 of the table `ENTITIES`.
use Prim.Native.String.{String}
use mathlib.Core.List.{List, [], ◌∷◌}

unfoldable pub part_03 : List String
part_03 =
    "&Lopf;" ∷ "&LowerLeftArrow;" ∷ "&LowerRightArrow;" ∷ "&Lscr;" ∷ "&Lsh;" ∷ "&Lstrok;" ∷ "&Lt;"
    ∷ "&Map;" ∷ "&Mcy;" ∷ "&MediumSpace;" ∷ "&Mellintrf;" ∷ "&Mfr;" ∷ "&MinusPlus;" ∷ "&Mopf;"
    ∷ "&Mscr;" ∷ "&Mu;" ∷ "&NJcy;" ∷ "&Nacute;" ∷ "&Ncaron;" ∷ "&Ncedil;" ∷ "&Ncy;"
    ∷ "&NegativeMediumSpace;" ∷ "&NegativeThickSpace;" ∷ "&NegativeThinSpace;"
    ∷ "&NegativeVeryThinSpace;" ∷ "&NestedGreaterGreater;" ∷ "&NestedLessLess;" ∷ "&NewLine;"
    ∷ "&Nfr;" ∷ "&NoBreak;" ∷ "&NonBreakingSpace;" ∷ "&Nopf;" ∷ "&Not;" ∷ "&NotCongruent;"
    ∷ "&NotCupCap;" ∷ "&NotDoubleVerticalBar;" ∷ "&NotElement;" ∷ "&NotEqual;" ∷ "&NotEqualTilde;"
    ∷ "&NotExists;" ∷ "&NotGreater;" ∷ "&NotGreaterEqual;" ∷ "&NotGreaterFullEqual;"
    ∷ "&NotGreaterGreater;" ∷ "&NotGreaterLess;" ∷ "&NotGreaterSlantEqual;" ∷ "&NotGreaterTilde;"
    ∷ "&NotHumpDownHump;" ∷ "&NotHumpEqual;" ∷ "&NotLeftTriangle;" ∷ "&NotLeftTriangleBar;"
    ∷ "&NotLeftTriangleEqual;" ∷ "&NotLess;" ∷ "&NotLessEqual;" ∷ "&NotLessGreater;"
    ∷ "&NotLessLess;" ∷ "&NotLessSlantEqual;" ∷ "&NotLessTilde;" ∷ "&NotNestedGreaterGreater;"
    ∷ "&NotNestedLessLess;" ∷ "&NotPrecedes;" ∷ "&NotPrecedesEqual;" ∷ "&NotPrecedesSlantEqual;"
    ∷ "&NotReverseElement;" ∷ "&NotRightTriangle;" ∷ "&NotRightTriangleBar;"
    ∷ "&NotRightTriangleEqual;" ∷ "&NotSquareSubset;" ∷ "&NotSquareSubsetEqual;"
    ∷ "&NotSquareSuperset;" ∷ "&NotSquareSupersetEqual;" ∷ "&NotSubset;" ∷ "&NotSubsetEqual;"
    ∷ "&NotSucceeds;" ∷ "&NotSucceedsEqual;" ∷ "&NotSucceedsSlantEqual;" ∷ "&NotSucceedsTilde;"
    ∷ "&NotSuperset;" ∷ "&NotSupersetEqual;" ∷ "&NotTilde;" ∷ "&NotTildeEqual;"
    ∷ "&NotTildeFullEqual;" ∷ "&NotTildeTilde;" ∷ "&NotVerticalBar;" ∷ "&Nscr;" ∷ "&Ntilde"
    ∷ "&Ntilde;" ∷ "&Nu;" ∷ "&OElig;" ∷ "&Oacute" ∷ "&Oacute;" ∷ "&Ocirc" ∷ "&Ocirc;" ∷ "&Ocy;"
    ∷ "&Odblac;" ∷ "&Ofr;" ∷ "&Ograve" ∷ "&Ograve;" ∷ "&Omacr;" ∷ "&Omega;" ∷ "&Omicron;" ∷ "&Oopf;"
    ∷ "&OpenCurlyDoubleQuote;" ∷ "&OpenCurlyQuote;" ∷ "&Or;" ∷ "&Oscr;" ∷ "&Oslash" ∷ "&Oslash;"
    ∷ "&Otilde" ∷ "&Otilde;" ∷ "&Otimes;" ∷ "&Ouml" ∷ "&Ouml;" ∷ "&OverBar;" ∷ "&OverBrace;"
    ∷ "&OverBracket;" ∷ "&OverParenthesis;" ∷ "&PartialD;" ∷ "&Pcy;" ∷ "&Pfr;" ∷ "&Phi;" ∷ "&Pi;"
    ∷ "&PlusMinus;" ∷ "&Poincareplane;" ∷ "&Popf;" ∷ "&Pr;" ∷ "&Precedes;" ∷ "&PrecedesEqual;"
    ∷ "&PrecedesSlantEqual;" ∷ "&PrecedesTilde;" ∷ "&Prime;" ∷ "&Product;" ∷ "&Proportion;"
    ∷ "&Proportional;" ∷ "&Pscr;" ∷ "&Psi;" ∷ "&QUOT" ∷ "&QUOT;" ∷ "&Qfr;" ∷ "&Qopf;" ∷ "&Qscr;"
    ∷ "&RBarr;" ∷ "&REG" ∷ "&REG;" ∷ "&Racute;" ∷ "&Rang;" ∷ "&Rarr;" ∷ "&Rarrtl;" ∷ "&Rcaron;" ∷ []
