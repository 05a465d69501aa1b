-- ===== src/Entities/Part04.antt =====
-- src/entities.rs: lines 479 to 627 of the table `ENTITIES`.
use Prim.Native.String.{String}
use mathlib.Core.List.{List, [], ◌∷◌}

unfoldable pub part_04 : List String
part_04 =
    "&Rcedil;" ∷ "&Rcy;" ∷ "&Re;" ∷ "&ReverseElement;" ∷ "&ReverseEquilibrium;"
    ∷ "&ReverseUpEquilibrium;" ∷ "&Rfr;" ∷ "&Rho;" ∷ "&RightAngleBracket;" ∷ "&RightArrow;"
    ∷ "&RightArrowBar;" ∷ "&RightArrowLeftArrow;" ∷ "&RightCeiling;" ∷ "&RightDoubleBracket;"
    ∷ "&RightDownTeeVector;" ∷ "&RightDownVector;" ∷ "&RightDownVectorBar;" ∷ "&RightFloor;"
    ∷ "&RightTee;" ∷ "&RightTeeArrow;" ∷ "&RightTeeVector;" ∷ "&RightTriangle;"
    ∷ "&RightTriangleBar;" ∷ "&RightTriangleEqual;" ∷ "&RightUpDownVector;" ∷ "&RightUpTeeVector;"
    ∷ "&RightUpVector;" ∷ "&RightUpVectorBar;" ∷ "&RightVector;" ∷ "&RightVectorBar;"
    ∷ "&Rightarrow;" ∷ "&Ropf;" ∷ "&RoundImplies;" ∷ "&Rrightarrow;" ∷ "&Rscr;" ∷ "&Rsh;"
    ∷ "&RuleDelayed;" ∷ "&SHCHcy;" ∷ "&SHcy;" ∷ "&SOFTcy;" ∷ "&Sacute;" ∷ "&Sc;" ∷ "&Scaron;"
    ∷ "&Scedil;" ∷ "&Scirc;" ∷ "&Scy;" ∷ "&Sfr;" ∷ "&ShortDownArrow;" ∷ "&ShortLeftArrow;"
    ∷ "&ShortRightArrow;" ∷ "&ShortUpArrow;" ∷ "&Sigma;" ∷ "&SmallCircle;" ∷ "&Sopf;" ∷ "&Sqrt;"
    ∷ "&Square;" ∷ "&SquareIntersection;" ∷ "&SquareSubset;" ∷ "&SquareSubsetEqual;"
    ∷ "&SquareSuperset;" ∷ "&SquareSupersetEqual;" ∷ "&SquareUnion;" ∷ "&Sscr;" ∷ "&Star;" ∷ "&Sub;"
    ∷ "&Subset;" ∷ "&SubsetEqual;" ∷ "&Succeeds;" ∷ "&SucceedsEqual;" ∷ "&SucceedsSlantEqual;"
    ∷ "&SucceedsTilde;" ∷ "&SuchThat;" ∷ "&Sum;" ∷ "&Sup;" ∷ "&Superset;" ∷ "&SupersetEqual;"
    ∷ "&Supset;" ∷ "&THORN" ∷ "&THORN;" ∷ "&TRADE;" ∷ "&TSHcy;" ∷ "&TScy;" ∷ "&Tab;" ∷ "&Tau;"
    ∷ "&Tcaron;" ∷ "&Tcedil;" ∷ "&Tcy;" ∷ "&Tfr;" ∷ "&Therefore;" ∷ "&Theta;" ∷ "&ThickSpace;"
    ∷ "&ThinSpace;" ∷ "&Tilde;" ∷ "&TildeEqual;" ∷ "&TildeFullEqual;" ∷ "&TildeTilde;" ∷ "&Topf;"
    ∷ "&TripleDot;" ∷ "&Tscr;" ∷ "&Tstrok;" ∷ "&Uacute" ∷ "&Uacute;" ∷ "&Uarr;" ∷ "&Uarrocir;"
    ∷ "&Ubrcy;" ∷ "&Ubreve;" ∷ "&Ucirc" ∷ "&Ucirc;" ∷ "&Ucy;" ∷ "&Udblac;" ∷ "&Ufr;" ∷ "&Ugrave"
    ∷ "&Ugrave;" ∷ "&Umacr;" ∷ "&UnderBar;" ∷ "&UnderBrace;" ∷ "&UnderBracket;"
    ∷ "&UnderParenthesis;" ∷ "&Union;" ∷ "&UnionPlus;" ∷ "&Uogon;" ∷ "&Uopf;" ∷ "&UpArrow;"
    ∷ "&UpArrowBar;" ∷ "&UpArrowDownArrow;" ∷ "&UpDownArrow;" ∷ "&UpEquilibrium;" ∷ "&UpTee;"
    ∷ "&UpTeeArrow;" ∷ "&Uparrow;" ∷ "&Updownarrow;" ∷ "&UpperLeftArrow;" ∷ "&UpperRightArrow;"
    ∷ "&Upsi;" ∷ "&Upsilon;" ∷ "&Uring;" ∷ "&Uscr;" ∷ "&Utilde;" ∷ "&Uuml" ∷ "&Uuml;" ∷ "&VDash;"
    ∷ "&Vbar;" ∷ "&Vcy;" ∷ "&Vdash;" ∷ "&Vdashl;" ∷ "&Vee;" ∷ "&Verbar;" ∷ "&Vert;"
    ∷ "&VerticalBar;" ∷ []
