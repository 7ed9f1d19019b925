-- ===== src/Tests/Texts.antt =====
-- The string helpers at concrete texts.
use extractor.Base.{◌≡◌, ◌≢◌, refl, some, none, [], ◌++◌, arith, Bytes, codes, is_space}
use extractor.Util.{replace_loop, is_prefix, trim}
use extractor.Util.Replace.{replaced, replace_loop_lem, replace_loop-endless}
use extractor.Util.Trim.{IsBlank, StartsVisible, EndsVisible, trim_lem}

pattern_is_there : codes "aa" ≢ []
pattern_is_there e = cc

-- An occurrence is taken from the left, and what is put in is not searched again.
replace_loop_lem_example :
    replace_loop 6 (codes "xaaay") (codes "aa") (codes "aaa") 0 ≡ some (codes "xaaaay")
unfolding replaced is_prefix
replace_loop_lem_example =
    replace_loop_lem (codes "aa") (codes "xaaay") (codes "aaa") 6 pattern_is_there (omega arith)

replace_loop-endless_example : replace_loop 100 (codes "abc") [] (codes "x") 0 ≡ none
replace_loop-endless_example = replace_loop-endless (codes "abc") (codes "x") 100

trim-spaces : trim (codes " \ta b\n") ≡ codes "a b"
unfolding trim is_space
trim-spaces = refl

trim_lem_example :
    (before after : Bytes) × (codes " \ta b\n" ≡ before ++ (trim (codes " \ta b\n") ++ after))
    × IsBlank before
    × IsBlank after
    × StartsVisible (trim (codes " \ta b\n"))
    × EndsVisible (trim (codes " \ta b\n"))
trim_lem_example = trim_lem (codes " \ta b\n")
