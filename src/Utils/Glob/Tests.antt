-- ===== src/Utils/Glob/Tests.antt =====
-- The matcher at concrete patterns.
use fyro_db.Prelude.{◌≡◌, refl, Bool, true, false, some, codes}
use fyro_db.Utils.Glob.{glob_match, glob_loop, skip_stars, retry}
use fyro_db.Utils.Glob.Search.{matches}
use fyro_db.Utils.Glob.Correct.{glob_match-matches}
use fyro_db.Utils.Glob.Total.{glob_match_total, glob_match-star_letter}

glob_match-matches_example :
    glob_match (codes "h?l*o") (codes "hallo") ≡ some (matches (codes "h?l*o") (codes "hallo"))
glob_match-matches_example =
    glob_match-matches (codes "h?l*o") (codes "hallo") (refl, (refl, (refl, (refl, (refl, tt)))))

glob_match_total_example : (b : Bool) × (glob_match (codes "a*b*") (codes "*a*b") ≡ some b)
glob_match_total_example = glob_match_total (codes "a*b*") (codes "*a*b")

glob_match-star_letter_example :
    (glob_match (codes "*a") (codes "*ba") ≡ some false)
    × (matches (codes "*a") (codes "*ba") ≡ true)
glob_match-star_letter_example = glob_match-star_letter 97 98 refl refl refl

matched : glob_match (codes "h*llo*") (codes "heello") ≡ some true
unfolding glob_match glob_loop skip_stars retry
matched = refl
