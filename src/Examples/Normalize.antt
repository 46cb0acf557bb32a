-- ===== src/Examples/Normalize.antt =====
-- A query string and a path, for internal/normalize/normalize.go.
use mathlib.Core.List.{Permᴰ}
use scopepilot.Prelude.{◌≤◌, ◌≡◌, ◌≢◌, List, [], true, false, arith, length}
use scopepilot.Text.{Text, codes, split, join, has_prefix, contains}
use scopepilot.Normalize.{sort_query, collapse, normal_path}
use scopepilot.Normalize.Paths.{rooted, normal_path-settles}
use scopepilot.Normalize.Query.{IsSorted, sort_query-IsSorted}

sort_query-IsSorted_example :
    (pairs : List Text) × (sort_query (codes "b=2&a=1&b=1") ≡ join pairs b'&')
    × Permᴰ (split (codes "b=2&a=1&b=1") b'&') pairs
    × IsSorted pairs
sort_query-IsSorted_example = sort_query-IsSorted (codes "b=2&a=1&b=1") (λ e. cc)

settles : length (rooted (codes "a//b")) ≤ 6
unfolding has_prefix
settles = omega arith

some_path : codes "a//b" ≢ []
some_path e = cc

normal_path-settles_example :
    (collapse 6 (rooted (codes "a//b")) ≡ normal_path (codes "a//b"))
    × (has_prefix (normal_path (codes "a//b")) (codes "/") ≡ true)
    × (contains (normal_path (codes "a//b")) (codes "//") ≡ false)
    × (normal_path (normal_path (codes "a//b")) ≡ normal_path (codes "a//b"))
normal_path-settles_example = normal_path-settles (codes "a//b") 6 some_path settles
