-- ===== src/Normalize.antt =====
-- internal/normalize/normalize.go: hosts, paths and query strings in normal form.
pub mod Query
pub mod Paths
use scopepilot.Prelude.{
  ℕ, zero, suc, ◌-◌, Bool, true, false, ◌&&◌, ◌||◌, not, List, [], ◌∷◌, ◌++◌, Option, none, some,
  leb, ltb, ◌==◌, if◌then◌else◌, length, take, drop, any,
}
use scopepilot.Text.{
  Text, codes, text_eq, text_lt, to_lower, trim_space, trim_by, trim_suffix, has_prefix, has_suffix,
  contains, index_byte, split, join,
}

abbrev pub or_else {ℓ} : {A : Type ℓ} → Option A → A → A
or_else none d = d
or_else (some a) d = a

-- The fields of `url.URL` that the program reads and writes.
pub record Url : Type 0 where
  pub scheme : Text
  pub host_port : Text  -- `Host`
  pub path : Text
  pub raw_query : Text
  pub fragment : Text

-- A text around the last occurrence of a byte.
pub split_last : Text → ℕ → Option (Text × Text)
split_last [] b = none
split_last (c ∷ s) b = elim (split_last s b) [
  | some (front, back) ↦ some (c ∷ front, back)
  | none ↦ if c == b then some ([], s) else none
]

abbrev pub is_decimal : ℕ → Bool
is_decimal r = leb b'0' r && leb r b'9'

abbrev pub digits_after : Text → Option (Text × Text) → Text × Text
digits_after whole none = (whole, [])
digits_after whole (some (front, back)) =
    if any (λ r. not (is_decimal r)) back then (whole, []) else (front, back)

-- Host and port of `url.URL.Host`: what follows the last colon is a port if it is all digits.
pub host_and_port : Text → Text × Text
unfolding split_last
host_and_port h = digits_after h (split_last h b':')

abbrev pub unbracket : Text → Text
unbracket h =
    if has_prefix h (codes "[") && has_suffix h (codes "]")
    then take (length h - 2) (drop 1 h)
    else h

-- url.URL.Hostname
unfoldable pub hostname : Url → Text
unfolding host_and_port
hostname u = unbracket (host_and_port u.host_port).0

-- url.URL.Port
unfoldable pub port_of : Url → Text
unfolding host_and_port
port_of u = (host_and_port u.host_port).1

-- Host. `to_ascii` is `idna.ToASCII`, with `none` for an error.
unfoldable pub host : (Text → Option Text) → Text → Text
host to_ascii h =
    let trimmed = trim_suffix (to_lower (trim_space h)) (codes ".") in
    or_else (to_ascii trimmed) trimmed

-- strings.ReplaceAll(path, "//", "/")
pub replace_slashes : Text → Text
replace_slashes [] = []
replace_slashes (c ∷ []) = c ∷ []
replace_slashes (c ∷ d ∷ s) =
    let short = replace_slashes s in
    let long = replace_slashes (d ∷ s) in
    if (c == b'/') && (d == b'/') then b'/' ∷ short else c ∷ long

-- The loop of Path, which runs while the path contains "//".
pub collapse : ℕ → Text → Text
unfolding replace_slashes
collapse zero path = path
collapse (suc fuel) path = elim (contains path (codes "//")) [
  | true ↦ collapse fuel (replace_slashes path)
  | false ↦ path
]

-- Path
unfoldable pub normal_path : Text → Text
unfolding collapse
normal_path p =
    let rooted = if has_prefix p (codes "/") then p else b'/' ∷ p in
    if text_eq p [] then codes "/" else collapse (length rooted) rooted

-- The loop of cleanPath over the segments; `cleaned` grows at its end.
pub resolve : List Text → List Text → List Text
resolve cleaned [] = cleaned
resolve cleaned (seg ∷ segments) =
    resolve
      (if text_eq seg [] || text_eq seg (codes ".")
        then cleaned
        else if text_eq seg (codes "..")
        then take (length cleaned - 1) cleaned
        else cleaned ++ (seg ∷ []))
      segments

-- cleanPath
unfoldable pub clean_path : Text → Text
unfolding resolve
clean_path p = if text_eq p [] then codes "/" else b'/' ∷ join (resolve [] (split p b'/')) b'/'

-- getKey
pub get_key : Text → Text
get_key pair = elim (index_byte pair b'=') [ none ↦ pair | some i ↦ take i pair ]

-- One round of sortQuery's outer loop: `x` stands at position i, the list behind it.
pub sweep : Text → List Text → Text × List Text
unfolding get_key
sweep x [] = (x, [])
sweep x (y ∷ ys) =
    let swap = text_lt (get_key y) (get_key x) in
    let (least, rest) = sweep (if swap then y else x) ys in (least, (if swap then x else y) ∷ rest)

-- The outer loop, over as many positions as the list is long.
pub exchange_sort : ℕ → List Text → List Text
unfolding sweep
exchange_sort zero pairs = pairs
exchange_sort (suc n) [] = []
exchange_sort (suc n) (x ∷ xs) = let (least, rest) = sweep x xs in least ∷ exchange_sort n rest

-- sortQuery
unfoldable pub sort_query : Text → Text
unfolding exchange_sort
sort_query query =
    let pairs = split query b'&' in
    if text_eq query [] then [] else join (exchange_sort (length pairs) pairs) b'&'

-- The changes that URL makes to the parsed URL, in their order.
unfoldable pub normalize_url : (Text → Option Text) → Url → Url
normalize_url to_ascii parsed =
    let u = record parsed {
      scheme = to_lower parsed.scheme;
      host_port = host to_ascii parsed.host_port;
    } in
    let is_default =
      (text_eq u.scheme (codes "http") && text_eq (port_of u) (codes "80"))
      || (text_eq u.scheme (codes "https") && text_eq (port_of u) (codes "443")) in
    record u {
      host_port = if is_default then hostname u else u.host_port;
      fragment = [];
      raw_query = if text_eq u.raw_query [] then u.raw_query else sort_query u.raw_query;
      path = clean_path u.path;
    }

abbrev pub printed : (Text → Option Text) → (Url → Text) → Option Url → Option Text
printed to_ascii print none = none
printed to_ascii print (some u) = some (print (normalize_url to_ascii u))

-- URL. `parse` is `url.Parse`, and `print` is `url.URL.String`.
unfoldable pub url : (Text → Option Text) → (Text → Option Url) → (Url → Text) → Text → Option Text
unfolding normalize_url
url to_ascii parse print raw = printed to_ascii print (parse raw)

-- URLHost
unfoldable pub url_host : (Text → Option Text) → (Text → Option Url) → Text → Text
url_host to_ascii parse raw = elim (parse raw) [ none ↦ [] | some u ↦ host to_ascii (hostname u) ]

abbrev pub is_letter : ℕ → Bool
is_letter r = (leb b'a' r && leb r b'z') || (leb b'A' r && leb r b'Z')

-- A byte past 127 is part of a rune past 127, which the loop lets through, letter or not.
abbrev pub is_label_char : ℕ → Bool
is_label_char r = is_letter r || (leb b'0' r && leb r b'9') || (r == b'-') || ltb 127 r

-- The body of the loop over the labels; `false` is its `return false`.
pub is_valid_label : Text → Bool
is_valid_label label =
    not ((length label == 0) || ltb 63 (length label))
    && not (has_prefix label (codes "-") || has_suffix label (codes "-"))
    && not (any (λ r. not (is_label_char r)) label)

-- IsValidHostname
unfoldable pub is_valid_hostname : Text → Bool
unfolding is_valid_label
is_valid_hostname h =
    if text_eq h []
    then false
    else if ltb 253 (length h)
    then false
    else not (any (λ label. not (is_valid_label label)) (split h b'.'))

abbrev pub is_bracket : ℕ → Bool
is_bracket c = (c == b'[') || (c == b']')

abbrev pub is_hex_char : ℕ → Bool
is_hex_char r =
    is_decimal r
    || (leb b'a' r && leb r b'f')
    || (leb b'A' r && leb r b'F')
    || (r == b':')
    || (r == b'.')

-- IsIPLiteral
unfoldable pub is_ip_literal : Text → Bool
is_ip_literal raw =
    let s = trim_by is_bracket raw in
    let has_colon = contains s (codes ":") in
    let has_dot = contains s (codes ".") in
    let parts = split s b'.' in
    if has_dot && not has_colon
    then if length parts == 4 then not (any (λ p. any (λ r. not (is_decimal r)) p) parts) else false
    else if has_colon
    then not (any (λ r. not (is_hex_char r)) s)
    else false
