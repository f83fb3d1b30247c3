-- ===== src/Url/Parse.antt =====
-- `urlparse(url).hostname` and `.port`, for a URL without blanks, control characters or unbalanced
-- brackets.
use ollama_herd.Common.{
  ℕ, ◌+◌, Bool, false, ◌&&◌, ◌||◌, [], ◌∷◌, ◌++◌, Text, text, ltb, leb, ◌==◌, if◌then◌else◌, all,
  Option, none, some, map, strip_prefix, has_code,
}
use ollama_herd.Url.Decimal.{is_digit, parse_decimal}

-- `s.partition(c)`: what stands before the first `c`, and what stands after it.
unfoldable pub partition : ℕ → Text → Text × Option Text
partition c [] = ([], none)
partition c (a ∷ s) = let r = partition c s in if a == c then ([], some s) else (a ∷ r.0, r.1)

-- `s.rpartition(c)[2]`: what stands after the last `c`.
unfoldable pub after_last : ℕ → Text → Text
after_last c [] = []
after_last c (a ∷ s) = if has_code c s then after_last c s else if a == c then s else a ∷ s

abbrev pub is_lower : ℕ → Bool
is_lower c = leb b'a' c && leb c b'z'

abbrev pub is_upper : ℕ → Bool
is_upper c = leb b'A' c && leb c b'Z'

-- `s.lower()` on ASCII.
abbrev pub lower : Text → Text
lower s = map (λ c. if is_upper c then c + 32 else c) s

abbrev is_scheme_char : ℕ → Bool
is_scheme_char c = is_lower c || is_upper c || is_digit c || c == b'+' || c == b'-' || c == b'.'

abbrev is_scheme : Text → Bool
is_scheme [] = false
is_scheme (c ∷ s) = (is_lower c || is_upper c) && all is_scheme_char s

-- The URL without its scheme and colon.
after_scheme : Text → Text
unfolding partition
after_scheme url =
    let (scheme, after) = partition b':' url in
    elim after [ some rest ↦ if is_scheme scheme then rest else url | none ↦ url ]

-- Up to the first of `/`, `?` and `#`.
unfoldable pub authority : Text → Text
authority [] = []
authority (c ∷ s) = if c == b'/' || c == b'?' || c == b'#' then [] else c ∷ authority s

unfoldable pub netloc : Text → Text
unfolding after_scheme authority
netloc url = elim (strip_prefix (text "//") (after_scheme url)) [
  | none ↦ []
  | some rest ↦ authority rest
]

-- A port is absent, a number, or text whose reading raises `ValueError`.
pub data Port : Type 0 where
  absent : Port
  number : ℕ → Port
  invalid : Port

pub record UrlParts : Type 0 where
  pub hostname : Option Text
  pub port : Port

unfoldable pub read_port : Option Text → Port
read_port none = absent
read_port (some []) = absent
read_port (some (c ∷ s)) = elim (parse_decimal (c ∷ s)) [
  | none ↦ invalid
  | some n ↦ if ltb 65535 n then invalid else number n
]

-- The zone of an IPv6 address keeps its case.
unfoldable pub read_hostname : Text → Option Text
read_hostname [] = none
read_hostname (c ∷ s) =
    let (host, after) = partition b'%' (c ∷ s) in
    elim after [ none ↦ some (lower host) | some zone ↦ some (lower host ++ b'%' ∷ zone) ]

-- Host name and port text of `netloc`, brackets of an IPv6 address taken off.
unfoldable pub host_info : Text → Text × Option Text
host_info info =
    let (before, after) = partition b'[' info in
    elim after [
      | none ↦ partition b':' info
      | some inside ↦
          let (host, rest) = partition b']' inside in
          (host, elim rest [ none ↦ none | some r ↦ (partition b':' r).1 ])
    ]

unfoldable pub urlparse : Text → UrlParts
unfolding netloc after_last host_info read_hostname read_port partition
urlparse url =
    let info = host_info (after_last b'@' (netloc url)) in
    record { hostname = read_hostname info.0; port = read_port info.1 }
