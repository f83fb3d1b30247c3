-- ===== src/Url/Roundtrip.antt =====
-- The URLs that the router writes, `http://host:port`, are read back.
use ollama_herd.Common.{
  ℕ, ◌<◌, ◌≡◌, refl, Bool, true, false, not, ◌&&◌, ◌||◌, [], ◌∷◌, ◌++◌, arith, Text, text, ◌==◌,
  all, none, some, is_empty, has_code,
}
use ollama_herd.Url.Decimal.{
  decimal, is_digit, parse_decimal, parse_decimal-decimal, all_digits-decimal, decimal_nonempty,
}
use ollama_herd.Url.Parse.{
  is_upper, lower, partition, after_last, authority, netloc, read_port, read_hostname, host_info,
  urlparse, number,
}

-- A character that no part of the reader treats specially.
abbrev pub is_plain : ℕ → Bool
is_plain c =
    not (c == b':' || c == b'/' || c == b'?' || c == b'#' || c == b'@' || c == b'[' || c == b'%')
    && not (is_upper c)

-- A character that `authority`, `rpartition("@")` and `partition("[")` pass over.
abbrev is_inner : ℕ → Bool
is_inner c = not (c == b'/' || c == b'?' || c == b'#' || c == b'@' || c == b'[')

authority-inner : (s : Text) → all is_inner s ≡ true → authority s ≡ s
unfolding authority
authority-inner [] h = refl
authority-inner (c ∷ s) h = ground (arith, authority-inner s)

no_at-inner : (s : Text) → all is_inner s ≡ true → has_code b'@' s ≡ false
no_at-inner [] h = refl
no_at-inner (c ∷ s) h = ground (arith, no_at-inner s)

after_last_absent : (c : ℕ) (s : Text) → has_code c s ≡ false → after_last c s ≡ s
unfolding after_last
after_last_absent c [] h = refl
after_last_absent c (a ∷ s) h = ground arith

partition_bracket : (s : Text) → all is_inner s ≡ true → partition b'[' s ≡ (s, none)
unfolding partition
partition_bracket [] h = refl
partition_bracket (c ∷ s) h = ground (arith, partition_bracket s)

partition_colon :
    (h r : Text) → all is_plain h ≡ true → partition b':' (h ++ b':' ∷ r) ≡ (h, some r)
unfolding partition
partition_colon [] r p = refl
partition_colon (c ∷ h) r p = ground (arith, partition_colon h r)

partition_zone : (h : Text) → all is_plain h ≡ true → partition b'%' h ≡ (h, none)
unfolding partition
partition_zone [] p = refl
partition_zone (c ∷ h) p = ground (arith, partition_zone h)

lower-plain : (h : Text) → all is_plain h ≡ true → lower h ≡ h
lower-plain [] p = refl
lower-plain (c ∷ h) p = ground (arith, lower-plain h)

inner-digits : (s : Text) → all is_digit s ≡ true → all is_inner s ≡ true
inner-digits [] h = refl
inner-digits (c ∷ s) h = ground (arith, inner-digits s)

inner-append :
    (h s : Text) → all is_plain h ≡ true → all is_inner s ≡ true → all is_inner (h ++ s) ≡ true
inner-append [] s p q = q
inner-append (c ∷ h) s p q = ground (arith, inner-append h s)

read_port-some :
    (s : Text) (n : ℕ)
    → is_empty s ≡ false
    → parse_decimal s ≡ some n
    → n < 65536
    → read_port (some s) ≡ number n
unfolding read_port
read_port-some [] n e h b = cc
read_port-some (c ∷ s) n e h b = ground arith

read_hostname-plain :
    (h : Text) → is_empty h ≡ false → all is_plain h ≡ true → read_hostname h ≡ some h
unfolding read_hostname
read_hostname-plain [] e p = cc
read_hostname-plain (c ∷ h) e p = ground (arith, partition_zone (c ∷ h) p, lower-plain (c ∷ h) p)

netloc-inner : (s : Text) → all is_inner s ≡ true → netloc (text "http://" ++ s) ≡ s
unfolding netloc partition
netloc-inner s h = authority-inner s h

inner-host_port :
    (host : Text) (port : ℕ)
    → all is_plain host ≡ true
    → all is_inner (host ++ b':' ∷ decimal port) ≡ true
inner-host_port host port p =
    inner-append host (b':' ∷ decimal port) p
      (inner-digits (decimal port) (all_digits-decimal port))

host_info-host_port :
    (host : Text) (port : ℕ)
    → all is_plain host ≡ true
    → host_info (host ++ b':' ∷ decimal port) ≡ (host, some (decimal port))
unfolding host_info
host_info-host_port host port p = ground (
  arith,
  partition_bracket (host ++ b':' ∷ decimal port) (inner-host_port host port p),
  partition_colon host (decimal port) p,
)

-- A host name of plain characters and a port below 65536 are read back from `http://host:port`.
pub urlparse-http_url :
    (host : Text) (port : ℕ)
    → is_empty host ≡ false
    → all is_plain host ≡ true
    → port < 65536
    → urlparse (text "http://" ++ (host ++ b':' ∷ decimal port))
      ≡ record { hostname = some host; port = number port }
unfolding urlparse
urlparse-http_url host port e p b =
    let info = host ++ b':' ∷ decimal port in
    let inner = inner-host_port host port p in
    ground (
      arith,
      netloc-inner info inner,
      after_last_absent b'@' info (no_at-inner info inner),
      host_info-host_port host port p,
      read_hostname-plain host e p,
      read_port-some (decimal port) port (decimal_nonempty port) (parse_decimal-decimal port) b,
    )
