-- ===== src/Url/Tests.antt =====
-- Runs of the URL reader.
use ollama_herd.Common.{◌≡◌, refl, some, text}
use ollama_herd.Url.Decimal.{decimal, parse_decimal}
use ollama_herd.Url.Parse.{urlparse, number, absent, invalid}

decimal_11434 : decimal 11434 ≡ text "11434"
unfolding decimal
decimal_11434 = refl

localhost_parts :
    urlparse (text "http://User:pw@LocalHost:11434/api")
    ≡ record { hostname = some (text "localhost"); port = number 11434 }
unfolding urlparse parse_decimal
localhost_parts = refl

bracket_parts :
    urlparse (text "http://[::1]") ≡ record { hostname = some (text "::1"); port = absent }
unfolding urlparse parse_decimal
bracket_parts = refl

large_port :
    urlparse (text "http://h:70000") ≡ record { hostname = some (text "h"); port = invalid }
unfolding urlparse parse_decimal
large_port = refl
