-- ===== src/Models/Json/Dumps.antt =====
-- Python's `json.dumps` with its default separators and `ensure_ascii=True`.
use ollama_herd.Common.{
  ℕ, ◌+◌, ◌-◌, ◌/◌, ◌%◌, true, false, ◌||◌, [], ◌∷◌, ◌++◌, ◌≡◌, refl, Text, text, ltb, ◌==◌,
  if◌then◌else◌,
}
use ollama_herd.Models.Json.{
  Json, null, bool, num, str, arr, obj, Items, nil, cons, Fields, end, field,
}
use ollama_herd.Url.Decimal.{decimal}

abbrev hex_digit : ℕ → ℕ
hex_digit d = if ltb d 10 then d + b'0' else d + 87

-- `'\\u{0:04x}'.format(n)`
abbrev u_escape : ℕ → Text
u_escape n =
    b'\\'
    ∷ b'u'
    ∷ hex_digit (n / 4096 % 16)
    ∷ hex_digit (n / 256 % 16)
    ∷ hex_digit (n / 16 % 16)
    ∷ hex_digit (n % 16)
    ∷ []

-- A code point above 65535 is written as two surrogates.
abbrev escape_wide : ℕ → Text
escape_wide n =
    if ltb n 65536
    then u_escape n
    else u_escape (55296 + (n - 65536) / 1024) ++ u_escape (56320 + (n - 65536) % 1024)

escape_control : ℕ → Text
escape_control c =
    if c == 10
    then text "\\n"
    else if c == 13
    then text "\\r"
    else if c == 9
    then text "\\t"
    else if c == 12
    then text "\\f"
    else if c == 8
    then text "\\b"
    else escape_wide c

escape : ℕ → Text
unfolding escape_control
escape c =
    if c == b'"'
    then b'\\' ∷ c ∷ []
    else if c == b'\\'
    then b'\\' ∷ c ∷ []
    else if ltb c 32 || ltb 126 c
    then escape_control c
    else c ∷ []

escape_all : Text → Text
unfolding escape
escape_all [] = []
escape_all (c ∷ s) = escape c ++ escape_all s

unfoldable pub dumps_str : Text → Text
unfolding escape_all
dumps_str s = b'"' ∷ escape_all s ++ text "\""

unfoldable mutual
  pub dumps : Json → Text
  dumps null = text "null"
  dumps (bool true) = text "true"
  dumps (bool false) = text "false"
  dumps (num n) = decimal n
  dumps (str s) = dumps_str s
  dumps (arr xs) = b'[' ∷ dumps_items xs ++ text "]"
  dumps (obj fs) = b'{' ∷ dumps_fields fs ++ text "}"

  dumps_items : Items → Text
  dumps_items nil = []
  dumps_items (cons x nil) = dumps x
  dumps_items (cons x (cons y ys)) = dumps x ++ text ", " ++ dumps_items (cons y ys)

  dumps_fields : Fields → Text
  dumps_fields end = []
  dumps_fields (field k v end) = dumps_str k ++ text ": " ++ dumps v
  dumps_fields (field k v (field j w fs)) =
      dumps_str k ++ text ": " ++ dumps v ++ text ", " ++ dumps_fields (field j w fs)

dumps_sample :
    dumps (
      obj (
        field
          (text "a\n")
          (arr (cons (num 12) (cons null nil)))
          (field (text "é") (bool true) end)))
    ≡ text "{\"a\\n\": [12, null], \"\\u00e9\": true}"
unfolding dumps dumps_items dumps_fields dumps_str escape_all escape escape_control decimal
dumps_sample = refl
