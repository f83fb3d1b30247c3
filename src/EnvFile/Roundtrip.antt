-- ===== src/EnvFile/Roundtrip.antt =====
-- A value that is written is read again (src/fleet_manager/common/env_file.py and env_writer.py).
use ollama_herd.Common.{
  ℕ, ◌≡◌, refl, sym, ◌∙◌, ap, Bool, true, false, not, ◌&&◌, ◌||◌, none, some, [], ◌∷◌, ◌++◌, Text,
  text, is_empty, has_code, starts_with, strip_prefix, all, if◌then◌else◌, ◌==◌, arith, Bool-cases,
  inl, inr,
}
use ollama_herd.Pins.{is_space}
use ollama_herd.Preloader.Plan.{lstrip, rstrip, strip}
use ollama_herd.EnvFile.{
  partition, drop_last, last_code, unquote, without_export, assignment, parse_stripped, parse_line,
  Value, flag, other, escape_quotes, needs_quotes, format_value, render,
}

unfoldable is_solid : ℕ → Bool
is_solid c = not (is_space c)

unfoldable pub is_key_code : ℕ → Bool
is_key_code c = not (is_space c) && not (c == 61)

-- A key without blanks and equals signs, that is not empty and does not start a comment.
abbrev pub IsKey : Text → Type 0
IsKey key =
    (all is_key_code key ≡ true) × (is_empty key ≡ false) × (starts_with (text "#") key ≡ false)

unfoldable pub is_value_code : ℕ → Bool
is_value_code c = (not (is_space c) || c == 32 || c == 9) && (not (c == 34) && not (c == 39))

-- A value without quotes and without blanks but spaces and tabs.
abbrev pub IsPlain : Value → Type 0
IsPlain (flag b) = Unit
IsPlain (other s) = all is_value_code s ≡ true

abbrev pub value_text : Value → Text
value_text (flag true) = text "true"
value_text (flag false) = text "false"
value_text (other s) = s

lstrip_solid : (c : ℕ) (s : Text) → is_space c ≡ false → lstrip (c ∷ s) ≡ c ∷ s
unfolding lstrip
lstrip_solid c s h = rw h refl

and_both : (a b : Bool) → a && b ≡ true → (a ≡ true) × (b ≡ true)
and_both true b h = (refl, h)
and_both false b h = (h, cc)

false_of_negated : (b : Bool) → not b ≡ true → b ≡ false
false_of_negated true h = sym h
false_of_negated false h = refl

solid_code : (c : ℕ) → is_solid c ≡ true → is_space c ≡ false
unfolding is_solid
solid_code c h = false_of_negated (is_space c) h

code_apart : (test : ℕ → Bool) (c d : ℕ) → test c ≡ false → test d ≡ true → c == d ≡ false
code_apart test c d fails holds = elim (Bool-cases (c == d)) [
  | inl same ↦ let e : c ≡ d = ground arith in let both : test c ≡ test d = ap test e in cc
  | inr differ ↦ differ
]

key_code :
    (c : ℕ) → is_key_code c ≡ true → (is_solid c ≡ true) × (c == 61 ≡ false) × (c == 32 ≡ false)
unfolding is_key_code is_solid
key_code c h =
    let (solid, apart) = and_both (not (is_space c)) (not (c == 61)) h in
    (
      solid,
      false_of_negated (c == 61) apart,
      code_apart is_space c 32 (false_of_negated (is_space c) solid) refl,
    )

value_code :
    (c : ℕ)
    → is_value_code c ≡ true
    → ((not (is_space c) || c == 32 || c == 9) ≡ true) × (c == 34 ≡ false) × (c == 39 ≡ false)
unfolding is_value_code
value_code c h =
    let (blank, rest) =
      and_both (not (is_space c) || c == 32 || c == 9) (not (c == 34) && not (c == 39)) h in
    let (double, single) = and_both (not (c == 34)) (not (c == 39)) rest in
    (blank, false_of_negated (c == 34) double, false_of_negated (c == 39) single)

solid_key : (key : Text) → all is_key_code key ≡ true → all is_solid key ≡ true
solid_key [] h = refl
solid_key (c ∷ key) h =
    let (here, later) = and_both (is_key_code c) (all is_key_code key) h in
    rw ((key_code c here).0, solid_key key later) refl

if_solid {ℓ} : {A : Type ℓ} (x y : A) (a b : Bool) → b ≡ false → (if a && b then x else y) ≡ y
if_solid x y true b h = rw h refl
if_solid x y false b h = refl

rstrip_solid : (a b : Text) → all is_solid a ≡ true → rstrip (a ++ b) ≡ a ++ rstrip b
unfolding rstrip
rstrip_solid [] b h = refl
rstrip_solid (c ∷ a) b h =
    let (here, later) = and_both (is_solid c) (all is_solid a) h in
    rw (rstrip_solid a b later)
      (if_solid [] (c ∷ a ++ rstrip b) (is_empty (a ++ rstrip b)) (is_space c) (solid_code c here))

not_empty : (s : Text) (x : ℕ) → is_empty (s ++ x ∷ []) ≡ false
not_empty [] x = refl
not_empty (c ∷ s) x = refl

rstrip_end : (s : Text) (x : ℕ) → is_space x ≡ false → rstrip (s ++ x ∷ []) ≡ s ++ x ∷ []
unfolding rstrip
rstrip_end [] x h = rw h refl
rstrip_end (c ∷ s) x h = rw (rstrip_end s x h, not_empty s x) refl

partition_key :
    (key s : Text) → all is_key_code key ≡ true → partition (key ++ 61 ∷ s) ≡ some (key, s)
unfolding partition
partition_key [] s h = refl
partition_key (c ∷ key) s h =
    let (here, later) = and_both (is_key_code c) (all is_key_code key) h in
    rw (key_code c here).1 (rw (partition_key key s later) refl)

last_code-end : (c x : ℕ) (s : Text) → last_code c (s ++ x ∷ []) ≡ x
unfolding last_code
last_code-end c x [] = refl
last_code-end c x (d ∷ s) = last_code-end d x s

drop_last-end : (x : ℕ) (s : Text) → drop_last (s ++ x ∷ []) ≡ s
unfolding drop_last
drop_last-end x [] = refl
drop_last-end x (c ∷ []) = refl
drop_last-end x (c ∷ (d ∷ s)) = ap (λ r. c ∷ r) (drop_last-end x (d ∷ s))

escape_quotes_plain : (s : Text) → all is_value_code s ≡ true → escape_quotes s ≡ s
unfolding escape_quotes
escape_quotes_plain [] h = refl
escape_quotes_plain (c ∷ s) h =
    let (here, later) = and_both (is_value_code c) (all is_value_code s) h in
    rw ((value_code c here).1, escape_quotes_plain s later) refl

unquote_plain : (s : Text) → all is_value_code s ≡ true → unquote s ≡ s
unfolding unquote
unquote_plain [] h = refl
unquote_plain (c ∷ []) h = refl
unquote_plain (c ∷ (d ∷ s)) h =
    let (here, later) = and_both (is_value_code c) (is_value_code d && all is_value_code s) h in
    let (blank, b, a) = value_code c here in
    elim (Bool-cases (last_code d s == c)) [
      | inl same ↦ rw (same, a, b) refl
      | inr differ ↦ rw differ refl
    ]

unquote_quoted : (s : Text) → unquote (34 ∷ s ++ 34 ∷ []) ≡ s
unfolding unquote last_code drop_last
unquote_quoted [] = refl
unquote_quoted (d ∷ s) = rw (last_code-end d 34 s, drop_last-end 34 (d ∷ s)) refl

solid_is : (c : ℕ) → not (is_space c) ≡ true → is_solid c ≡ true
unfolding is_solid
solid_is c h = h

solid_plain :
    (s : Text)
    → all is_value_code s ≡ true
    → has_code 32 s || has_code 9 s ≡ false
    → all is_solid s ≡ true
solid_plain [] h e = refl
solid_plain (c ∷ s) h e =
    let (here, later) = and_both (is_value_code c) (all is_value_code s) h in
    let blank =
      no_blank (not (is_space c)) (c == 32) (c == 9) (has_code 32 s) (has_code 9 s)
        (value_code c here).0 e in
    rw (solid_is c blank.0, solid_plain s later blank.1) refl
  where
    no_blank :
        (a b c d e : Bool)
        → (a || b || c) ≡ true
        → (b || d) || (c || e) ≡ false
        → (a ≡ true) × (d || e ≡ false)
    no_blank a b c d e h f = ground arith

eq_sym : (c d : ℕ) → c == d ≡ false → d == c ≡ false
eq_sym c d h = ground arith

no_export :
    (word key s : Text)
    → all is_key_code key ≡ true
    → all is_key_code word ≡ true
    → strip_prefix (word ++ 32 ∷ []) (key ++ 61 ∷ s) ≡ none
no_export [] [] s h w = refl
no_export [] (c ∷ key) s h w =
    let other = key_code c (and_both (is_key_code c) (all is_key_code key) h).0 in
    rw (eq_sym c 32 other.2) refl
no_export (a ∷ word) [] s h w =
    rw (key_code a (and_both (is_key_code a) (all is_key_code word) w).0).1 refl
no_export (a ∷ word) (c ∷ key) s h w =
    let (here, later) = and_both (is_key_code c) (all is_key_code key) h in
    let (first, others) = and_both (is_key_code a) (all is_key_code word) w in
    elim (Bool-cases (a == c)) [
      | inl same ↦ rw (same, no_export word key s later others) refl
      | inr differ ↦ rw differ refl
    ]

rstrip_unchanged : (s : Text) → all is_solid s ≡ true → rstrip s ≡ s
unfolding rstrip
rstrip_unchanged [] h = refl
rstrip_unchanged (c ∷ s) h =
    let (here, later) = and_both (is_solid c) (all is_solid s) h in
    rw (rstrip_unchanged s later)
      (if_solid [] (c ∷ s) (is_empty s) (is_space c) (solid_code c here))

lstrip_unchanged : (s : Text) → all is_solid s ≡ true → lstrip s ≡ s
unfolding lstrip
lstrip_unchanged [] h = refl
lstrip_unchanged (c ∷ s) h =
    lstrip_solid c s (solid_code c (and_both (is_solid c) (all is_solid s) h).0)

bare_blanks : (s : Text) → needs_quotes s ≡ false → has_code 32 s || has_code 9 s ≡ false
bare_blanks s h = five (is_empty s) (has_code 32 s) (has_code 9 s) (has_code 34 s) (has_code 35 s) h
  where
    five : (a b c d e : Bool) → a || b || c || d || e ≡ false → b || c ≡ false
    five a b c d e h = ground arith

-- The value of a plain setting, as it is written, has no blanks at its end and is read back.
format_value-strip : (v : Value) → IsPlain v → rstrip (format_value v) ≡ format_value v
unfolding format_value rstrip
format_value-strip (flag true) h = refl
format_value-strip (flag false) h = refl
format_value-strip (other s) h = elim (Bool-cases (needs_quotes s)) [
  | inl quoted ↦ rw quoted (rstrip_end (34 ∷ escape_quotes s) 34 refl)
  | inr bare ↦ rw bare (rstrip_unchanged s (solid_plain s h (bare_blanks s bare)))
]

unquote-format_value : (v : Value) → IsPlain v → unquote (format_value v) ≡ value_text v
unfolding format_value unquote last_code
unquote-format_value (flag true) h = refl
unquote-format_value (flag false) h = refl
unquote-format_value (other s) h = elim (Bool-cases (needs_quotes s)) [
  | inl quoted ↦ rw (quoted, escape_quotes_plain s h) (unquote_quoted s)
  | inr bare ↦ rw bare (unquote_plain s h)
]

lstrip-format_value : (v : Value) → IsPlain v → lstrip (format_value v) ≡ format_value v
unfolding format_value lstrip
lstrip-format_value (flag true) h = refl
lstrip-format_value (flag false) h = refl
lstrip-format_value (other s) h = elim (Bool-cases (needs_quotes s)) [
  | inl quoted ↦ rw quoted refl
  | inr bare ↦ rw bare (lstrip_unchanged s (solid_plain s h (bare_blanks s bare)))
]

strip-key : (key : Text) → all is_key_code key ≡ true → strip key ≡ key
strip-key key h =
    rw (lstrip_unchanged key (solid_key key h)) (rstrip_unchanged key (solid_key key h))

rstrip-render :
    (key : Text) (v : Value)
    → all is_key_code key ≡ true
    → IsPlain v
    → rstrip (render key v) ≡ render key v
unfolding is_solid
rstrip-render key v codes h =
    let tail : rstrip (61 ∷ format_value v) ≡ 61 ∷ format_value v =
      rstrip_solid (61 ∷ []) (format_value v) refl ∙ ap (λ r. 61 ∷ r) (format_value-strip v h) in
    rstrip_solid key (61 ∷ format_value v) (solid_key key codes) ∙ ap (λ r. key ++ r) tail

assignment-key :
    (key : Text) (v : Value)
    → all is_key_code key ≡ true
    → is_empty key ≡ false
    → IsPlain v
    → assignment (some (key, format_value v)) ≡ some (key, value_text v)
unfolding assignment
assignment-key key v codes nonempty h =
    rw
      (
        strip-key key codes,
        nonempty,
        lstrip-format_value v h,
        format_value-strip v h,
        unquote-format_value v h,
      )
      refl

word-IsKey : all is_key_code (text "export") ≡ true
unfolding is_key_code
word-IsKey = refl

without_export-render :
    (key : Text) (v : Value)
    → all is_key_code key ≡ true
    → without_export (render key v) ≡ render key v
without_export-render key v codes =
    ap (λ o. elim o [ none ↦ render key v | some rest ↦ lstrip rest ])
      (no_export (text "export") key (format_value v) codes word-IsKey)

parse_stripped-render :
    (c : ℕ) (key : Text) (v : Value)
    → IsKey (c ∷ key)
    → parse_stripped (render (c ∷ key) v) ≡ assignment (some (c ∷ key, format_value v))
unfolding parse_stripped
parse_stripped-render c key v (codes, nonempty, plain) = rw plain (
    ap (λ l. assignment (partition l)) (without_export-render (c ∷ key) v codes)
    ∙ ap assignment (partition_key (c ∷ key) (format_value v) codes))

-- The line that is written for a key and a plain value is read as that key and that value.
pub parse_line-render :
    (key : Text) (v : Value)
    → IsKey key
    → IsPlain v
    → parse_line (render key v) ≡ some (key, value_text v)
parse_line-render [] v (codes, nonempty, plain) h = cc
parse_line-render (c ∷ key) v (codes, nonempty, plain) h =
    let solid =
      solid_code c (and_both (is_solid c) (all is_solid key) (solid_key (c ∷ key) codes)).0 in
    ap (λ l. parse_stripped (rstrip l)) (lstrip_solid c (key ++ 61 ∷ format_value v) solid)
    ∙ ap parse_stripped (rstrip-render (c ∷ key) v codes h)
    ∙ parse_stripped-render c key v (codes, nonempty, plain)
    ∙ assignment-key (c ∷ key) v codes nonempty h
