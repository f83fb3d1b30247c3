-- ===== src/EnvFile.antt =====
-- The file of environment variables: src/fleet_manager/common/env_file.py reads it and
-- src/fleet_manager/common/env_writer.py edits it. A file is the list of its lines, as splitlines gives
-- them; keys and values are taken to have no line ends, and a key not to start with a blank.
pub mod Comments
pub mod Roundtrip
use ollama_herd.Common.{
  ℕ, Bool, true, false, not, ◌&&◌, ◌||◌, Option, none, some, List, [], ◌∷◌, ◌++◌, Text, text,
  is_empty, has_code, starts_with, strip_prefix, if◌then◌else◌, ◌==◌,
}
use ollama_herd.Dict.{Dict}
use ollama_herd.Dict
use ollama_herd.Pins.{is_space}
use ollama_herd.Preloader.Plan.{lstrip, strip}

-- `line.partition("=")`, where there is an equals sign.
unfoldable pub partition : Text → Option (Text × Text)
partition [] = none
partition (c ∷ s) =
    let rest = partition s in
    if c == 61 then some ([], s) else elim rest [ none ↦ none | some (k, v) ↦ some (c ∷ k, v) ]

-- `s[:-1]` of a text that is not empty.
unfoldable pub drop_last : Text → Text
drop_last [] = []
drop_last (c ∷ []) = []
drop_last (c ∷ (d ∷ s)) = c ∷ drop_last (d ∷ s)

unfoldable pub last_code : ℕ → Text → ℕ
last_code c [] = c
last_code c (d ∷ s) = last_code d s

-- Matching quotes around a value are dropped.
unfoldable pub unquote : Text → Text
unquote [] = []
unquote (c ∷ []) = c ∷ []
unquote (c ∷ (d ∷ s)) =
    if last_code d s == c && (c == 39 || c == 34) then drop_last (d ∷ s) else c ∷ d ∷ s

-- What is left of a line after an `export `.
abbrev pub without_export : Text → Text
without_export line = elim (strip_prefix (text "export ") line) [
  | none ↦ line
  | some rest ↦ lstrip rest
]

-- A key with its value, where the key is not empty.
unfoldable pub assignment : Option (Text × Text) → Option (Text × Text)
assignment none = none
assignment (some (k, v)) = if is_empty (strip k) then none else some (strip k, unquote (strip v))

-- The assignment of a stripped line, if it has one.
unfoldable pub parse_stripped : Text → Option (Text × Text)
parse_stripped line =
    if is_empty line || starts_with (text "#") line
    then none
    else assignment (partition (without_export line))

abbrev pub parse_line : Text → Option (Text × Text)
parse_line raw = parse_stripped (strip raw)

-- What a line does to the environment, and to the variables that were set.
unfoldable pub apply_line : Option (Text × Text) → Dict Text × Dict Text → Dict Text × Dict Text
apply_line none e = e
apply_line (some (k, v)) (environ, applied) =
    if Dict.contains k environ
    then (environ, applied)
    else (Dict.set k v environ, Dict.set k v applied)

-- The loop of `load_env_file`.
unfoldable pub load_lines : List Text → Dict Text × Dict Text → Dict Text × Dict Text
load_lines [] e = e
load_lines (raw ∷ lines) e = load_lines lines (apply_line (parse_line raw) e)

-- The file as it is: it may be missing, and reading it may raise.
pub data EnvFile : Type 0 where
  missing unreadable : EnvFile
  content : List Text → EnvFile

-- `load_env_file`: the environment after it, and the variables that it set.
unfoldable pub load_env_file : EnvFile → Dict Text → Dict Text × Dict Text
load_env_file missing environ = (environ, [])
load_env_file unreadable environ = (environ, [])
load_env_file (content lines) environ = load_lines lines (environ, [])

-- A value of a setting: a Boolean, or what `str` gives.
pub data Value : Type 0 where
  flag : Bool → Value
  other : Text → Value

-- `text.replace('"', '\\"')`
unfoldable pub escape_quotes : Text → Text
escape_quotes [] = []
escape_quotes (c ∷ s) = if c == 34 then 92 ∷ 34 ∷ escape_quotes s else c ∷ escape_quotes s

abbrev pub needs_quotes : Text → Bool
needs_quotes s = is_empty s || has_code 32 s || has_code 9 s || has_code 34 s || has_code 35 s

-- `_format_value`
unfoldable pub format_value : Value → Text
format_value (flag true) = text "true"
format_value (flag false) = text "false"
format_value (other s) = if needs_quotes s then 34 ∷ escape_quotes s ++ 34 ∷ [] else s

abbrev pub render : Text → Value → Text
render key value = key ++ 61 ∷ format_value value

-- After the key, blanks and an equals sign: `re.escape(key)\s*=`.
unfoldable pub key_follows : Text → Text → Bool
key_follows key s = elim (strip_prefix key s) [
  | none ↦ false
  | some rest ↦ starts_with (text "=") (lstrip rest)
]

abbrev starts_blank : Text → Bool
starts_blank [] = false
starts_blank (c ∷ s) = is_space c

-- `(?:export\s+)?`, taken.
abbrev pub after_export : Text → Text → Bool
after_export key s = elim (strip_prefix (text "export") s) [
  | none ↦ false
  | some rest ↦ starts_blank rest && key_follows key (lstrip rest)
]

-- `pattern.match(line)`, for a key that does not start with a blank, of a line that is no comment.
unfoldable pub assigns : Text → Text → Bool
assigns key line =
    let s = lstrip line in
    not (starts_with (text "#") s) && (after_export key s || key_follows key s)

-- The first line that assigns the key is replaced; none if there is none.
unfoldable pub replace_first : Text → Text → List Text → Option (List Text)
replace_first key rendered [] = none
replace_first key rendered (line ∷ lines) =
    let rest = replace_first key rendered lines in
    if assigns key line
    then some (rendered ∷ lines)
    else elim rest [ none ↦ none | some ls ↦ some (line ∷ ls) ]

-- A new line at the end, after an empty one where the last line is not blank.
unfoldable pub append_line : Text → List Text → List Text
append_line rendered [] = rendered ∷ []
append_line rendered (line ∷ []) =
    if is_empty (strip line) then line ∷ rendered ∷ [] else line ∷ [] ∷ rendered ∷ []
append_line rendered (line ∷ (next ∷ lines)) = line ∷ append_line rendered (next ∷ lines)

unfoldable pub set_line : Text → Text → List Text → List Text
set_line key rendered lines = elim (replace_first key rendered lines) [
  | none ↦ append_line rendered lines
  | some ls ↦ ls
]

-- `set_env_var`: whether it succeeds, and the file; `can_write` says whether a write is possible.
unfoldable pub set_env_var : Bool → Text → Value → EnvFile → Bool × EnvFile
set_env_var can_write key value unreadable = (false, unreadable)
set_env_var can_write key value missing =
    if can_write then (true, content (render key value ∷ [])) else (false, missing)
set_env_var can_write key value (content lines) =
    if can_write
    then (true, content (set_line key (render key value) lines))
    else (false, content lines)

unfoldable pub keep_others : Text → List Text → List Text
keep_others key [] = []
keep_others key (line ∷ lines) =
    if assigns key line then keep_others key lines else line ∷ keep_others key lines

-- The lines of what is written: without any, the file still has the end of a line.
abbrev pub written : List Text → List Text
written [] = [] ∷ []
written (line ∷ lines) = line ∷ lines

-- `unset_env_var`
unfoldable pub unset_env_var : Bool → Text → EnvFile → Bool × EnvFile
unset_env_var can_write key missing = (true, missing)
unset_env_var can_write key unreadable = (false, unreadable)
unset_env_var can_write key (content lines) =
    if can_write then (true, content (written (keep_others key lines))) else (false, content lines)
