-- ===== src/Tests/Env.antt =====
-- A small file of environment variables.
use ollama_herd.Common.{◌≡◌, refl, true, false, some, [], ◌∷◌, Text, text, text_eq}
use ollama_herd.Dict
use ollama_herd.Preloader.Plan.{lstrip, rstrip}
use ollama_herd.EnvFile.{
  EnvFile, content, flag, other, parse_line, parse_stripped, partition, drop_last, last_code,
  unquote, assignment, apply_line, load_lines, load_env_file, escape_quotes, format_value, render,
  key_follows, assigns, replace_first, append_line, set_line, set_env_var, keep_others,
  unset_env_var,
}
use ollama_herd.EnvFile.Comments.{comments, lines_of, comments-edit}
use ollama_herd.EnvFile.Roundtrip.{is_key_code, is_value_code, parse_line-render}

program : Unit {0}
unfolding text_eq Dict.get Dict.set lstrip rstrip parse_stripped partition drop_last last_code
    unquote assignment apply_line load_lines load_env_file escape_quotes format_value key_follows
    assigns replace_first append_line set_line set_env_var keep_others unset_env_var is_key_code
    is_value_code
program = tt

abbrev pull : Text
pull = text "FLEET_AUTO_PULL"

abbrev file : EnvFile
file = content (text "# pinned by hand" ∷ text "export FLEET_AUTO_PULL=true" ∷ [])

-- The assignment is replaced at its place, and the loader reads the new value.
replaced :
    load_env_file (set_env_var true pull (flag false) file).1 []
    ≡ ((pull, text "false") ∷ [], (pull, text "false") ∷ [])
unfolding program
replaced = refl

-- A double quote is written with a backslash, which is read as a part of the value.
backslash_kept :
    parse_line (render (text "K") (other (text "a\"b"))) ≡ some (text "K", text "a\\\"b")
unfolding program
backslash_kept = refl

parse_line-render_example :
    parse_line (render (text "FLEET_NOTE") (other (text " two words")))
    ≡ some (text "FLEET_NOTE", text " two words")
unfolding program
parse_line-render_example =
    parse_line-render (text "FLEET_NOTE") (other (text " two words")) (refl, refl, refl) refl

comments-edit_example :
    (comments (lines_of (set_env_var true pull (flag false) file).1) ≡ comments (lines_of file))
    × (comments (lines_of (unset_env_var true pull file).1) ≡ comments (lines_of file))
unfolding program
comments-edit_example = comments-edit true pull (flag false) file refl
