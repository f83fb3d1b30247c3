-- ===== src/EnvFile/Comments.antt =====
-- What an edit leaves in the file (src/fleet_manager/common/env_writer.py).
use ollama_herd.Common.{
  ◌≡◌, refl, ap, sym, ◌∙◌, Bool, true, false, Option, none, some, List, [], ◌∷◌, Text, text,
  is_empty, starts_with, if◌then◌else◌, filter, if_cases, Bool-cases, inl, inr,
}
use ollama_herd.Preloader.Plan.{lstrip, strip}
use ollama_herd.EnvFile.{
  Value, EnvFile, missing, unreadable, content, assigns, replace_first, append_line, set_line,
  render, set_env_var, unset_env_var, keep_others, written,
}

abbrev pub is_comment : Text → Bool
is_comment line = starts_with (text "#") (lstrip line)

abbrev pub comments : List Text → List Text
comments lines = filter is_comment lines

assigns-comment : (key line : Text) → is_comment line ≡ true → assigns key line ≡ false
unfolding assigns
assigns-comment key line h = rw h refl

comments-cons :
    (line : Text) (ks ls : List Text)
    → comments ks ≡ comments ls
    → comments (line ∷ ks) ≡ comments (line ∷ ls)
comments-cons line ks ls e = ap (λ r. if is_comment line then line ∷ r else r) e

comments-other :
    (line : Text) (ls : List Text) → is_comment line ≡ false → comments (line ∷ ls) ≡ comments ls
comments-other line ls h = rw h refl

-- A replacement, if there is one, has the comments of the lines.
SameComments : List Text → Option (List Text) → Type 0
SameComments lines none = Unit
SameComments lines (some ls) = comments ls ≡ comments lines

assigned-comment : (key line : Text) → assigns key line ≡ true → is_comment line ≡ false
assigned-comment key line h = elim (Bool-cases (is_comment line)) [
  | inl comment ↦ let e : true ≡ false = sym h ∙ assigns-comment key line comment in cc
  | inr other ↦ other
]

SameComments-replace_first :
    (key rendered : Text) (lines : List Text)
    → is_comment rendered ≡ false
    → SameComments lines (replace_first key rendered lines)
unfolding replace_first SameComments
SameComments-replace_first key rendered [] h = tt
SameComments-replace_first key rendered (line ∷ lines) h =
    if_cases (SameComments (line ∷ lines)) (assigns key line)
      (λ found.
        comments-other rendered lines h
        ∙ sym (comments-other line lines (assigned-comment key line found)))
      (λ _.
        put (replace_first key rendered lines) (SameComments-replace_first key rendered lines h))
  where
    put :
        (r : Option (List Text))
        → SameComments lines r
        → SameComments (line ∷ lines) (elim r [ none ↦ none | some ls ↦ some (line ∷ ls) ])
    put none same = tt
    put (some ls) same = comments-cons line ls lines same

comments-append_line :
    (rendered : Text) (lines : List Text)
    → is_comment rendered ≡ false
    → comments (append_line rendered lines) ≡ comments lines
unfolding append_line lstrip
comments-append_line rendered [] h = rw h refl
comments-append_line rendered (line ∷ []) h =
    if_cases (λ ls. comments ls ≡ comments (line ∷ [])) (is_empty (strip line))
      (λ _. comments-cons line (rendered ∷ []) [] (comments-other rendered [] h))
      (λ _. comments-cons line ([] ∷ rendered ∷ []) [] (comments-other rendered [] h))
comments-append_line rendered (line ∷ (next ∷ lines)) h =
    comments-cons line (append_line rendered (next ∷ lines)) (next ∷ lines)
      (comments-append_line rendered (next ∷ lines) h)

comments-set_line :
    (key rendered : Text) (lines : List Text)
    → is_comment rendered ≡ false
    → comments (set_line key rendered lines) ≡ comments lines
unfolding set_line SameComments
comments-set_line key rendered lines h =
    by_result (replace_first key rendered lines) (SameComments-replace_first key rendered lines h)
  where
    by_result :
        (r : Option (List Text))
        → SameComments lines r
        → comments (elim r [ none ↦ append_line rendered lines | some ls ↦ ls ]) ≡ comments lines
    by_result none same = comments-append_line rendered lines h
    by_result (some ls) same = same

comments-keep_others :
    (key : Text) (lines : List Text) → comments (keep_others key lines) ≡ comments lines
unfolding keep_others
comments-keep_others key [] = refl
comments-keep_others key (line ∷ lines) =
    if_cases (λ ls. comments ls ≡ comments (line ∷ lines)) (assigns key line)
      (λ found.
        comments-keep_others key lines
        ∙ sym (comments-other line lines (assigned-comment key line found)))
      (λ _. comments-cons line (keep_others key lines) lines (comments-keep_others key lines))

-- The lines of a file.
abbrev pub lines_of : EnvFile → List Text
lines_of (content lines) = lines
lines_of _ = []

-- Whether or not the write is possible, setting a variable whose line is no comment, and removing a
-- variable, keep every comment of the file, in order.
pub comments-edit :
    (can_write : Bool) (key : Text) (v : Value) (file : EnvFile)
    → is_comment (render key v) ≡ false
    → (comments (lines_of (set_env_var can_write key v file).1) ≡ comments (lines_of file))
      × (comments (lines_of (unset_env_var can_write key file).1) ≡ comments (lines_of file))
unfolding set_env_var unset_env_var lstrip
comments-edit can_write key v unreadable h = (refl, refl)
comments-edit true key v missing h = (comments-other (render key v) [] h, refl)
comments-edit false key v missing h = (refl, refl)
comments-edit false key v (content lines) h = (refl, refl)
comments-edit true key v (content lines) h = (
  comments-set_line key (render key v) lines h,
  comments-written (keep_others key lines) ∙ comments-keep_others key lines,
)
  where
    comments-written : (ls : List Text) → comments (written ls) ≡ comments ls
    comments-written [] = refl
    comments-written (l ∷ ls) = refl
