-- ===== src/Clearing/Cut.antt =====
-- `clear_old_tool_results` of context_management.py.
use ollama_herd.Common.{
  ℕ, suc, ◌-◌, Bool, true, false, not, ◌&&◌, ◌||◌, Option, none, some, List, [], ◌∷◌, ◌++◌, map,
  Text, mem, ltb, leb, ◌==◌, if◌then◌else◌, length, take, filter, any,
}
use ollama_herd.Clearing.Messages.{
  Block, Content, plain, blocks, no_content, Message, Position, total_tokens, iter_positions,
  clear_block, cleared_placeholder,
}
use ollama_herd.Clearing.Sticky.{StickyStore, sticky_ids}

pub record ClearingReport : Type 0 where
  pub triggered : Bool
  pub tokens_before : ℕ
  pub tokens_after : ℕ
  pub tool_results_total : ℕ
  pub tool_results_kept : ℕ
  pub tool_results_cleared : ℕ
  pub cleared_tool_use_ids : List Text

abbrev pub ids_of : List Position → List Text
ids_of ps = map (λ p. p.2) ps

-- `(i, j) in clear_positions`
unfoldable pub is_cleared : List Position → ℕ → ℕ → Bool
is_cleared cp i j = any (λ p. p.0 == i && p.1 == j) cp

unfoldable pub any_cleared : List Position → ℕ → ℕ → List Block → Bool
any_cleared cp i j [] = false
any_cleared cp i j (b ∷ bs) = is_cleared cp i j || any_cleared cp i (suc j) bs

unfoldable pub clear_blocks : Text → List Position → ℕ → ℕ → List Block → List Block
clear_blocks p cp i j [] = []
clear_blocks p cp i j (b ∷ bs) =
    (if is_cleared cp i j then clear_block p b else b) ∷ clear_blocks p cp i (suc j) bs

unfoldable pub clear_content : Text → List Position → ℕ → Content → Content
clear_content p cp i (plain t) = plain t
clear_content p cp i (blocks bs) =
    if any_cleared cp i 0 bs then blocks (clear_blocks p cp i 0 bs) else blocks bs
clear_content p cp i (no_content o) = no_content o

unfoldable pub clear_messages : Text → List Position → ℕ → List Message → List Message
clear_messages p cp i [] = []
clear_messages p cp i (m ∷ ms) =
    record m { content = clear_content p cp i m.content } ∷ clear_messages p cp (suc i) ms

-- A `set` of ids: each once.
distinct : List Text → List Text
distinct [] = []
distinct (t ∷ ts) = let rest = distinct ts in if mem t rest then rest else t ∷ rest

-- `keep_ids`: the ids at the positions that are not cleared.
unfoldable pub kept_ids : List Position → List Position → List Text
unfolding distinct
kept_ids cp ps = distinct (ids_of (filter (λ p. not (is_cleared cp p.0 p.1)) ps))

abbrev pub is_sticky : List Text → Position → Bool
is_sticky sticky p = mem p.2 sticky

-- `ps[:-keep] if keep > 0 else ps`, where there are more than `keep`
unfoldable pub older : ℕ → List Position → List Position
older keep ps = if ltb 0 keep then take (length ps - keep) ps else ps

-- `to_advance`: the results that become sticky in this turn.
unfoldable pub to_advance : ℕ → ℕ → ℕ → List Text → List Position → List Position
to_advance keep trigger before sticky ps =
    let non_sticky = filter (λ p. not (is_sticky sticky p)) ps in
    if ltb trigger before && ltb keep (length non_sticky) then older keep non_sticky else []

-- `ClearingReport()` with the counts that are known at the start
abbrev pub first_report : ℕ → ℕ → ClearingReport
first_report before total = record {
  triggered = false;
  tokens_before = before;
  tokens_after = before;
  tool_results_total = total;
  tool_results_kept = 0;
  tool_results_cleared = 0;
  cleared_tool_use_ids = [];
}

-- The rest of the call, once the positions to clear are known; `persist` is what it does to the
-- store.
abbrev pub finish :
    {S : Type 0}
    → Text
    → List Message
    → List Position
    → List Position
    → S
    → S
    → List Message × ClearingReport × S
finish p ms ps [] s persist =
    (ms, record (first_report (total_tokens ms) (length ps)) { tool_results_kept = length ps }, s)
finish p ms ps (c ∷ cp) s persist =
    let out = clear_messages p (c ∷ cp) 0 ms in
    let report : ClearingReport = record {
      triggered = true;
      tokens_before = total_tokens ms;
      tokens_after = total_tokens out;
      tool_results_total = length ps;
      tool_results_kept = length (kept_ids (c ∷ cp) ps);
      tool_results_cleared = suc (length cp);
      cleared_tool_use_ids = ids_of (c ∷ cp);
    } in
    (out, report, persist)

-- `if new_sticky_ids: sticky_store.add(new_sticky_ids)`
abbrev pub add_new : {S : Type 0} → StickyStore S → List Text → S → S
add_new store [] s = s
add_new store (t ∷ ts) s = store.add (t ∷ ts) s

-- `if positions: sticky_store.touch_last_seen(...)`
abbrev pub touch_all : {S : Type 0} → StickyStore S → List Position → S → S
touch_all store [] s = s
touch_all store (p ∷ ps) s = store.touch_last_seen (ids_of (p ∷ ps)) s

-- The call with a store.
unfoldable pub clear_sticky :
    {S : Type 0}
    → StickyStore S
    → ℕ
    → ℕ
    → Text
    → List Message
    → S
    → List Message × ClearingReport × S
clear_sticky store keep trigger p ms s =
    let before = total_tokens ms in
    let ps = iter_positions 0 ms in
    let sticky = sticky_ids store s in
    let advance = to_advance keep trigger before sticky ps in
    let persist = store.touch_last_seen (ids_of ps) (add_new store (ids_of advance) s) in
    if leb before trigger && not (any (is_sticky sticky) ps)
    then (ms, first_report before (length ps), touch_all store ps s)
    else finish p ms ps (filter (is_sticky sticky) ps ++ advance) s persist

-- The call without a store.
unfoldable pub clear_stateless :
    {S : Type 0} → ℕ → ℕ → Text → List Message → S → List Message × ClearingReport × S
clear_stateless keep trigger p ms s =
    let before = total_tokens ms in
    let ps = iter_positions 0 ms in
    let report = first_report before (length ps) in
    if leb before trigger
    then (ms, report, s)
    else if leb (length ps) keep
    then (ms, record report { tool_results_kept = length ps }, s)
    else finish p ms ps (older keep ps) s s

unfoldable pub clear_old_tool_results :
    {S : Type 0}
    → Option (StickyStore S)
    → ℕ
    → ℕ
    → Text
    → List Message
    → S
    → List Message × ClearingReport × S
clear_old_tool_results none keep trigger p ms s = clear_stateless keep trigger p ms s
clear_old_tool_results (some store) keep trigger p ms s = clear_sticky store keep trigger p ms s

-- The call of the Anthropic route, with the placeholder of the module.
unfoldable pub clear_if_over_budget :
    {S : Type 0}
    → Option (StickyStore S)
    → ℕ
    → ℕ
    → List Message
    → S
    → List Message × ClearingReport × S
clear_if_over_budget store keep trigger ms s =
    clear_old_tool_results store keep trigger cleared_placeholder ms s
