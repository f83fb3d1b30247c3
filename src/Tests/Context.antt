-- ===== src/Tests/Context.antt =====
-- The clearing of tool results and the pins at concrete inputs.
use ollama_herd.Common.{
  false, ◌≡◌, refl, arith, true, ◌&&◌, some, none, List, [], ◌∷◌, Text, text, text_eq, mem,
  if◌then◌else◌,
}
use ollama_herd.Dict
use ollama_herd.Dict.{Dict}
use ollama_herd.Models.Json.{end}
use ollama_herd.Clearing.Messages.{
  Block, tool_result, text_block, ToolContent, Message, blocks, plain, total_tokens, blocks_tokens,
  block_tokens, content_tokens, message_tokens, iter_positions, message_positions, block_positions,
  resolved_id, clear_block,
}
use ollama_herd.Clearing.Cut.{
  to_advance, older, clear_old_tool_results, clear_sticky, clear_messages, clear_content,
  clear_blocks, any_cleared, is_cleared,
}
use ollama_herd.Clearing.Sticky.{sticky_ids}
use ollama_herd.Clearing.Kept.{iter_positions-clear_old_tool_results, clear_sticky-clear_stateless}
use ollama_herd.Clearing.Store.{
  Table, Sqlite, clearing_store, clearing_store_lem, load_all, add, upsert, upsert_all,
  touch_last_seen, update_seen, update_all, prune_older_than,
}
use ollama_herd.Clearing.Retention.{prune_older_than-touch_last_seen}
use ollama_herd.Pins.{File, missing, set_pin, load, load_nodes}
use ollama_herd.Pins.Roundtrip.{pins, mem-set_pin}

program : Unit {0}
unfolding text_eq Dict.get Dict.set total_tokens message_tokens blocks_tokens block_tokens
    content_tokens iter_positions message_positions block_positions resolved_id to_advance older
    clear_old_tool_results clear_sticky clear_messages clear_content clear_blocks any_cleared
    is_cleared clear_block clearing_store load_all add upsert upsert_all touch_last_seen update_seen
    update_all prune_older_than load load_nodes
program = tt

abbrev call : Text → Text → Block
call id body =
    tool_result (record { tool_use_id = id; content = ToolContent.string body; rest = end })

abbrev answers : List Block → Message
answers bs = record { content = blocks bs; rest = end }

-- Three results of 2 tokens each, the first two in one message.
abbrev talk : List Message
talk =
    answers (call (text "t1") (text "aaaaaaaa") ∷ call (text "t2") (text "bbbbbbbb") ∷ [])
    ∷ answers (text_block (text "and") end ∷ call (text "t3") (text "cccccccc") ∷ [])
    ∷ []

abbrev question : List Message
question = record { content = plain (text "go on"); rest = end } ∷ []

abbrev gone : Text
gone = text "-"

abbrev no_rows : Table
no_rows = []

abbrev store_after : Table
store_after =
    (clear_old_tool_results (some (clearing_store Sqlite.answers Sqlite.answers Sqlite.answers 9)) 1
      5 gone talk []).2

-- Over 5 tokens, the oldest two of three results go.
cut_talk :
    (clear_old_tool_results
      (some (clearing_store Sqlite.answers Sqlite.answers Sqlite.answers 9))
      1
      5
      gone
      talk
      []).0
    ≡ answers (call (text "t1") gone ∷ call (text "t2") gone ∷ [])
      ∷ answers (text_block (text "and") end ∷ call (text "t3") (text "cccccccc") ∷ [])
      ∷ []
unfolding program
cut_talk = refl

iter_positions-clear_old_tool_results_example :
    iter_positions 0
      (clear_old_tool_results
        (some (clearing_store Sqlite.answers Sqlite.answers Sqlite.answers 9))
        1
        5
        gone
        talk
        []).0
    ≡ iter_positions 0 talk
iter_positions-clear_old_tool_results_example =
    iter_positions-clear_old_tool_results
      (some (clearing_store Sqlite.answers Sqlite.answers Sqlite.answers 9)) 1 5 gone talk []

clear_sticky-clear_stateless_example :
    (clear_old_tool_results
      (some (clearing_store Sqlite.answers Sqlite.answers Sqlite.answers 9))
      1
      5
      gone
      talk
      []).0
    ≡ (clear_old_tool_results none 1 5 gone talk no_rows).0
unfolding program
clear_sticky-clear_stateless_example =
    clear_sticky-clear_stateless (clearing_store Sqlite.answers Sqlite.answers Sqlite.answers 9) 1 5
      gone talk no_rows refl

-- SQLite answers the read and refuses the write.
clearing_store_lem_example :
    (mem (text "t1") (
        sticky_ids (clearing_store Sqlite.answers Sqlite.raises Sqlite.answers 9) (
          (clearing_store Sqlite.answers Sqlite.raises Sqlite.answers 9).add
            (text "t1" ∷ [])
            no_rows))
      ≡ false)
    × (mem (text "t1") (
          sticky_ids (clearing_store Sqlite.answers Sqlite.raises Sqlite.answers 9) (
            (clearing_store Sqlite.answers Sqlite.raises Sqlite.answers 9).touch_last_seen
              (text "t1" ∷ [])
              no_rows))
        ≡ false)
    × (mem
          (text "t1")
          (sticky_ids (clearing_store Sqlite.answers Sqlite.raises Sqlite.answers 9) no_rows)
        ≡ false)
clearing_store_lem_example =
    clearing_store_lem Sqlite.answers Sqlite.raises Sqlite.answers 9 (text "t1") (text "t1" ∷ [])
      no_rows

-- An id that was cleared at 0 and seen at 50.
prune_older_than-touch_last_seen_example :
    mem (text "t1") (
      load_all Sqlite.answers
        (prune_older_than Sqlite.answers 600000 7 (
          touch_last_seen Sqlite.answers 50
            (text "t1" ∷ [])
            ((text "t1", record { cleared_at = 0; last_seen = 0 }) ∷ []))).0)
    ≡ true
unfolding program
prune_older_than-touch_last_seen_example =
    prune_older_than-touch_last_seen (text "t1") 50 600000 7 (text "t1" ∷ [])
      ((text "t1", record { cleared_at = 0; last_seen = 0 }) ∷ [])
      (record { cleared_at = 0; last_seen = 0 }) refl refl refl (omega arith)

mem-set_pin_example :
    (state' : Dict (List Text)) × (f' : File) × (set_pin 5 (text "mini") (text "m1") true missing
      ≡ some (state', f'))
    × (mem (text "m1") (pins (text "mini") f')
        ≡ mem (text "m1") (Dict.get_or (text "mini") [] state'))
    × (mem (text "m1") (pins (text "mini") f') ≡ (
        if text_eq (text "mini") (text "mini") && text_eq (text "m1") (text "m1")
        then true
        else mem (text "m1") (pins (text "mini") missing)))
unfolding program
mem-set_pin_example =
    mem-set_pin 5 (text "mini") (text "m1") (text "mini") (text "m1") true missing [] refl refl refl
