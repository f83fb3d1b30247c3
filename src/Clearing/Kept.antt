-- ===== src/Clearing/Kept.antt =====
-- What a clearing keeps: the places and ids of the tool results, and the most recent of them.
use ollama_herd.Common.{
  ℕ, suc, ◌-◌, ◌≤◌, ◌≡◌, refl, sym, ◌∙◌, ap, false, not, ◌&&◌, Option, some, none, List, [], ◌∷◌,
  ◌++◌, Text, leb, ltb, min, if◌then◌else◌, length, drop, take-append-drop, length-drop, filter,
  any, arith, Bool-cases, inl, inr,
}
use ollama_herd.Clearing.Messages.{
  Block, Content, plain, blocks, no_content, Message, Position, total_tokens, block_positions,
  message_positions, iter_positions, clear_block,
}
use ollama_herd.Clearing.Sticky.{StickyStore, sticky_ids}
use ollama_herd.Clearing.Cut.{
  is_cleared, is_sticky, to_advance, older, finish, any_cleared, clear_blocks, clear_content,
  clear_messages, clear_stateless, clear_sticky, clear_old_tool_results,
}
use ollama_herd.Clearing.Same.{finish_messages, clear_messages_none}
use ollama_herd.Clearing.Turns.{fresh}

block_positions-clear_block :
    (p : Text) (i j : ℕ) (b : Block) (bs : List Block)
    → block_positions i j (clear_block p b ∷ bs) ≡ block_positions i j (b ∷ bs)
unfolding block_positions clear_block
block_positions-clear_block p i j (Block.text_block t fs) bs = refl
block_positions-clear_block p i j (Block.tool_use t fs) bs = refl
block_positions-clear_block p i j (Block.tool_result r) bs = refl
block_positions-clear_block p i j (Block.other_block fs) bs = refl
block_positions-clear_block p i j (Block.not_dict x) bs = refl

block_positions_tail :
    (i j : ℕ) (b : Block) (bs cs : List Block)
    → block_positions i (suc j) bs ≡ block_positions i (suc j) cs
    → block_positions i j (b ∷ bs) ≡ block_positions i j (b ∷ cs)
unfolding block_positions
block_positions_tail i j (Block.text_block t fs) bs cs e = e
block_positions_tail i j (Block.tool_use t fs) bs cs e = e
block_positions_tail i j (Block.tool_result r) bs cs e = rw e refl
block_positions_tail i j (Block.other_block fs) bs cs e = e
block_positions_tail i j (Block.not_dict x) bs cs e = e

block_positions-clear_blocks :
    (p : Text) (cp : List Position) (i j : ℕ) (bs : List Block)
    → block_positions i j (clear_blocks p cp i j bs) ≡ block_positions i j bs
unfolding clear_blocks
block_positions-clear_blocks p cp i j [] = refl
block_positions-clear_blocks p cp i j (b ∷ bs) =
    let rest = block_positions-clear_blocks p cp i (suc j) bs in
    let after = block_positions_tail i j b (clear_blocks p cp i (suc j) bs) bs rest in
    elim (Bool-cases (is_cleared cp i j)) [
      | inl hit ↦
          rw hit (block_positions-clear_block p i j b (clear_blocks p cp i (suc j) bs) ∙ after)
      | inr miss ↦ rw miss after
    ]

message_positions-clear_content :
    (p : Text) (cp : List Position) (i : ℕ) (c : Content)
    → message_positions i (clear_content p cp i c) ≡ message_positions i c
unfolding clear_content message_positions
message_positions-clear_content p cp i (plain t) = refl
message_positions-clear_content p cp i (blocks bs) = elim (Bool-cases (any_cleared cp i 0 bs)) [
  | inl hit ↦ rw hit (block_positions-clear_blocks p cp i 0 bs)
  | inr miss ↦ rw miss refl
]
message_positions-clear_content p cp i (no_content o) = refl

iter_positions-clear_messages :
    (p : Text) (cp : List Position) (i : ℕ) (ms : List Message)
    → iter_positions i (clear_messages p cp i ms) ≡ iter_positions i ms
unfolding clear_messages iter_positions
iter_positions-clear_messages p cp i [] = refl
iter_positions-clear_messages p cp i (m ∷ ms) =
    rw
      (
        message_positions-clear_content p cp i m.content,
        iter_positions-clear_messages p cp (suc i) ms,
      )
      refl

iter_positions-finish :
    {S : Type 0} (p : Text) (ms : List Message) (ps cp : List Position) (s persist : S)
    → iter_positions 0 (finish p ms ps cp s persist).0 ≡ iter_positions 0 ms
iter_positions-finish p ms ps cp s persist =
    rw (finish_messages p ms ps cp s persist) (iter_positions-clear_messages p cp 0 ms)

-- With a store or without, a clearing keeps every tool result at its place, with its id.
pub iter_positions-clear_old_tool_results :
    {S : Type 0} (sticky_store : Option (StickyStore S)) (keep trigger : ℕ) (p : Text)
    (ms : List Message) (s : S)
    → iter_positions 0 (clear_old_tool_results sticky_store keep trigger p ms s).0
      ≡ iter_positions 0 ms
unfolding clear_old_tool_results clear_stateless clear_sticky
iter_positions-clear_old_tool_results none keep trigger p ms s =
    let ps = iter_positions 0 ms in
    elim (Bool-cases (leb (total_tokens ms) trigger)) [
      | inl small ↦ rw small refl
      | inr large ↦ elim (Bool-cases (leb (length ps) keep)) [
        | inl few ↦ rw (large, few) refl
        | inr many ↦ rw (large, many) (iter_positions-finish p ms ps (older keep ps) s s)
      ]
    ]
iter_positions-clear_old_tool_results (some store) keep trigger p ms s =
    let ps = iter_positions 0 ms in
    let sticky = sticky_ids store s in
    let new = to_advance keep trigger (total_tokens ms) sticky ps in
    elim (Bool-cases (leb (total_tokens ms) trigger && not (any (is_sticky sticky) ps))) [
      | inl early ↦ rw early refl
      | inr late ↦ rw late (iter_positions-finish p ms ps (filter (is_sticky sticky) ps ++ new) s _)
    ]

append_nil : (xs : List Position) → xs ++ [] ≡ xs
append_nil [] = refl
append_nil (x ∷ xs) = rw (append_nil xs) refl

-- The results that a turn advances over are the oldest of those that are not sticky, and at least
-- `keep`, or all where there are fewer, are newer and stay.
to_advance_keeps :
    (keep trigger before : ℕ) (sticky : List Text) (ms : List Message)
    → (kept : List Position) × (fresh sticky ms
        ≡ to_advance keep trigger before sticky (iter_positions 0 ms) ++ kept)
      × (min keep (length (fresh sticky ms)) ≤ length kept)
unfolding to_advance older
to_advance_keeps keep trigger before sticky ms =
    let ns = fresh sticky ms in
    elim (Bool-cases (ltb trigger before && ltb keep (length ns))) [
      | inl over ↦ elim (Bool-cases (ltb 0 keep)) [
        | inl keeps ↦ (
          drop (length ns - keep) ns,
          ground (arith, take-append-drop (length ns - keep) ns),
          ground (arith, length-drop (length ns - keep) ns),
        )
        | inr none_kept ↦ ([], rw (over, none_kept) (sym (append_nil ns)), ground arith)
      ]
      | inr under ↦ (ns, ground arith, ground arith)
    ]

filter_true :
    (sticky : List Text) (ps : List Position)
    → (sticky ≡ [])
    → filter (λ x. not (is_sticky sticky x)) ps ≡ ps
filter_true sticky [] h = refl
filter_true sticky (x ∷ ps) h = ground (arith, filter_true sticky ps)

filter_sticky_none :
    (sticky : List Text) (ps : List Position) → (sticky ≡ []) → filter (is_sticky sticky) ps ≡ []
filter_sticky_none sticky [] h = refl
filter_sticky_none sticky (x ∷ ps) h = ground (arith, filter_sticky_none sticky ps)

any_sticky_none :
    (sticky : List Text) (ps : List Position) → (sticky ≡ []) → any (is_sticky sticky) ps ≡ false
any_sticky_none sticky [] h = refl
any_sticky_none sticky (x ∷ ps) h = ground (arith, any_sticky_none sticky ps)

-- What a turn with an empty store clears.
cut_empty :
    (keep trigger before : ℕ) (sticky : List Text) (ps : List Position)
    → sticky ≡ []
    → leb before trigger ≡ false
    → filter (is_sticky sticky) ps ++ to_advance keep trigger before sticky ps
      ≡ (if leb (length ps) keep then [] else older keep ps)
unfolding to_advance
cut_empty keep trigger before sticky ps h large =
    rw (filter_sticky_none sticky ps h, filter_true sticky ps h) (ground arith)

-- A store that holds no id, or whose read fails, clears in a turn what is cleared without a store.
pub clear_sticky-clear_stateless :
    {S : Type 0} (store : StickyStore S) (keep trigger : ℕ) (p : Text) (ms : List Message) (s : S)
    → sticky_ids store s ≡ []
    → (clear_old_tool_results (some store) keep trigger p ms s).0
      ≡ (clear_old_tool_results none keep trigger p ms s).0
unfolding clear_old_tool_results clear_stateless clear_sticky
clear_sticky-clear_stateless store keep trigger p ms s empty =
    let ps = iter_positions 0 ms in
    let sticky = sticky_ids store s in
    let none_stuck = any_sticky_none sticky ps empty in
    let cut = filter (is_sticky sticky) ps ++ to_advance keep trigger (total_tokens ms) sticky ps in
    elim (Bool-cases (leb (total_tokens ms) trigger)) [
      | inl small ↦ rw (small, none_stuck) refl
      | inr large ↦
          let cuts = cut_empty keep trigger (total_tokens ms) sticky ps empty large in
          elim (Bool-cases (leb (length ps) keep)) [
            | inl few ↦
                rw (large, few, finish_messages p ms ps cut s _)
                  (ap (λ x. clear_messages p x 0 ms) (cuts ∙ rw few refl)
                    ∙ clear_messages_none p 0 ms)
            | inr many ↦
                rw
                  (
                    large,
                    many,
                    finish_messages p ms ps cut s _,
                    finish_messages p ms ps (older keep ps) s s,
                  )
                  (ap (λ x. clear_messages p x 0 ms) (cuts ∙ rw many refl))
          ]
    ]
