-- ===== src/Clearing/Blank.antt =====
-- The result of a clearing as a description of its own: a tool result is blanked where a test on
-- its place and id says so.
use ollama_herd.Common.{
  ℕ, suc, ◌≤◌, ◌<◌, ◌≡◌, refl, Bool, false, ◌&&◌, ◌||◌, none, some, List, [], ◌∷◌, ◌++◌, Text, ◌==◌,
  if◌then◌else◌, filter, any, arith,
}
use ollama_herd.Clearing.Messages.{
  Block, Content, plain, blocks, no_content, Message, Position, result_id, block_positions,
  message_positions, iter_positions, clear_block,
}
use ollama_herd.Clearing.Cut.{is_cleared, any_cleared, clear_blocks, clear_content, clear_messages}

-- A test on the places of tool results.
abbrev pub Test : Type 0
Test = Position → Bool

-- Whether the block is a tool result that passes.
unfoldable pub tested : Test → ℕ → ℕ → Block → Bool
tested q i j b = elim (result_id i j b) [ none ↦ false | some t ↦ q (i, j, t) ]

unfoldable pub blank_block : Text → Test → ℕ → ℕ → Block → Block
blank_block p q i j b = if tested q i j b then clear_block p b else b

unfoldable pub blank_blocks : Text → Test → ℕ → ℕ → List Block → List Block
blank_blocks p q i j [] = []
blank_blocks p q i j (b ∷ bs) = blank_block p q i j b ∷ blank_blocks p q i (suc j) bs

unfoldable pub blank_content : Text → Test → ℕ → Content → Content
blank_content p q i (plain t) = plain t
blank_content p q i (blocks bs) = blocks (blank_blocks p q i 0 bs)
blank_content p q i (no_content o) = no_content o

-- The messages from index `i` on, with the tool results that pass `q` blanked.
unfoldable pub blank : Text → Test → ℕ → List Message → List Message
blank p q i [] = []
blank p q i (m ∷ ms) = record m { content = blank_content p q i m.content } ∷ blank p q (suc i) ms

pub any-append : (f : Test) (xs ys : List Position) → any f (xs ++ ys) ≡ (any f xs || any f ys)
any-append f [] ys = refl
any-append f (x ∷ xs) ys = ground (arith, any-append f xs ys)

is_cleared-block_positions :
    (q : Test) (i j i' j' : ℕ) (b : Block) (bs : List Block)
    → is_cleared (filter q (block_positions i j (b ∷ bs))) i' j' ≡ (
        i == i' && j == j' && tested q i j b
        || is_cleared (filter q (block_positions i (suc j) bs)) i' j')
unfolding is_cleared block_positions tested
is_cleared-block_positions q i j i' j' (Block.text_block t fs) bs = ground arith
is_cleared-block_positions q i j i' j' (Block.tool_use t fs) bs = ground arith
is_cleared-block_positions q i j i' j' (Block.tool_result r) bs = ground arith
is_cleared-block_positions q i j i' j' (Block.other_block fs) bs = ground arith
is_cleared-block_positions q i j i' j' (Block.not_dict x) bs = ground arith

is_cleared-block_positions_lt :
    (q : Test) (i j i' j' : ℕ) (bs : List Block)
    → j' < j
    → is_cleared (filter q (block_positions i j bs)) i' j' ≡ false
is_cleared-block_positions_lt q i j i' j' [] lt = unfold block_positions is_cleared in refl
is_cleared-block_positions_lt q i j i' j' (b ∷ bs) lt = ground (
  arith,
  is_cleared-block_positions q i j i' j' b bs,
  is_cleared-block_positions_lt q i (suc j) i' j' bs,
)

is_cleared-block_positions_ne :
    (q : Test) (i j i' j' : ℕ) (bs : List Block)
    → (i == i') ≡ false
    → is_cleared (filter q (block_positions i j bs)) i' j' ≡ false
is_cleared-block_positions_ne q i j i' j' [] n = unfold block_positions is_cleared in refl
is_cleared-block_positions_ne q i j i' j' (b ∷ bs) n = ground (
  arith,
  is_cleared-block_positions q i j i' j' b bs,
  is_cleared-block_positions_ne q i (suc j) i' j' bs,
)

-- Where the positions to clear are, from block `j` on, those that pass `q`.
clear_blocks-blank_blocks :
    (p : Text) (q : Test) (cp : List Position) (i j : ℕ) (bs : List Block)
    → ((j' : ℕ) → j ≤ j' → is_cleared cp i j' ≡ is_cleared (filter q (block_positions i j bs)) i j')
    → clear_blocks p cp i j bs ≡ blank_blocks p q i j bs
unfolding clear_blocks blank_blocks blank_block
clear_blocks-blank_blocks p q cp i j [] h = refl
clear_blocks-blank_blocks p q cp i j (b ∷ bs) h =
    let rest =
      clear_blocks-blank_blocks p q cp i (suc j) bs
        λ j' le. ground (arith, h j' (omega arith), is_cleared-block_positions q i j i j' b bs) in
    let here : is_cleared cp i j ≡ tested q i j b = ground (
      arith,
      h j (omega arith),
      is_cleared-block_positions q i j i j b bs,
      is_cleared-block_positions_lt q i (suc j) i j bs (omega arith),
    ) in
    rw (here, rest) refl

clear_blocks_kept :
    (p : Text) (cp : List Position) (i j : ℕ) (bs : List Block)
    → any_cleared cp i j bs ≡ false
    → clear_blocks p cp i j bs ≡ bs
unfolding clear_blocks any_cleared
clear_blocks_kept p cp i j [] h = refl
clear_blocks_kept p cp i j (b ∷ bs) h = ground (arith, clear_blocks_kept p cp i (suc j) bs)

clear_content-blank_content :
    (p : Text) (q : Test) (cp : List Position) (i : ℕ) (c : Content)
    → ((j : ℕ) → is_cleared cp i j ≡ is_cleared (filter q (message_positions i c)) i j)
    → clear_content p cp i c ≡ blank_content p q i c
unfolding clear_content blank_content message_positions
clear_content-blank_content p q cp i (plain t) h = refl
clear_content-blank_content p q cp i (blocks bs) h =
    let same = clear_blocks-blank_blocks p q cp i 0 bs λ j le. h j in
    ground (arith, same, clear_blocks_kept p cp i 0 bs)
clear_content-blank_content p q cp i (no_content o) h = refl

filter-append :
    (q : Test) (xs ys : List Position) → filter q (xs ++ ys) ≡ filter q xs ++ filter q ys
filter-append q [] ys = refl
filter-append q (x ∷ xs) ys = ground (arith, filter-append q xs ys)

is_cleared-append :
    (xs ys : List Position) (i j : ℕ)
    → is_cleared (xs ++ ys) i j ≡ (is_cleared xs i j || is_cleared ys i j)
unfolding is_cleared
is_cleared-append xs ys i j = any-append (λ p. p.0 == i && p.1 == j) xs ys

is_cleared-message_positions_ne :
    (q : Test) (i i' j : ℕ) (c : Content)
    → (i == i') ≡ false
    → is_cleared (filter q (message_positions i c)) i' j ≡ false
unfolding message_positions
is_cleared-message_positions_ne q i i' j (plain t) n = unfold is_cleared in refl
is_cleared-message_positions_ne q i i' j (blocks bs) n =
    is_cleared-block_positions_ne q i 0 i' j bs n
is_cleared-message_positions_ne q i i' j (no_content o) n = unfold is_cleared in refl

is_cleared-iter_positions :
    (q : Test) (i i' j : ℕ) (m : Message) (ms : List Message)
    → is_cleared (filter q (iter_positions i (m ∷ ms))) i' j ≡ (
        is_cleared (filter q (message_positions i m.content)) i' j
        || is_cleared (filter q (iter_positions (suc i) ms)) i' j)
unfolding iter_positions
is_cleared-iter_positions q i i' j m ms =
    rw (filter-append q (message_positions i m.content) (iter_positions (suc i) ms)) (
      is_cleared-append (filter q (message_positions i m.content))
        (filter q (iter_positions (suc i) ms)) i' j)

is_cleared-iter_positions_lt :
    (q : Test) (i i' j : ℕ) (ms : List Message)
    → i' < i
    → is_cleared (filter q (iter_positions i ms)) i' j ≡ false
is_cleared-iter_positions_lt q i i' j [] lt = unfold iter_positions is_cleared in refl
is_cleared-iter_positions_lt q i i' j (m ∷ ms) lt = ground (
  arith,
  is_cleared-iter_positions q i i' j m ms,
  is_cleared-message_positions_ne q i i' j m.content,
  is_cleared-iter_positions_lt q (suc i) i' j ms,
)

-- Where the positions to clear are those that pass `q`, to clear is to blank.
pub clear_messages-blank :
    (p : Text) (q : Test) (cp : List Position) (i : ℕ) (ms : List Message)
    → ((i' j : ℕ) → i ≤ i' → is_cleared cp i' j ≡ is_cleared (filter q (iter_positions i ms)) i' j)
    → clear_messages p cp i ms ≡ blank p q i ms
unfolding clear_messages blank
clear_messages-blank p q cp i [] h = refl
clear_messages-blank p q cp i (m ∷ ms) h =
    let rest = clear_messages-blank p q cp (suc i) ms λ i' j le. ground (
      arith,
      h i' j (omega arith),
      is_cleared-iter_positions q i i' j m ms,
      is_cleared-message_positions_ne q i i' j m.content,
    ) in
    let here = clear_content-blank_content p q cp i m.content λ j. ground (
      arith,
      h i j (omega arith),
      is_cleared-iter_positions q i i j m ms,
      is_cleared-iter_positions_lt q (suc i) i j ms (omega arith),
    ) in
    rw (here, rest) refl
