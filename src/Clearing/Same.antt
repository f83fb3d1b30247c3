-- ===== src/Clearing/Same.antt =====
-- When a clearing, or its description, changes nothing, and when two descriptions agree.
use ollama_herd.Common.{
  ℕ, suc, ◌+◌, ◌≡◌, refl, sym, false, ◌||◌, List, [], ◌∷◌, ◌++◌, Text, is_empty, length, any, arith,
}
use ollama_herd.Clearing.Messages.{
  Block, Content, plain, blocks, no_content, Message, Position, resolved_id, block_positions,
  message_positions, iter_positions,
}
use ollama_herd.Clearing.Cut.{is_cleared, any_cleared, clear_content, clear_messages, finish}
use ollama_herd.Clearing.Blank.{
  Test, tested, blank_block, blank_blocks, blank_content, blank, any-append,
}

any_cleared_none : (i j : ℕ) (bs : List Block) → any_cleared [] i j bs ≡ false
unfolding any_cleared is_cleared
any_cleared_none i j [] = refl
any_cleared_none i j (b ∷ bs) = any_cleared_none i (suc j) bs

clear_content_none : (p : Text) (i : ℕ) (c : Content) → clear_content p [] i c ≡ c
unfolding clear_content
clear_content_none p i (plain t) = refl
clear_content_none p i (blocks bs) = rw (any_cleared_none i 0 bs) refl
clear_content_none p i (no_content o) = refl

-- No position to clear, no change.
pub clear_messages_none : (p : Text) (i : ℕ) (ms : List Message) → clear_messages p [] i ms ≡ ms
unfolding clear_messages
clear_messages_none p i [] = refl
clear_messages_none p i (m ∷ ms) =
    rw (clear_content_none p i m.content, clear_messages_none p (suc i) ms) refl

pub finish_messages :
    {S : Type 0} (p : Text) (ms : List Message) (ps cp : List Position) (s persist : S)
    → (finish p ms ps cp s persist).0 ≡ clear_messages p cp 0 ms
finish_messages p ms ps [] s persist = sym (clear_messages_none p 0 ms)
finish_messages p ms ps (c ∷ cp) s persist = refl

any-block_positions :
    (q : Test) (i j : ℕ) (b : Block) (bs : List Block)
    → any q (block_positions i j (b ∷ bs))
      ≡ (tested q i j b || any q (block_positions i (suc j) bs))
unfolding block_positions tested
any-block_positions q i j (Block.text_block t fs) bs = refl
any-block_positions q i j (Block.tool_use t fs) bs = refl
any-block_positions q i j (Block.tool_result r) bs = refl
any-block_positions q i j (Block.other_block fs) bs = refl
any-block_positions q i j (Block.not_dict x) bs = refl

blank_blocks_none :
    (p : Text) (q : Test) (i j : ℕ) (bs : List Block)
    → any q (block_positions i j bs) ≡ false
    → blank_blocks p q i j bs ≡ bs
unfolding blank_blocks blank_block
blank_blocks_none p q i j [] h = refl
blank_blocks_none p q i j (b ∷ bs) h =
    ground (arith, any-block_positions q i j b bs, blank_blocks_none p q i (suc j) bs)

blank_content_none :
    (p : Text) (q : Test) (i : ℕ) (c : Content)
    → any q (message_positions i c) ≡ false
    → blank_content p q i c ≡ c
unfolding blank_content message_positions
blank_content_none p q i (plain t) h = refl
blank_content_none p q i (blocks bs) h = rw (blank_blocks_none p q i 0 bs h) refl
blank_content_none p q i (no_content o) h = refl

-- Where no position passes, nothing is blanked.
pub blank_none :
    (p : Text) (q : Test) (i : ℕ) (ms : List Message)
    → any q (iter_positions i ms) ≡ false
    → blank p q i ms ≡ ms
unfolding blank iter_positions
blank_none p q i [] h = refl
blank_none p q i (m ∷ ms) h =
    let split = any-append q (message_positions i m.content) (iter_positions (suc i) ms) in
    let rest = blank_none p q (suc i) ms (ground arith) in
    rw (blank_content_none p q i m.content (ground arith), rest) refl

-- The tests agree on every id that is not empty.
abbrev pub Agree : Test → Test → Type 0
Agree q r = (i j : ℕ) (t : Text) → is_empty t ≡ false → q (i, j, t) ≡ r (i, j, t)

resolved_id_nonempty : (i j : ℕ) (t : Text) → is_empty (resolved_id i j t) ≡ false
unfolding resolved_id
resolved_id_nonempty i j [] = refl
resolved_id_nonempty i j (c ∷ s) = refl

tested-Agree : (q r : Test) (i j : ℕ) (b : Block) → Agree q r → tested q i j b ≡ tested r i j b
unfolding tested
tested-Agree q r i j (Block.text_block t fs) h = refl
tested-Agree q r i j (Block.tool_use t fs) h = refl
tested-Agree q r i j (Block.tool_result t) h =
    h i j (resolved_id i j t.tool_use_id) (resolved_id_nonempty i j t.tool_use_id)
tested-Agree q r i j (Block.other_block fs) h = refl
tested-Agree q r i j (Block.not_dict x) h = refl

blank_blocks-Agree :
    (p : Text) (q r : Test) (i j : ℕ) (bs : List Block)
    → Agree q r
    → blank_blocks p q i j bs ≡ blank_blocks p r i j bs
unfolding blank_blocks blank_block
blank_blocks-Agree p q r i j [] h = refl
blank_blocks-Agree p q r i j (b ∷ bs) h =
    rw (tested-Agree q r i j b h, blank_blocks-Agree p q r i (suc j) bs h) refl

blank_content-Agree :
    (p : Text) (q r : Test) (i : ℕ) (c : Content)
    → Agree q r
    → blank_content p q i c ≡ blank_content p r i c
unfolding blank_content
blank_content-Agree p q r i (plain t) h = refl
blank_content-Agree p q r i (blocks bs) h = rw (blank_blocks-Agree p q r i 0 bs h) refl
blank_content-Agree p q r i (no_content o) h = refl

pub blank-Agree :
    (p : Text) (q r : Test) (i : ℕ) (ms : List Message)
    → Agree q r
    → blank p q i ms ≡ blank p r i ms
unfolding blank
blank-Agree p q r i [] h = refl
blank-Agree p q r i (m ∷ ms) h =
    rw (blank_content-Agree p q r i m.content h, blank-Agree p q r (suc i) ms h) refl

pub blank-append :
    (p : Text) (q : Test) (i : ℕ) (ms more : List Message)
    → blank p q i (ms ++ more) ≡ blank p q i ms ++ blank p q (i + length ms) more
unfolding blank
blank-append p q i [] more = rw (plus_zero i) refl
  where
    plus_zero : (n : ℕ) → n + 0 ≡ n
    plus_zero n = omega arith
blank-append p q i (m ∷ ms) more = ground (arith, blank-append p q (suc i) ms more)
