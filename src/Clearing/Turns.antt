-- ===== src/Clearing/Turns.antt =====
-- Turns one after another: the prompt of a turn is a prefix of the next one's unless the cut
-- advances.
use ollama_herd.Common.{not, List, Text, filter}
use ollama_herd.Clearing.Messages.{Message, Position, iter_positions}
use ollama_herd.Clearing.Cut.{is_sticky}

-- The results that are not sticky.
abbrev pub fresh : List Text → List Message → List Position
fresh sticky ms = filter (λ x. not (is_sticky sticky x)) (iter_positions 0 ms)
