-- ===== src/Target/Split.antt =====
-- cli_command.cc: `SplitColonSeparated`, which cuts a target at the colons that no pair of `@` holds.
use encos_cli.Base.{
  ℕ, Bool, false, not, ◌&&◌, List, [], ◌∷◌, ◌++◌, map, Bytes, ◌==◌, if◌then◌else◌, Result, ok,
  runtime_error, ◌>>◌, throw_if,
}

-- The variables of the loop.
pub record Splitter : Type 0 where
  pub parts : List Bytes
  pub current : Bytes
  pub in_quote : Bool

-- One round, on the character `c`.
unfoldable pub split_step : ℕ → Splitter → Splitter
split_step c s =
    if c == b'@'
    then record s { in_quote = not s.in_quote; current = s.current ++ c ∷ [] }
    else if c == b':' && not s.in_quote
    then record s { parts = s.parts ++ s.current ∷ []; current = [] }
    else record s { current = s.current ++ c ∷ [] }

unfoldable pub split_loop : Bytes → Splitter → Splitter
unfolding split_step
split_loop [] s = s
split_loop (c ∷ text) s = split_loop text (split_step c s)

-- `part.back() == '@'`.
unfoldable pub ends_quoted : Bytes → Bool
ends_quoted [] = false
ends_quoted (c ∷ []) = c == b'@'
ends_quoted (_ ∷ d ∷ s) = ends_quoted (d ∷ s)

unfoldable pub drop_last : Bytes → Bytes
drop_last [] = []
drop_last (c ∷ []) = []
drop_last (c ∷ d ∷ s) = c ∷ drop_last (d ∷ s)

-- The second loop: `part.substr(1, part.size() - 2)` for a part of two characters or more that
-- begins and ends with `@`.
unfoldable pub unquote : Bytes → Bytes
unfolding ends_quoted drop_last
unquote (c ∷ d ∷ s) = if c == b'@' && ends_quoted (d ∷ s) then drop_last (d ∷ s) else c ∷ d ∷ s
unquote part = part

abbrev pub start : Splitter
start = record { parts = []; current = []; in_quote = false }

unfoldable pub split_colon_separated : Bytes → Result (List Bytes)
unfolding split_loop unquote
split_colon_separated value = do
  let s = split_loop value start
  throw_if s.in_quote (runtime_error "Invalid target, unbalanced '@'" value)
  ok (map unquote (s.parts ++ s.current ∷ []))
