-- ===== src/Comments.antt =====
-- internal/monitor/config.go: `StripComments`, which takes the comments out of a configuration
-- before it is read as JSON. The fuel of the loop is the length of the text, since each round takes
-- at least one byte.
pub mod Scanner
pub mod Idempotent
mod Tests
use redborder_monitor.Base.{
  ℕ, zero, suc, ◌≡◌, Bool, true, false, not, ◌&&◌, List, [], ◌∷◌, length, ◌==◌, if◌then◌else◌,
}
use redborder_monitor.Base.Text.{Bytes}

-- What stands at the front of a text outside of strings: a quote, a comment with the text behind
-- it, or a byte to keep.
pub data Front : Type 0 where
  quote : Front
  comment : Bytes → Front
  kept : Front

-- the text behind the end of a block comment
unfoldable pub skip_block : Bytes → Bytes
skip_block [] = []
skip_block (c ∷ []) = []
skip_block (c ∷ d ∷ s) = let rest = skip_block (d ∷ s) in if c == b'*' && d == b'/' then s else rest

-- the text from the end of the line on
unfoldable pub skip_line : Bytes → Bytes
skip_line [] = []
skip_line (c ∷ s) = let rest = skip_line s in if c == b'\n' then c ∷ s else rest

abbrev pub second : Bytes → Front
second [] = kept
second (d ∷ s) =
    if d == b'*' then comment (skip_block s) else if d == b'/' then comment (skip_line s) else kept

abbrev pub front : ℕ → Bytes → Front
front c s = if c == b'"' then quote else if c == b'/' then second s else kept

-- `escaped` and `inString` behind a byte of a string
abbrev pub escapes : Bool → ℕ → Bool
escapes escaped c = not escaped && c == b'\\'

abbrev pub stays : Bool → ℕ → Bool
stays true c = true
stays false c = if c == b'\\' then true else not (c == b'"')

unfoldable pub strip_loop : ℕ → Bool → Bool → Bytes → Bytes
strip_loop zero in_string escaped s = []
strip_loop (suc fuel) in_string escaped [] = []
strip_loop (suc fuel) true escaped (c ∷ s) =
    c ∷ strip_loop fuel (stays escaped c) (escapes escaped c) s
strip_loop (suc fuel) false escaped (c ∷ s) = elim (front c s) [
  | quote ↦ c ∷ strip_loop fuel true escaped s
  | comment rest ↦ strip_loop fuel false escaped rest
  | kept ↦ c ∷ strip_loop fuel false escaped s
]

unfoldable pub strip_comments : Bytes → Bytes
strip_comments s = strip_loop (length s) false false s
