-- ===== src/Peer.antt =====
-- internal/peer/provider/persistent.go: where a peer's turn ends in the output of its terminal, and
-- what of that output is the reply. The process around it is Peer/Persistent. Texts are bytes here.
-- Transport is provider.go and Spawner is spawner.go; Scripted is internal/peer/mock/mock.go. The rest
-- prove.
pub mod Marked
pub mod Anchor
pub mod Persistent
pub mod Spawner
pub mod Vars
pub mod Commands
pub mod Spawned
pub mod Transport
pub mod Scripted
pub mod Script
pub mod Delivering
pub mod Checks
pub mod Turns
pub mod Lines
pub mod Echo
use vitis.Prelude.{
  ℕ, zero, suc, ◌+◌, Bool, true, false, ◌&&◌, ◌||◌, List, [], ◌∷◌, ◌++◌, Option, none, some, ◌==◌,
  ltb, if◌then◌else◌, length, take, drop,
}
use vitis.Text.{Text, codes, is_empty, index, trim_left, trim_right}

-- ' ', '\t' and '\r'.
unfoldable pub is_horizontal : ℕ → Bool
is_horizontal c = c == 32 || c == 9 || c == 13

unfoldable pub is_horizontal_whitespace : Text → Bool
unfolding is_horizontal
is_horizontal_whitespace [] = true
is_horizontal_whitespace (c ∷ cs) = is_horizontal c && is_horizontal_whitespace cs

-- What follows the last newline, behind `line`.
unfoldable pub line_start : Text → Text → Text
line_start line [] = line
line_start line (c ∷ cs) = if c == b'\n' then line_start [] cs else line_start (line ++ c ∷ []) cs

-- What stands before the next newline, and the newline with the rest.
unfoldable pub line_end : Text → Text
line_end [] = []
line_end (c ∷ cs) = if c == b'\n' then [] else c ∷ line_end cs

unfoldable pub from_newline : Text → Text
from_newline [] = []
from_newline (c ∷ cs) = if c == b'\n' then c ∷ cs else from_newline cs

-- The test on the occurrence at `i`: nothing but blanks around it on its line.
unfoldable pub is_anchored : Text → Text → ℕ → Bool
unfolding is_horizontal_whitespace line_start line_end
is_anchored buf marker i =
    is_horizontal_whitespace (line_start [] (take i buf))
    && is_horizontal_whitespace (line_end (drop (i + length marker) buf))

-- The loop from `offset` on, as the fuel lasts.
unfoldable pub anchored_from : ℕ → ℕ → Text → Text → Option ℕ
unfolding index is_anchored
anchored_from zero offset buf marker = none
anchored_from (suc fuel) offset buf marker = elim (index (drop offset buf) marker) [
  | none ↦ none
  | some rel ↦
      let rest = anchored_from fuel (offset + rel + length marker) buf marker in
      if is_anchored buf marker (offset + rel) then some (offset + rel) else rest
]

-- `findLineAnchoredMarker`; `none` for -1. Each round of the loop moves the offset on by the marker.
unfoldable pub find_line_anchored_marker : Text → Text → Option ℕ
unfolding anchored_from
find_line_anchored_marker buf marker =
    if is_empty marker then none else anchored_from (suc (length buf)) 0 buf marker

-- The blanks that are trimmed from a reply: '\n', '\r', ' ' and '\t'.
unfoldable pub is_blank : ℕ → Bool
is_blank c = c == 10 || c == 13 || c == 32 || c == 9

-- `bytesIndex`
unfoldable pub bytes_index : Text → Text → Option ℕ
unfolding index
bytes_index haystack needle =
    if is_empty needle || ltb (length haystack) (length needle) then none else index haystack needle

abbrev pub drop_newline : Text → Text
drop_newline [] = []
drop_newline (c ∷ cs) = if c == b'\n' then cs else c ∷ cs

abbrev pub reply_after : Text → Text
reply_after rest = trim_right is_blank (trim_left is_blank (drop_newline (from_newline rest)))

abbrev pub echo_needle : Text → Text
echo_needle marker = codes "output the token " ++ marker

abbrev pub skip_echo : Text → Text → Option ℕ → Text
skip_echo captured needle none = captured
skip_echo captured needle (some i) = reply_after (drop (i + length needle) captured)

-- `stripEnvelopeEcho`
unfoldable pub strip_envelope_echo : Text → Text → Text
unfolding bytes_index
strip_envelope_echo captured marker =
    if is_empty captured
    then captured
    else skip_echo captured (echo_needle marker) (bytes_index captured (echo_needle marker))
