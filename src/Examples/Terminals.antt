-- ===== src/Examples/Terminals.antt =====
-- A turn over a terminal that echoes what it is sent, and what is kept of its output.
use vitis.Prelude.{
  List, ℕ, ◌≤◌, ◌++◌, pos, false, [], ◌∷◌, none, some, ◌≡◌, ◌↔◌, inl, inr, refl, arith,
}
use vitis.Text.{Text, codes, is_space, trim_left, trim_right}
use vitis.Text.Positions.{occurrences}
use vitis.Envelope.Tokens.{IsWord}
use vitis.Peer.{find_line_anchored_marker, is_blank, is_horizontal_whitespace, line_end}
use vitis.Peer.Anchor.{
  IsAnchored, find_line_anchored_marker-IsAnchored, find_line_anchored_marker-le,
}
use vitis.Peer.Persistent.{
  new_persistent_process, output, done, pump, Wake, Answer, replied, converse_turn,
}
use vitis.Peer.Turns.{Cut, converse_turn-Cut, converse_turn-Ends}
use vitis.Peer.Echo.{shown, converse_turn_echo}
use vitis.Terminal.Normalize.{esc, is_visible, is_letter, normalize_pty_text}
use vitis.Terminal.Visible.{
  IsVisible, normalize_pty_text-IsVisible, normalize_pty_text_idem, normalize_pty_text-csi,
}
use vitis.Terminal.Transcript.{StreamEvent, new_transcript}
use vitis.Terminal.Tail.{IsTranscript, bytes_of, append_all, append_all-IsTranscript}

abbrev marker : Text
marker = codes "M1"

marker-IsWord : IsWord marker
unfolding is_space
marker-IsWord = (refl, (refl, tt))

-- The mention within the line is passed over.
mention_skipped : find_line_anchored_marker (codes "say M1 now\n M1 \n") marker ≡ some 12
unfolding find_line_anchored_marker
mention_skipped = refl

find_line_anchored_marker-IsAnchored_example : IsAnchored (codes "say M1 now\n M1 \n") marker 12
find_line_anchored_marker-IsAnchored_example =
    find_line_anchored_marker-IsAnchored (codes "say M1 now\n M1 \n") marker mention_skipped

find_line_anchored_marker-le_example :
    (i : ℕ) × (find_line_anchored_marker (codes "say M1 now\n M1 \n") marker ≡ some i)
    × IsAnchored (codes "say M1 now\n M1 \n") marker i
    × (i ≤ 12)
find_line_anchored_marker-le_example =
    find_line_anchored_marker-le (codes "say M1 now\n M1 \n") marker 12 marker-IsWord (λ e. cc)
      (find_line_anchored_marker-IsAnchored (codes "say M1 now\n M1 \n") marker mention_skipped)

abbrev echoed : Text
echoed = shown (codes "hi\n") marker (codes " fine \n") ++ (marker ++ codes "\n$ ")

abbrev arrival : Wake
arrival = record { events = output echoed ∷ []; ctx_err = none; late = false }

converse_turn_echo_example : converse_turn marker none (arrival ∷ []) new_persistent_process ≡ (
  record (pump arrival.events new_persistent_process) { buffer = []; cursor = 0 },
  some (replied (trim_right is_blank (trim_left is_blank (codes " fine \n")))),
)
unfolding occurrences is_horizontal_whitespace new_persistent_process pump line_end
converse_turn_echo_example =
    converse_turn_echo (codes "hi\n") marker (codes " fine \n") (codes "\n$ ") arrival []
      new_persistent_process marker-IsWord (λ e. cc) refl refl refl

reply_is : trim_right is_blank (trim_left is_blank (codes " fine \n")) ≡ codes "fine"
unfolding is_blank trim_right trim_left
reply_is = refl

converse_turn-Cut_example :
    Cut marker
      (arrival ∷ [])
      new_persistent_process
      (record (pump arrival.events new_persistent_process) { buffer = []; cursor = 0 })
      (trim_right is_blank (trim_left is_blank (codes " fine \n")))
unfolding occurrences is_horizontal_whitespace new_persistent_process pump line_end
converse_turn-Cut_example = converse_turn-Cut marker none (arrival ∷ []) new_persistent_process (
    converse_turn_echo (codes "hi\n") marker (codes " fine \n") (codes "\n$ ") arrival []
      new_persistent_process marker-IsWord (λ e. cc) refl refl refl)

abbrev gone : Wake
gone = record { events = done (pos 1) ∷ output echoed ∷ []; ctx_err = none; late = false }

converse_turn-Ends_example :
    (a : Answer) × ((converse_turn marker none ([] ++ gone ∷ []) new_persistent_process).1 ≡ some a)
unfolding pump new_persistent_process
converse_turn-Ends_example =
    converse_turn-Ends marker none gone [] [] new_persistent_process (inl refl)

abbrev hidden : Text
hidden = codes "a" ++ (esc ∷ b'[' ∷ (codes "1;31" ++ (b'm' ∷ codes "b\r\nc\rd")))

hidden_normal : normalize_pty_text hidden ≡ codes "ab\nc\nd"
unfolding normalize_pty_text
hidden_normal = refl

normalize_pty_text-IsVisible_example :
    IsVisible (normalize_pty_text hidden)
    × (IsVisible hidden ↔ (normalize_pty_text hidden ≡ hidden))
normalize_pty_text-IsVisible_example = normalize_pty_text-IsVisible hidden

normalize_pty_text_idem_example :
    normalize_pty_text (normalize_pty_text hidden) ≡ normalize_pty_text hidden
normalize_pty_text_idem_example = normalize_pty_text_idem hidden

normalize_pty_text-csi_example :
    normalize_pty_text (codes "a" ++ (esc ∷ b'[' ∷ (codes "1;31" ++ (b'm' ∷ codes "b\r\nc\rd"))))
    ≡ codes "a" ++ normalize_pty_text (codes "b\r\nc\rd")
unfolding is_visible is_letter
normalize_pty_text-csi_example =
    normalize_pty_text-csi (codes "a") (codes "1;31") b'm' (codes "b\r\nc\rd")
      (inr (inr (omega arith, λ e. omega (arith, e))), tt) (refl, (refl, (refl, (refl, tt)))) refl

abbrev events : List StreamEvent
events =
    record { timestamp = 4; data_of = codes "abc" }
    ∷ record { timestamp = 6; data_of = codes "de" }
    ∷ []

append_all-IsTranscript_example :
    IsTranscript (bytes_of events) (append_all events (new_transcript 4))
append_all-IsTranscript_example = append_all-IsTranscript 4 events

tail_is : (append_all events (new_transcript 4)).tail ≡ codes "bcde"
unfolding append_all new_transcript
tail_is = refl
