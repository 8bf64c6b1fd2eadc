-- ===== src/Envelope.antt =====
-- internal/conversation/briefing.go and envelope.go: the text that a peer is sent. The reply styles
-- are Envelope/Style, the marker tokens Envelope/Marker.
pub mod Style
pub mod Marker
pub mod Tokens
pub mod Bodies
use vitis.Prelude.{ℕ, Bool, true, false, not, List, [], ◌∷◌, ◌++◌, if◌then◌else◌}
use vitis.Text.{Text, codes, equal, is_empty, ends_with, itoa}
use vitis.Model.Conversation.{Conversation, Envelope, PeerSlot, TerminatorSpec, slot_a}
use Style.{ReplyStyle, render_style_instructions}

pub record BriefingInput : Type 0 where
  pub slot : PeerSlot
  pub max_turns : ℕ
  pub terminator : TerminatorSpec
  pub style : ReplyStyle

abbrev pub is_sentinel_kind : TerminatorSpec → Bool
is_sentinel_kind t = equal t.kind (codes "sentinel")

-- The two lines that only the sentinel mode has.
unfoldable pub sentinel_lines : TerminatorSpec → Text
sentinel_lines t =
    if is_sentinel_kind t
    then codes
        "When you believe the conversation has reached its goal or natural end, end your final\n"
      ++ (codes "reply with the literal token "
          ++ ((if is_empty t.sentinel then codes "<<END>>" else t.sentinel)
              ++ codes " on its own line BEFORE the turn-end marker.\n\n"))
    else []

-- `RenderBriefing`
unfoldable pub render_briefing : BriefingInput → Text
unfolding sentinel_lines render_style_instructions itoa
render_briefing r =
    codes
      "You are participating in a multi-turn conversation with another AI agent through Vitis.\n"
    ++ (codes
          "The other agent's messages will be delivered to you as plain text wrapped in a header\n"
        ++ (codes
              "line indicating the turn number and sender. You should reply as if speaking to a\n"
            ++ (codes "collaborator.\n\n"
                ++ (codes "You are: peer-"
                    ++ (r.slot
                        ++ (codes ".\nMaximum turns in this conversation: "
                            ++ (itoa r.max_turns
                                ++ (codes ".\n\n"
                                    ++ (sentinel_lines r.terminator
                                        ++ (codes
                                              "After every reply, you MUST output a per-turn marker token as instructed in the\n"
                                            ++ (codes
                                                  "incoming message. This marker tells the broker your turn is complete. If you forget\n"
                                                ++ (codes "the marker, your turn will time out.\n"
                                                    ++ render_style_instructions r.style))))))))))))

-- `seedFor`
unfoldable pub seed_for : Conversation → PeerSlot → Text
seed_for conv slot = if equal slot slot_a then conv.seed_a else conv.seed_b

abbrev pub header : Text → ℕ → ℕ → Text → Text
header id turn_index max_turns from_label =
    codes "[conversation: "
    ++ (id
        ++ (codes "  turn "
            ++ (itoa turn_index
                ++ (codes " of "
                    ++ (itoa max_turns ++ (codes "  from: " ++ (from_label ++ codes "]\n")))))))

-- The content, with a newline behind it unless it ends with one.
abbrev pub closed_content : Text → Text
closed_content content = if ends_with b'\n' content then content else content ++ b'\n' ∷ []

abbrev pub instruction : Text → Text
instruction marker =
    codes "When you finish your reply, output the token " ++ (marker ++ codes " on its own line.\n")

-- `renderBody`
unfoldable pub render_body : Text → ℕ → ℕ → Text → Text → Text → Text
unfolding itoa ends_with
render_body id turn_index max_turns from_label content marker =
    header id turn_index max_turns from_label
    ++ (closed_content content ++ (b'\n' ∷ instruction marker))

abbrev pub seed_label : PeerSlot
seed_label = codes "seed"

-- `BuildEnvelopeTurn1`
unfoldable pub build_envelope_turn1 : Conversation → PeerSlot → Text → Envelope
unfolding render_briefing seed_for render_body
build_envelope_turn1 conv slot marker =
    let briefing = render_briefing (record {
      slot = slot;
      max_turns = conv.max_turns;
      terminator = conv.terminator;
      style = conv.reply_style;
    }) in
    record {
      conversation_id = conv.id;
      turn_index = 1;
      max_turns = conv.max_turns;
      from = seed_label;
      from_id = [];
      to_id = [];
      body =
          briefing
          ++ (codes "\n\n"
              ++ render_body conv.id 1 conv.max_turns seed_label (seed_for conv slot) marker);
      marker_token = marker;
      include_briefing = true;
      briefing = briefing;
    }

-- `BuildEnvelopeTurnN`
unfoldable pub build_envelope_turn_n : Conversation → ℕ → PeerSlot → Text → Text → Envelope
unfolding render_body
build_envelope_turn_n conv turn_index from previous_response marker = record {
  conversation_id = conv.id;
  turn_index = turn_index;
  max_turns = conv.max_turns;
  from = from;
  from_id = [];
  to_id = [];
  body =
      render_body conv.id turn_index conv.max_turns (codes "peer-" ++ from) previous_response
        marker;
  marker_token = marker;
  include_briefing = false;
  briefing = [];
}
