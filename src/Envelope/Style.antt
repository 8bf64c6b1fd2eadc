-- ===== src/Envelope/Style.antt =====
-- internal/conversation/style.go: the reply styles and the instructions that they add to a briefing.
use vitis.Prelude.{Bool, ◌||◌, List, [], ◌∷◌, ◌++◌, if◌then◌else◌}
use vitis.Text.{Text, codes, equal}

abbrev pub ReplyStyle : Type 0
ReplyStyle = Text

abbrev pub style_normal : ReplyStyle
style_normal = codes "normal"

abbrev pub style_caveman_lite : ReplyStyle
style_caveman_lite = codes "caveman-lite"

abbrev pub style_caveman_full : ReplyStyle
style_caveman_full = codes "caveman-full"

abbrev pub style_caveman_ultra : ReplyStyle
style_caveman_ultra = codes "caveman-ultra"

-- `IsValidStyle`
unfoldable pub is_valid_style : Text → Bool
is_valid_style s =
    equal s style_normal
    || equal s style_caveman_lite
    || equal s style_caveman_full
    || equal s style_caveman_ultra

-- The lines of an instruction block, one after the other.
abbrev pub concat : List Text → Text
concat [] = []
concat (l ∷ ls) = l ++ concat ls

instructions_shared : Text
instructions_shared = concat (
    codes "\n"
    ∷ codes "\n"
    ∷ codes "REPLY STYLE — caveman mode (token-efficient, technical accuracy preserved):\n"
    ∷ codes "\n"
    ∷ codes "Drop: filler words (just/really/basically/actually/simply), pleasantries\n"
    ∷ codes "(sure/certainly/of course/happy to), hedging (might/could/perhaps/I think).\n"
    ∷ codes "Keep: technical terms exact, code blocks unchanged, error messages quoted\n"
    ∷ codes "verbatim, security warnings full-length, irreversible-action confirmations\n"
    ∷ codes "full-length, multi-step sequences clear.\n"
    ∷ codes "\n"
    ∷ codes "Pattern: \"[thing] [action] [reason]. [next step].\"\n"
    ∷ codes "\n"
    ∷ codes "Bad:  \"Sure! I'd be happy to help. The issue is most likely caused by...\"\n"
    ∷ codes "Good: \"Bug in auth middleware. Token expiry uses < not <=. Fix:\"\n"
    ∷ codes "\n"
    ∷ codes "Code/commits/PRs: write normal prose. Resume caveman after."
    ∷ [])

unfoldable pub instructions_lite : Text
unfolding instructions_shared
instructions_lite = concat (
    instructions_shared
    ∷ codes "\n"
    ∷ codes "\n"
    ∷ codes "Intensity: LITE. Drop fluff and hedging but keep articles (a/an/the) and\n"
    ∷ codes "full sentences. Professional but tight. No \"I'd recommend\" — just say what\n"
    ∷ codes "to do.\n"
    ∷ [])

unfoldable pub instructions_full : Text
unfolding instructions_shared
instructions_full = concat (
    instructions_shared
    ∷ codes "\n"
    ∷ codes "\n"
    ∷ codes "Intensity: FULL. Drop articles, use sentence fragments, prefer short\n"
    ∷ codes "synonyms (big not extensive, fix not \"implement a solution for\"). Telegraphic\n"
    ∷ codes "style, but every technical claim still verifiable.\n"
    ∷ [])

unfoldable pub instructions_ultra : Text
unfolding instructions_shared
instructions_ultra = concat (
    instructions_shared
    ∷ codes "\n"
    ∷ codes "\n"
    ∷ codes "Intensity: ULTRA. Maximum compression. Abbreviate freely (DB, auth, config,\n"
    ∷ codes "req, res, fn, impl). Strip conjunctions. Use arrows for causality (X → Y).\n"
    ∷ codes "One word when one word does the job. Reserve full sentences only for\n"
    ∷ codes "warnings and irreversible actions.\n"
    ∷ [])

-- `RenderStyleInstructions`: empty for the normal style and for an unknown one.
unfoldable pub render_style_instructions : ReplyStyle → Text
render_style_instructions style =
    if equal style style_caveman_lite
    then instructions_lite
    else if equal style style_caveman_full
    then instructions_full
    else if equal style style_caveman_ultra
    then instructions_ultra
    else []
