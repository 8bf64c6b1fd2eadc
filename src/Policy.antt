-- ===== src/Policy.antt =====
-- internal/conversation/policy: who speaks next. `Decision`, the trailer `<<NEXT: id>>`, the round
-- robin and `AddressedPolicy.Next`. A panic is `none`.
pub mod Trailer
pub mod Spans
pub mod RoundRobin
pub mod Contract
use vitis.Prelude.{
  ℕ, suc, Bool, true, false, not, ◌&&◌, ◌||◌, List, [], ◌∷◌, ◌++◌, Option, none, some, leb, ◌==◌,
  if◌then◌else◌, length, get_elem?, drop,
}
use vitis.Text.{
  Text, codes, equal, is_empty, contains_text, split, trim_left, trim_right, has_prefix,
}
use vitis.Model.PeerId.{PeerId, is_id_char, matches_peer_id}

pub record Decision : Type 0 where
  pub next : PeerId
  pub parsed : Option PeerId
  pub fallback_used : Bool

-- `TurnPolicy`: the interface that the broker calls.
abbrev pub TurnPolicy : Type 0
TurnPolicy = PeerId → Text → List PeerId → Option Decision

-- \s of a regular expression: [\t\n\f\r ].
unfoldable pub is_re_space : ℕ → Bool
is_re_space c = c == 9 || c == 10 || c == 12 || c == 13 || c == 32

-- The cut set " \t\r".
unfoldable pub is_line_space : ℕ → Bool
is_line_space c = c == 32 || c == 9 || c == 13

-- The longest run of id characters, and what follows it.
unfoldable pub span_id : Text → Text × Text
unfolding is_id_char
span_id [] = ([], [])
span_id (c ∷ cs) =
    let (id, rest) = span_id cs in if is_id_char c then (c ∷ id, rest) else ([], c ∷ cs)

abbrev pub next_open : Text
next_open = codes "<<NEXT:"

abbrev pub trailer_close : Text
trailer_close = codes ">>"

abbrev pub end_trailer : Text
end_trailer = codes "<<END>>"

-- The pattern behind "<<NEXT:" and its spaces. The id is a longest run, since neither a space nor
-- '>' is an id character.
unfoldable pub match_id : Text → Option PeerId
unfolding span_id trim_left is_re_space matches_peer_id
match_id t =
    let (id, rest) = span_id t in
    if matches_peer_id id && equal (trim_left is_re_space rest) trailer_close then some id else none

-- `nextTrailerRegex.FindStringSubmatch`: ^<<NEXT:\s*([a-z][a-z0-9_-]{0,31})\s*>>$
unfoldable pub match_next_trailer : Text → Option PeerId
unfolding match_id has_prefix trim_left is_re_space
match_next_trailer line =
    if has_prefix line next_open then match_id (trim_left is_re_space (drop 7 line)) else none

-- The loop from the last line up: the last line that is not blank, with its end trimmed.
unfoldable pub last_line : List Text → Text
unfolding trim_right is_line_space
last_line [] = []
last_line (l ∷ ls) =
    let later = last_line ls in if is_empty later then trim_right is_line_space l else later

unfoldable pub parse_next_trailer : Text → Option PeerId
unfolding split last_line match_next_trailer
parse_next_trailer reply =
    let last = last_line (split b'\n' reply) in
    if is_empty last then none else if equal last end_trailer then none else match_next_trailer last

-- `peers[(i+1)%len(peers)]` for the first `i` that holds `current`, over the peers left.
unfoldable pub after_in : PeerId → PeerId → List PeerId → PeerId
after_in current first [] = first
after_in current first (p ∷ []) = first
after_in current first (p ∷ q ∷ ps) = if equal p current then q else after_in current first (q ∷ ps)

unfoldable pub round_robin_after : PeerId → List PeerId → Option PeerId
unfolding after_in
round_robin_after current [] = none
round_robin_after current (p ∷ ps) = some (after_in current p (p ∷ ps))

-- The test of `Next` on the parsed id.
unfoldable pub is_addressed : Option PeerId → PeerId → List PeerId → Bool
is_addressed none current peers = false
is_addressed (some id) current peers = not (equal id current) && contains_text peers id

abbrev pub fall_back : Option PeerId → Option PeerId → Option Decision
fall_back parsed none = none
fall_back parsed (some next) = some (record { next = next; parsed = parsed; fallback_used = true })

abbrev pub take_parsed : Option PeerId → Option Decision
take_parsed none = none
take_parsed (some id) = some (record { next = id; parsed = some id; fallback_used = false })

-- `(*AddressedPolicy).Next`
unfoldable pub next : TurnPolicy
unfolding parse_next_trailer is_addressed round_robin_after
next current reply peers =
    let parsed = parse_next_trailer reply in
    if is_addressed parsed current peers
    then take_parsed parsed
    else fall_back parsed (round_robin_after current peers)
