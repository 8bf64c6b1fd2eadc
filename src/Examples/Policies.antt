-- ===== src/Examples/Policies.antt =====
-- Trailers and turns.
use vitis.Prelude.{
  ◌%◌, ◌+◌, length, true, List, [], ◌∷◌, ◌≡◌, ◌≢◌, ◌↔◌, refl, some, none, get_elem?, arith,
}
use vitis.Text.{codes}
use vitis.Text.Equal.{here, equal-false}
use vitis.Model.PeerId.{PeerId, validate}
use vitis.Policy.{Decision, parse_next_trailer, round_robin_after, next}
use vitis.Policy.Trailer.{HasTrailer, parse_next_trailer_iff}
use vitis.Policy.RoundRobin.{Distinct, round_robin_after_lem}
use vitis.Policy.Contract.{Answers, next-Answers, next-ne}

abbrev trio : List PeerId
trio = codes "ann" ∷ codes "bob" ∷ codes "cy" ∷ []

trio-Distinct : Distinct trio
trio-Distinct = (
  (equal-false (codes "ann") (codes "bob") refl, (equal-false (codes "ann") (codes "cy") refl, tt)),
  ((equal-false (codes "bob") (codes "cy") refl, tt), (tt, tt)),
)

trailer_found : parse_next_trailer (codes "done\n<<NEXT:  bob >>  \n\n") ≡ some (codes "bob")
unfolding parse_next_trailer
trailer_found = refl

trailer_ended : parse_next_trailer (codes "<<NEXT: bob>>\n<<END>>") ≡ none
unfolding parse_next_trailer
trailer_ended = refl

bad_id : validate (codes "Bob") ≢ none
unfolding validate
bad_id e = cc

parse_next_trailer_iff_example :
    (parse_next_trailer (codes "hi\n<<NEXT: cy>>") ≡ some (codes "cy"))
    ↔ HasTrailer (codes "hi\n<<NEXT: cy>>") (codes "cy")
parse_next_trailer_iff_example = parse_next_trailer_iff (codes "hi\n<<NEXT: cy>>") (codes "cy")

round_robin_after_lem_example :
    round_robin_after (codes "cy") trio ≡ get_elem? trio ((2 + 1) % length trio)
round_robin_after_lem_example = round_robin_after_lem trio (codes "cy") 2 trio-Distinct refl

next-Answers_example :
    (d : Decision) × (next (codes "ann") (codes "<<NEXT: cy>>") trio ≡ some d)
    × Answers (codes "ann") (codes "<<NEXT: cy>>") trio d
next-Answers_example = next-Answers (codes "ann") (codes "<<NEXT: cy>>") trio (λ e. cc)

-- A peer that addresses itself is passed over.
next-ne_example : codes "bob" ≢ codes "ann"
unfolding next
next-ne_example =
    next-ne (codes "ann") (codes "<<NEXT: ann>>") trio
      {d = record { next = codes "bob"; parsed = some (codes "ann"); fallback_used = true }}
      trio-Distinct (omega arith) (here refl) refl
