-- ===== src/Policy/Trailer.antt =====
-- The matcher of `<<NEXT: id>>` against the pattern that it stands for.
use vitis.Prelude.{
  ℕ, true, false, [], ◌∷◌, ◌++◌, some, ◌≡◌, ◌≢◌, ◌↔◌, inl, inr, refl, sym, ap, ap₂, ◌∙◌, arith,
  drop, All, List, Bool-cases,
}
use vitis.Text.{Text, equal, trim_right, trim_left, has_prefix, split, is_empty}
use vitis.Text.Equal.{equal_iff, is_empty_iff}
use vitis.Text.Trim.{
  AllCut, Starts, trim_left-splits, trim_left-append, trim_left-Starts, has_prefix-drop,
}
use vitis.Model.PeerId.{
  PeerId, is_lower, is_id_char, matches_peer_id, IsPeerId, matches_peer_id-IsPeerId,
  IsPeerId-matches_peer_id,
}
use vitis.Policy.{
  is_re_space, is_line_space, span_id, next_open, trailer_close, end_trailer, match_id,
  match_next_trailer, last_line, parse_next_trailer,
}
use vitis.Policy.Spans.{span_id-splits, span_id-append}

-- What ^<<NEXT:\s*([a-z][a-z0-9_-]{0,31})\s*>>$ says of a line and its group.
pub record IsTrailer (line : Text) (id : PeerId) : Type 0 where
  pub before : Text
  pub after : Text
  pub before_spaces : AllCut is_re_space before
  pub after_spaces : AllCut is_re_space after
  pub id_ok : IsPeerId id
  pub splits : line ≡ next_open ++ (before ++ (id ++ (after ++ trailer_close)))

lower-is_id_char : (c : ℕ) → is_lower c ≡ true → is_id_char c ≡ true
unfolding is_id_char
lower-is_id_char c h = rw h

space-not_id_char : (c : ℕ) → is_re_space c ≡ true → is_id_char c ≡ false
unfolding is_re_space is_id_char
space-not_id_char c h = ground arith

id_char-not_space : (c : ℕ) → is_id_char c ≡ true → is_re_space c ≡ false
unfolding is_re_space is_id_char
id_char-not_space c h = ground arith

close-Starts : (ws : Text) → AllCut is_re_space ws → Starts is_id_char (ws ++ trailer_close)
unfolding is_id_char
close-Starts [] h = refl
close-Starts (c ∷ ws) h = space-not_id_char c h.0

close-trim :
    (ws : Text)
    → AllCut is_re_space ws
    → trim_left is_re_space (ws ++ trailer_close) ≡ trailer_close
unfolding is_re_space
close-trim ws h =
    trim_left-append is_re_space ws trailer_close h
    ∙ trim_left-Starts is_re_space trailer_close refl

IsPeerId-chars : (id : PeerId) → IsPeerId id → All (λ c. is_id_char c ≡ true) id
IsPeerId-chars id v = rw v.splits (lower-is_id_char v.first v.lower, v.chars)

IsPeerId-Starts : (id t : Text) → IsPeerId id → Starts is_re_space (id ++ t)
IsPeerId-Starts id t v = rw v.splits (id_char-not_space v.first (lower-is_id_char v.first v.lower))

match_id-parts :
    (t : Text) {id : PeerId}
    → match_id t ≡ some id
    → (matches_peer_id (span_id t).0 ≡ true)
      × ((span_id t).0 ≡ id)
      × (equal (trim_left is_re_space (span_id t).1) trailer_close ≡ true)
unfolding match_id
match_id-parts t h = ground arith

match_id_sound :
    (t : Text) {id : PeerId}
    → match_id t ≡ some id
    → IsPeerId id × ((ws : Text) × AllCut is_re_space ws × (t ≡ id ++ (ws ++ trailer_close)))
match_id_sound t {id} h =
    let (ok, e, c) = match_id-parts t h in
    let (ws, all, s) = trim_left-splits is_re_space (span_id t).1 in
    (
      rw (← e) (matches_peer_id-IsPeerId _ ok),
      (ws, all, span_id-splits t ∙ ap₂ ◌++◌ e (s ∙ ap (λ x. ws ++ x) ((equal_iff _ _).0 c))),
    )

match_id_complete :
    (id ws : Text)
    → IsPeerId id
    → AllCut is_re_space ws
    → match_id (id ++ (ws ++ trailer_close)) ≡ some id
unfolding match_id
match_id_complete id ws v h =
    rw (span_id-append id (ws ++ trailer_close) (IsPeerId-chars id v) (close-Starts ws h))
      (rw (IsPeerId-matches_peer_id id v) (rw (close-trim ws h)))

-- The pattern.
pub match_next_trailer_sound :
    (line : Text) {id : PeerId} → match_next_trailer line ≡ some id → IsTrailer line id
unfolding match_next_trailer
match_next_trailer_sound line {id} h = elim (Bool-cases (has_prefix line next_open)) [
  | inl y ↦
      let (ws, all, e) = trim_left-splits is_re_space (drop 7 line) in
      let (v, w) = match_id_sound (trim_left is_re_space (drop 7 line)) (rw y at h) in
      record {
        before = ws;
        after = w.0;
        before_spaces = all;
        after_spaces = w.1;
        id_ok = v;
        splits =
            has_prefix-drop line next_open y ∙ ap (λ x. next_open ++ x) (e ∙ ap (λ x. ws ++ x) w.2);
      }
  | inr n ↦ absurd (cc (rw n at h))
]

pub match_next_trailer_complete :
    (line : Text) (id : PeerId) → IsTrailer line id → match_next_trailer line ≡ some id
unfolding match_next_trailer
match_next_trailer_complete line id v = rw v.splits (
    rw (trim_left-append is_re_space v.before _ v.before_spaces) (
      rw (trim_left-Starts is_re_space _ (IsPeerId-Starts id _ v.id_ok))
        (match_id_complete id v.after v.id_ok v.after_spaces)))

abbrev IsBlank : Text → Type 0
IsBlank l = trim_right is_line_space l ≡ []

-- The last line of `lines` that is not blank, with its end trimmed, is `last`.
pub record IsLastLine (lines : List Text) (last : Text) : Type 0 where
  pub above : List Text
  pub line : Text
  pub below : List Text
  pub parts : lines ≡ above ++ (line ∷ below)
  pub blank : All IsBlank below
  pub trimmed : trim_right is_line_space line ≡ last
  pub filled : last ≢ []

last_line-IsBlank : (ls : List Text) → last_line ls ≡ [] → All IsBlank ls
unfolding last_line
last_line-IsBlank [] h = tt
last_line-IsBlank (l ∷ ls) h = elim (Bool-cases (is_empty (last_line ls))) [
  | inl y ↦ (rw y at h, last_line-IsBlank ls ((is_empty_iff _).0 y))
  | inr n ↦ absurd (ground (arith, is_empty_iff (last_line ls)))
]

blank-last_line : (ls : List Text) → All IsBlank ls → last_line ls ≡ []
unfolding last_line
blank-last_line [] h = refl
blank-last_line (l ∷ ls) h = rw (blank-last_line ls h.1) h.0

last_line-IsLastLine : (ls : List Text) → last_line ls ≢ [] → IsLastLine ls (last_line ls)
unfolding last_line
last_line-IsLastLine [] h = absurd (h refl)
last_line-IsLastLine (l ∷ ls) h = elim (Bool-cases (is_empty (last_line ls))) [
  | inl y ↦ record {
    above = [];
    line = l;
    below = ls;
    parts = refl;
    blank = last_line-IsBlank ls ((is_empty_iff _).0 y);
    trimmed = rw y;
    filled = h;
  }
  | inr n ↦
      let later = last_line-IsLastLine ls (λ e. ground (arith, is_empty_iff (last_line ls))) in
      record {
        above = l ∷ later.above;
        line = later.line;
        below = later.below;
        parts = ap (◌∷◌ l) later.parts;
        blank = later.blank;
        trimmed = rw n later.trimmed;
        filled = h;
      }
]

last_line-parts :
    (above : List Text) (line : Text) (below : List Text)
    → All IsBlank below
    → trim_right is_line_space line ≢ []
    → last_line (above ++ (line ∷ below)) ≡ trim_right is_line_space line
unfolding last_line
last_line-parts [] line below h f = rw (blank-last_line below h)
last_line-parts (a ∷ above) line below h f =
    rw (last_line-parts above line below h f)
      (ground (arith, is_empty_iff (trim_right is_line_space line)))

IsLastLine-last_line : (ls : List Text) (last : Text) → IsLastLine ls last → last_line ls ≡ last
IsLastLine-last_line ls last v =
    rw v.parts (last_line-parts v.above v.line v.below v.blank (λ e. v.filled (sym v.trimmed ∙ e)))
    ∙ v.trimmed

-- A reply carries a trailer for `id` on its last line that is not blank.
pub record HasTrailer (reply : Text) (id : PeerId) : Type 0 where
  pub last : Text
  pub is_last : IsLastLine (split b'\n' reply) last
  pub trailer : IsTrailer last id

IsTrailer-ne-end : (line : Text) (id : PeerId) → IsTrailer line id → equal line end_trailer ≡ false
IsTrailer-ne-end line id v = rw v.splits

-- `parseNextTrailer` finds an id exactly when the last line of the reply that is not blank, its
-- end trimmed, is a trailer that names it. `<<END>>` there is never read as an id.
pub parse_next_trailer_iff :
    (reply : Text) (id : PeerId) → (parse_next_trailer reply ≡ some id) ↔ HasTrailer reply id
unfolding parse_next_trailer
parse_next_trailer_iff reply id = (found, reads)
  where
    found : parse_next_trailer reply ≡ some id → HasTrailer reply id
    found h = elim (Bool-cases (is_empty (last_line (split b'\n' reply)))) [
      | inl y ↦ absurd (cc (rw y at h))
      | inr n ↦ elim (Bool-cases (equal (last_line (split b'\n' reply)) end_trailer)) [
        | inl y ↦ absurd (cc (rw (n, y) at h))
        | inr m ↦ record {
          last = last_line (split b'\n' reply);
          is_last =
              last_line-IsLastLine _
                (λ e. ground (arith, is_empty_iff (last_line (split b'\n' reply))));
          trailer = match_next_trailer_sound _ (rw (n, m) at h);
        }
      ]
    ]

    reads : HasTrailer reply id → parse_next_trailer reply ≡ some id
    reads v = rw (IsLastLine-last_line _ _ v.is_last) (
        rw (IsTrailer-ne-end v.last id v.trailer) (
          ground (
            arith,
            match_next_trailer_complete v.last id v.trailer,
            is_empty_iff v.last,
            v.is_last.filled,
          )))
