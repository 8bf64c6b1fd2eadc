-- ===== src/Terminal/Visible.antt =====
-- ansi.go: the bytes that `NormalizePTYText` writes, and what it does to visible text.
use vitis.Prelude.{
  ◌≤◌, ◌≢◌, ◌⊎◌, ◌↔◌, ℕ, Bool, true, false, [], ◌∷◌, ◌++◌, ◌≡◌, inl, inr, refl, sym, ap, subst,
  append-nil, ◌∙◌, arith, ◌==◌, if◌then◌else◌, All, All-append, Bool-cases,
}
use vitis.Text.{Text}
use vitis.Terminal.Normalize.{
  Mode, text, escaped, csi, osc, osc_escaped, esc, is_letter, is_visible, starts_with_newline,
  in_text, step, scan, replace_crlf, normalize_pty_text,
}

-- A tab, a newline, or no control character of ASCII.
abbrev pub IsShown : ℕ → Type 0
IsShown c = (c ≡ 9) ⊎ (c ≡ 10) ⊎ ((32 ≤ c) × (c ≢ 127))

abbrev pub IsVisible : Text → Type 0
IsVisible = All IsShown

IsShown-visible : (c : ℕ) → IsShown c → is_visible c ≡ true
unfolding is_visible
IsShown-visible c h = ground (arith, h)

visible-IsShown : (c : ℕ) → is_visible c ≡ true → IsShown c
unfolding is_visible
visible-IsShown c h = ground arith

newline-IsShown : IsShown 10
newline-IsShown = inr (inl refl)

in_text-IsVisible : (c : ℕ) (rest : Text) → IsVisible (in_text c rest).1
unfolding in_text
in_text-IsVisible c rest = elim (Bool-cases (c == esc)) [
  | inl y ↦ rw y tt
  | inr n ↦ rw n (elim (Bool-cases (c == 13)) [
    | inl y ↦ rw y (newline-IsVisible (starts_with_newline rest))
    | inr m ↦ rw m (elim (Bool-cases (c == 0)) [
      | inl y ↦ rw y tt
      | inr k ↦ rw k (elim (Bool-cases (is_visible c)) [
        | inl v ↦ rw v (visible-IsShown c v, tt)
        | inr v ↦ rw v tt
      ])
    ])
  ])
]
  where
    newline-IsVisible : (b : Bool) → IsVisible (if b then [] else 10 ∷ [])
    newline-IsVisible true = tt
    newline-IsVisible false = (newline-IsShown, tt)

step-IsVisible : (m : Mode) (c : ℕ) (rest : Text) → IsVisible (step m c rest).1
unfolding step
step-IsVisible text c rest = in_text-IsVisible c rest
step-IsVisible escaped c rest = tt
step-IsVisible csi c rest = tt
step-IsVisible osc c rest = tt
step-IsVisible osc_escaped c rest = tt

scan-IsVisible : (m : Mode) (t : Text) → IsVisible (scan m t)
unfolding scan
scan-IsVisible m [] = tt
scan-IsVisible m (c ∷ t) =
    All-append IsShown (step m c t).1 (scan (step m c t).0 t) (step-IsVisible m c t)
      (scan-IsVisible (step m c t).0 t)

visible_not_return : (c : ℕ) → is_visible c ≡ true → (c == 13) ≡ false
unfolding is_visible
visible_not_return c h = ground arith

replace_crlf_self : (t : Text) → IsVisible t → replace_crlf t ≡ t
unfolding replace_crlf
replace_crlf_self [] h = refl
replace_crlf_self (c ∷ t) h =
    rw (visible_not_return c (IsShown-visible c h.0)) (ap (◌∷◌ c) (replace_crlf_self t h.1))

-- The replacement at the end of `NormalizePTYText` changes nothing.
normalize_scan : (raw : Text) → normalize_pty_text raw ≡ scan text raw
unfolding normalize_pty_text
normalize_scan raw = replace_crlf_self (scan text raw) (scan-IsVisible text raw)

visible_plain :
    (c : ℕ) → is_visible c ≡ true → ((c == esc) ≡ false) × ((c == 13) ≡ false) × ((c == 0) ≡ false)
unfolding is_visible
visible_plain c h = ground arith

visible_step : (c : ℕ) (rest : Text) → is_visible c ≡ true → step text c rest ≡ (text, c ∷ [])
unfolding step in_text
visible_step c rest h = let (e, r, z) = visible_plain c h in rw e (rw r (rw z (rw h)))

scan-append : (a t : Text) → IsVisible a → scan text (a ++ t) ≡ a ++ scan text t
unfolding scan
scan-append [] t h = refl
scan-append (c ∷ a) t h =
    ap (λ s. s.1 ++ scan s.0 (a ++ t)) (visible_step c (a ++ t) (IsShown-visible c h.0))
    ∙ ap (◌∷◌ c) (scan-append a t h.1)

scan_csi :
    (params : Text) (final : ℕ) (t : Text)
    → All (λ c. is_letter c ≡ false) params
    → is_letter final ≡ true
    → scan csi (params ++ (final ∷ t)) ≡ scan text t
unfolding scan step
scan_csi [] final t h f = rw f
scan_csi (c ∷ params) final t h f = rw h.0 (scan_csi params final t h.1 f)

normal-IsVisible : (raw : Text) → IsVisible (normalize_pty_text raw)
normal-IsVisible raw = subst IsVisible (sym (normalize_scan raw)) (scan-IsVisible text raw)

visible_normal : (raw : Text) → IsVisible raw → normalize_pty_text raw ≡ raw
unfolding scan
visible_normal raw h =
    normalize_scan raw
    ∙ ap (scan text) (sym (append-nil raw))
    ∙ scan-append raw [] h
    ∙ append-nil raw

-- Whatever the terminal sends, no control character of ASCII but tabs and newlines is left of it, and
-- exactly the texts that have no other are left as they are. Bytes from 0x80 on are no such character.
pub normalize_pty_text-IsVisible :
    (raw : Text)
    → IsVisible (normalize_pty_text raw) × (IsVisible raw ↔ (normalize_pty_text raw ≡ raw))
normalize_pty_text-IsVisible raw = (
  normal-IsVisible raw,
  (visible_normal raw, λ same. subst IsVisible same (normal-IsVisible raw)),
)

-- Normalizing what is normalized changes nothing.
pub normalize_pty_text_idem :
    (raw : Text) → normalize_pty_text (normalize_pty_text raw) ≡ normalize_pty_text raw
normalize_pty_text_idem raw = visible_normal (normalize_pty_text raw) (normal-IsVisible raw)

-- A control sequence whose parameters have no letter and which ends in one, behind visible text, is
-- taken out; the text stays, and what follows is normalized as if it stood alone.
pub normalize_pty_text-csi :
    (before params : Text) (final : ℕ) (after : Text)
    → IsVisible before
    → All (λ c. is_letter c ≡ false) params
    → is_letter final ≡ true
    → normalize_pty_text (before ++ (esc ∷ b'[' ∷ (params ++ (final ∷ after))))
      ≡ before ++ normalize_pty_text after
unfolding scan
normalize_pty_text-csi before params final after v p f =
    normalize_scan (before ++ (esc ∷ b'[' ∷ (params ++ (final ∷ after))))
    ∙ scan-append before (esc ∷ b'[' ∷ (params ++ (final ∷ after))) v
    ∙ ap (◌++◌ before) (scan_csi params final after p f ∙ sym (normalize_scan after))
