-- ===== src/Brewing/Chain/Start.antt =====
-- What confirms the start of a brew: the polls of `_async_verify_brew_started`.
use hacs_xbloom.Prelude.{
  Option, List, some, All, ℕ, ◌∷◌, ◌≡◌, ap, arith, false, true, ◌++◌, Bool-cases, [], ◌↔◌, inl,
  none, refl, inr,
}
use hacs_xbloom.Brewing.Link.{Outcome, Line, done, failed, Sent}
use hacs_xbloom.Ble.Client.{StateLabel}
use hacs_xbloom.Brewing.Chain.{poll_start, verify_brew_started, is_started, is_refused}

-- A label that says neither that the brew runs nor that it was refused.
abbrev pub IsUndecided : Option StateLabel → Type 0
IsUndecided none = Unit
IsUndecided (some label) = (is_started label ≡ false) × (is_refused label ≡ false)

-- The polls reach a label that decides, and it says that the brew runs.
pub record HasStart (label : StateLabel) (polls : List (Option StateLabel)) : Type 0 where
  pub before : List (Option StateLabel)
  pub after : List (Option StateLabel)
  pub splits : polls ≡ before ++ some label ∷ after
  pub undecided : All IsUndecided before
  pub starts : is_started label ≡ true

poll_start-undecided :
    (last : Option StateLabel) (before polls : List (Option StateLabel)) (label : StateLabel)
    → All IsUndecided before
    → is_started label ≡ true
    → poll_start last (before ++ some label ∷ polls) ≡ done label
unfolding poll_start
poll_start-undecided last [] polls label h starts = rw starts refl
poll_start-undecided last (none ∷ before) polls label (h, hs) starts =
    poll_start-undecided none before polls label hs starts
poll_start-undecided last (some l ∷ before) polls label ((idle, fine), hs) starts =
    rw (idle, fine) (poll_start-undecided (some l) before polls label hs starts)

HasStart-cons :
    (seen : Option StateLabel) (label : StateLabel) (polls : List (Option StateLabel))
    → IsUndecided seen
    → HasStart label polls
    → HasStart label (seen ∷ polls)
HasStart-cons seen label polls h found = record {
  before = seen ∷ found.before;
  after = found.after;
  splits = ap (λ ls. seen ∷ ls) found.splits;
  undecided = (h, found.undecided);
  starts = found.starts;
}

done_label : Outcome StateLabel → StateLabel
done_label (done label) = label
done_label (failed f) = StateLabel.ready

done-injective : (l m : StateLabel) → done l ≡ done m → l ≡ m
unfolding done_label
done-injective l m e = ap done_label e

poll_start-HasStart :
    (last : Option StateLabel) (polls : List (Option StateLabel)) (label : StateLabel)
    → poll_start last polls ≡ done label
    → HasStart label polls
unfolding poll_start
poll_start-HasStart last [] label e = absurd (ground arith)
poll_start-HasStart last (none ∷ polls) label e =
    HasStart-cons none label polls tt (poll_start-HasStart none polls label e)
poll_start-HasStart last (some l ∷ polls) label e = elim (Bool-cases (is_started l)) [
  | inl starts ↦
      let same : l ≡ label = done-injective l label (rw starts at e) in
      rw (← same)
        (record { before = []; after = polls; splits = refl; undecided = tt; starts = starts })
  | inr idle ↦ elim (Bool-cases (is_refused l)) [
    | inl refuses ↦ absurd (ground arith)
    | inr fine ↦
        HasStart-cons (some l) label polls (idle, fine)
          (poll_start-HasStart (some l) polls label (rw (idle, fine) at e))
  ]
]

-- The start is confirmed exactly when the polls before the deadline show that the brew runs, and
-- none before it shows a refusal; the label returned is the one that shows it.
pub verify_brew_started_iff :
    (line : Line) (f32 : ℕ → ℕ) (s : Sent) (label : StateLabel)
    → ((verify_brew_started line f32 s).0 ≡ done label) ↔ HasStart label line.polls
unfolding verify_brew_started
verify_brew_started_iff line f32 s label = (
  poll_start-HasStart none line.polls label,
  λ h. rw h.splits (poll_start-undecided none h.before h.after label h.undecided h.starts),
)
