-- ===== src/Contract/State/Lifecycle.antt =====
-- Runs of `PipelineState` by `can_transition`, backend/src/schemas/scan_contract.rs.
use mathlib.Core.Path.{subst}
use mathlib.Core.Bool.{true≢false}
use fire_crow.Prelude.{
  ℕ, suc, ◌+◌, ◌≤◌, ◌≡◌, refl, sym, ap, ◌∙◌, ◌⊎◌, inl, inr, Bool, true, false, arith,
}
use fire_crow.Contract.State.{
  PipelineState, queued, fetching, scanning, normalizing, reporting, delivering, completed,
  is_terminal, can_transition,
}

-- A run of so many legal steps from one state to another.
pub data Leads : PipelineState → PipelineState → ℕ → Type 0 where
  here : {s : PipelineState} → Leads s s 0
  ahead :
      {s t u : PipelineState} {n : ℕ} → can_transition s t ≡ true → Leads t u n → Leads s u (suc n)

-- The steps that are left at most, and the steps that are left to completion.
abbrev left : PipelineState → ℕ
left queued = 6
left fetching = 5
left scanning = 4
left normalizing = 3
left reporting = 2
left delivering = 1
left _ = 0

left_after : (s t : PipelineState) → can_transition s t ≡ true → suc (left t) ≤ left s
unfolding can_transition is_terminal
left_after s t h = ground arith

Leads-left : {s t : PipelineState} {n : ℕ} → Leads s t n → n + left t ≤ left s
Leads-left here = omega arith
Leads-left (ahead {s} {t} {u} {n} h rest) = omega (arith, left_after s t h, Leads-left rest)

abbrev is_done : PipelineState → Bool
is_done completed = true
is_done _ = false

nearer_or_stuck :
    (s t : PipelineState)
    → can_transition s t ≡ true
    → (left s ≤ suc (left t)) ⊎ ((is_terminal t ≡ true) × (is_done t ≡ false))
unfolding can_transition is_terminal
nearer_or_stuck s t h = ground arith

Leads-stuck : {s t : PipelineState} {n : ℕ} → Leads s t n → is_terminal s ≡ true → s ≡ t
unfolding can_transition
Leads-stuck here h = refl
Leads-stuck (ahead g rest) h = absurd (ground arith)

left-Leads : {s : PipelineState} {n : ℕ} → Leads s completed n → left s ≤ n
left-Leads here = omega arith
left-Leads (ahead {s} {t} {u} {n} h rest) = elim (nearer_or_stuck s t h) [
  | inl near ↦ omega (arith, near, left-Leads rest)
  | inr (stuck, other) ↦ absurd (true≢false (sym (ap is_done (Leads-stuck rest stuck)) ∙ other))
]

-- Every run of the pipeline from `queued` ends: it makes six steps at most, and it makes exactly
-- six where it reaches `completed`, so that no phase is skipped.
pub lifecycle-bounded :
    (t : PipelineState) (n : ℕ) → Leads queued t n → (n ≤ 6) × (t ≡ completed → n ≡ 6)
lifecycle-bounded t n run = (
  omega (arith, Leads-left run),
  λ e. omega (arith, Leads-left run, left-Leads (subst (λ u. Leads queued u n) e run)),
)
