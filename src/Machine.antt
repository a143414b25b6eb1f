-- ===== src/Machine.antt =====
-- Loops of the form `while True: ...` over a state, as a step function run on fuel, and what it
-- takes to get from one state to another.
use django_graphex.Common.{
  ℕ, zero, suc, ◌+◌, ◌≤◌, ◌≡◌, refl, sym, ◌∙◌, ◌⊎◌, inl, inr, Option, none, some, arith,
}

-- A step goes on with a new state, or ends the loop with a result.
pub data Next {ℓ} (S R : Type ℓ) : Type ℓ where
  going : S → Next S R
  done : R → Next S R

Next-cases {ℓ} :
    {S R : Type ℓ} (n : Next S R) → ((v : R) × (n ≡ done v)) ⊎ ((w : S) × (n ≡ going w))
Next-cases (done v) = inl (v, refl)
Next-cases (going w) = inr (w, refl)

module _ {ℓ} {S R : Type ℓ} (step : S → Next S R) where
  -- None means that the fuel ran out.
  unfoldable pub run : ℕ → S → Option R
  run zero w = none
  run (suc fuel) w = elim (step w) [ done v ↦ some v | going w' ↦ run fuel w' ]

  -- From `w` the loop gets to `w'` in at most `n` steps: whatever `w'` returns, `w` returns with
  -- that much more fuel.
  abbrev pub Leads : ℕ → S → S → Type ℓ
  Leads n w w' = (k : ℕ) (v : R) (m : ℕ) → run k w' ≡ some v → n + k ≤ m → run m w ≡ some v

  -- From `w` the loop returns `v` in at most `n` steps.
  abbrev pub Ends : ℕ → S → R → Type ℓ
  Ends n w v = (m : ℕ) → n ≤ m → run m w ≡ some v

  pub run-done : (k : ℕ) (v : R) (w : S) → step w ≡ done v → run (suc k) w ≡ some v
  unfolding run
  run-done k v w e = rw (e, run)

  run-going : (k : ℕ) (w w' : S) → step w ≡ going w' → run (suc k) w ≡ run k w'
  unfolding run
  run-going k w w' e = rw (e, run)

  run_mono : (k : ℕ) (v : R) (m : ℕ) (w : S) → run k w ≡ some v → k ≤ m → run m w ≡ some v
  run_mono zero v m w h le = unfold run in cc h
  run_mono (suc k) v zero w h le = elim le [ ]
  run_mono (suc k) v (suc m) w h le = elim (Next-cases (step w)) [
    | inl (t, e) ↦ run-done m t w e ∙ sym (run-done k t w e) ∙ h
    | inr (w', e) ↦
        run-going m w w' e ∙ run_mono k v m w' (sym (run-going k w w' e) ∙ h) (omega arith)
  ]

  pub Leads-refl : (w : S) → Leads 0 w w
  Leads-refl w k v m h le = run_mono k v m w h (omega arith)

  pub Leads-trans :
      (n n' : ℕ) (w w' w'' : S) → Leads n w w' → Leads n' w' w'' → Leads (n + n') w w''
  Leads-trans n n' w w' w'' f g k v m h le =
      f (n' + k) v m (g k v (n' + k) h (omega arith)) (omega arith)

  Leads-step : (n : ℕ) (w w' w'' : S) → step w ≡ going w' → Leads n w' w'' → Leads (suc n) w w''
  Leads-step n w w' w'' e f k v zero h le = absurd (omega arith)
  Leads-step n w w' w'' e f k v (suc m) h le = run-going m w w' e ∙ f k v m h (omega arith)

  pub Leads-jump : (n : ℕ) (w w' w'' : S) → 1 ≤ n → step w ≡ going w' → w' ≡ w'' → Leads n w w''
  Leads-jump n w w' w'' pos e p k v m h le =
      Leads-step 0 w w' w' e (Leads-refl w') k v m (rw (← p) at h) (omega arith)

  -- A step in, `n` steps inside, a step out.
  pub Leads-level :
      (n : ℕ) (w w₁ w₂ w₃ w' : S)
      → step w ≡ going w₁
      → Leads n w₁ w₂
      → step w₂ ≡ going w₃
      → w₃ ≡ w'
      → Leads (2 + n) w w'
  Leads-level n w w₁ w₂ w₃ w' into inner out e k v m h le =
      Leads-step (n + 1) w w₁ w' into
        (Leads-trans n 1 w₁ w₂ w' inner (Leads-jump 1 w₂ w₃ w' (omega arith) out e)) k v m h
        (omega arith)

  pub Ends-done : (n : ℕ) (w : S) (v : R) → 1 ≤ n → step w ≡ done v → Ends n w v
  Ends-done n w v pos e zero le = absurd (omega arith)
  Ends-done n w v pos e (suc m) le = run-done m v w e

  pub Ends-step : (n : ℕ) (w w' : S) (v : R) → step w ≡ going w' → Ends n w' v → Ends (suc n) w v
  Ends-step n w w' v e f zero le = absurd (omega arith)
  Ends-step n w w' v e f (suc m) le = run-going m w w' e ∙ f m (omega arith)

  pub Ends-le : (n k : ℕ) (w : S) (v : R) → n ≤ k → Ends n w v → Ends k w v
  Ends-le n k w v le f m le' = f m (omega arith)

  pub Ends-trans : (n k : ℕ) (w w' : S) (v : R) → Leads n w w' → Ends k w' v → Ends (n + k) w v
  Ends-trans n k w w' v f g m le = f k v m (g k (omega arith)) le
