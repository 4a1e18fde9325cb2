-- ===== src/Base/Loops.antt =====
-- Counted loops, and the rule for what every round keeps.
use Prim.Native.Nat.{ℕ, zero, suc, ◌+◌}

module _ {ℓ} {S : Type ℓ} (body : ℕ → S → S) where
  -- The rounds of `for (k = first; k < first + rounds; k++)`, over the state that the body updates.
  unfoldable pub count_up : ℕ → ℕ → S → S
  count_up first zero state = state
  count_up first (suc rounds) state = count_up (first + 1) rounds (body first state)

  pub count_up_keeps {κ} :
      (Keeps : S → Type κ)
      → ((k : ℕ) (state : S) → Keeps state → Keeps (body k state))
      → (first rounds : ℕ) (state : S) → Keeps state
      → Keeps (count_up first rounds state)
  unfolding count_up
  count_up_keeps Keeps each first zero state now = now
  count_up_keeps Keeps each first (suc rounds) state now =
      count_up_keeps Keeps each (first + 1) rounds (body first state) (each first state now)
