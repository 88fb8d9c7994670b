-- ===== src/Protocol/Safe.antt =====
-- When the program of a jail is executed.
use eval_python.Prelude.{ℕ, ◌≡◌, arith, Bool, true, false, ◌⊎◌, inl, inr}
use eval_python.Protocol.{
  ParentAt, awaiting_status, got_status, executing, is_released, State, Reach,
}
use eval_python.Protocol.Invariant.{Inv}
use eval_python.Protocol.Kept.{Reach-Inv}

-- The parent has set up the cgroup and has sent the response.
abbrev pub HasResponded : ParentAt → Type 0
HasResponded parent = (parent ≡ awaiting_status) ⊎ (parent ≡ got_status)

module _ (sandboxed : Bool) where
  released-HasResponded :
      {s : State} → Inv sandboxed s → is_released s.init ≡ true → HasResponded s.parent
  released-HasResponded v r = ground arith

  -- Whatever the processes do, and whichever of them fail or are killed: while the program is executed,
  -- the parent has set up the cgroup and has sent the response, and the init process has read it and
  -- has released the jailed process; or the init process has ended, and has released it by that.
  pub executing-HasResponded :
      {n : ℕ} {s : State}
      → Reach sandboxed n s
      → s.jailed ≡ executing
      → (HasResponded s.parent × (is_released s.init ≡ true)) ⊎ (s.running ≡ false)
  executing-HasResponded {s} r e = elim (v.held e) [
    | inl released ↦ inl (released-HasResponded v released, released)
    | inr stopped ↦ inr stopped
  ]
    where
      v : Inv sandboxed s
      v = Reach-Inv sandboxed r
