-- ===== src/Init/Inherited.antt =====
-- The descriptors that `run` of src/jail/child_init.rs closes.
use eval_python.Prelude.{
  ℕ, ◌-◌, ◌^◌, ◌==◌, ◌<◌, ◌≤◌, ◌≡◌, ap, ◌∙◌, arith, ltb, leb, Bool, false, ◌&&◌, ◌||◌, Bool-cases,
  some, List, [], ◌∷◌, if◌then◌else◌, inl, inr, ok, format, display,
}
use eval_python.Prelude.Traced.{>>=-eq-ok}
use eval_python.Sys.Files.{last_or_all}
use eval_python.Init.Affinity.{CpuSets}
use eval_python.Init.Start.{InitCall, range_closed, InitKernel, close_one_range, close_ranges}

-- which descriptors are open after the calls that close ranges, all of which succeed
abbrev pub open_after : {cpus : CpuSets} → List (InitCall cpus) → (ℕ → Bool) → ℕ → Bool
open_after [] t n = t n
open_after (range_closed first last ∷ calls) t n =
    open_after calls (λ i. if leb first i && leb i (last_or_all last) then false else t i) n
open_after (other ∷ calls) t n = open_after calls t n

-- A descriptor is a standard stream, the socket, or 3 just below the socket.
abbrev pub spared : ℕ → ℕ → Bool
spared socket n = ltb n 3 || (n == socket || (socket == 4 && n == 3))

module _ (cpus : CpuSets) (kernel : InitKernel cpus) where
  -- After the ranges are closed, a descriptor is open if it was and if it is a standard stream, the
  -- socket to the parent, or descriptor 3 where the socket is 4; every other one is closed. The socket
  -- is no standard stream, and descriptors are below 2^31.
  pub close_ranges-spared :
      (t : ℕ → Bool) (n : ℕ)
      → 3 ≤ kernel.socket
      → kernel.socket < 2 ^ 31
      → n < 2 ^ 31
      → (close_ranges cpus kernel).1 ≡ ok tt
      → open_after (close_ranges cpus kernel).0 t n
        ≡ (if spared kernel.socket n then t n else false)
  unfolding close_ranges close_one_range
  close_ranges-spared t n above small fd h = elim (Bool-cases (ltb 3 (kernel.socket - 1))) [
    | inl gap ↦
        let before = kernel.socket - 1 in
        let (_, _, _, trace) =
          >>=-eq-ok
            (close_one_range cpus kernel (format ("close_range(3, " ∷ display before ∷ ")" ∷ [])) 3
              (some before))
            _ (rw gap at h) in
        rw gap (ap (λ calls. open_after calls t n) trace ∙ ground arith)
    | inr none_between ↦ rw none_between (ground arith)
  ]
