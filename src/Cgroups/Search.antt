-- ===== src/Cgroups/Search.antt =====
-- Which directory src/jail/cgroups.rs makes, and after how many rounds.
use eval_python.Prelude.{
  ℕ, ◌≡◌, refl, sym, ap, ◌∙◌, Bool, String, List, [], ◌∷◌, ◌++◌, All, ok, ok-injective, bail,
  format, str_eq, ◌⊎◌, inl, inr,
}
use eval_python.Prelude.Traced.{Traced, >>=-eq-ok}
use eval_python.Cgroups.{
  CGroup, CgroupCall, create_dir, Created, made, taken, refused, CgroupKernel, candidate,
  cgroup_root, draws, after_create, search, create_root, new_cgroup,
}

module _ (kernel : CgroupKernel) where
  -- The directory of this number is there already.
  abbrev pub IsTaken : String → ℕ → Type 0
  IsTaken root draw = kernel.created (candidate root draw) ≡ taken

  -- one attempt for each number
  abbrev pub attempts : String → List ℕ → List CgroupCall
  attempts root [] = []
  attempts root (draw ∷ rest) = create_dir (candidate root draw) ∷ attempts root rest

  -- No number is left, and every directory was there.
  abbrev pub IsExhausted : String → List ℕ → Traced CgroupCall CGroup → Type 0
  IsExhausted root numbers m =
      All (IsTaken root) numbers
      × (m ≡ (
        attempts root numbers,
        bail (
            format ("could not create a cgroup in " ∷ kernel.debug root ∷ " after 16 rounds" ∷ [])),
      ))

  -- After numbers whose directories were there, one ends the search: its directory is made and it is
  -- the cgroup, or another error is the error of the search.
  abbrev pub IsEnded : String → Bool → List ℕ → Traced CgroupCall CGroup → Type 0
  IsEnded root v2 numbers m =
      (before : List ℕ) × (draw : ℕ) × (rest : List ℕ) × (numbers ≡ before ++ draw ∷ rest)
      × All (IsTaken root) before
      × (m.0 ≡ attempts root (before ++ draw ∷ []))
      × (((kernel.created (candidate root draw) ≡ made)
            × (m.1 ≡ ok (record { path = candidate root draw; v2 = v2 })))
          ⊎ ((text : String) × (kernel.created (candidate root draw) ≡ refused text)
              × (m.1
                  ≡ bail (
                      format
                        ("create_dir(" ∷ kernel.debug (candidate root draw) ∷ "): " ∷ text ∷ [])))))

  after_reply :
      (root : String) (v2 : Bool) (draw : ℕ) (rest : List ℕ) (reply : Created)
      → kernel.created (candidate root draw) ≡ reply
      → search kernel root v2 (draw ∷ rest) ≡ (
        create_dir (candidate root draw)
            ∷ (after_create kernel (candidate root draw) v2 (search kernel root v2 rest) reply).0,
        (after_create kernel (candidate root draw) v2 (search kernel root v2 rest) reply).1,
      )
  unfolding search
  after_reply root v2 draw rest reply e = rw e

  round_lem :
      (root : String) (v2 : Bool) (draw : ℕ) (rest : List ℕ) (reply : Created)
      → kernel.created (candidate root draw) ≡ reply
      → IsExhausted root rest (search kernel root v2 rest)
        ⊎ IsEnded root v2 rest (search kernel root v2 rest)
      → IsExhausted root (draw ∷ rest) (search kernel root v2 (draw ∷ rest))
        ⊎ IsEnded root v2 (draw ∷ rest) (search kernel root v2 (draw ∷ rest))
  unfolding after_create
  round_lem root v2 draw rest made e others =
      let unrolled = after_reply root v2 draw rest made e in
      inr ([], draw, rest, refl, tt, ap (λ m. m.0) unrolled, inl (e, ap (λ m. m.1) unrolled))
  round_lem root v2 draw rest (refused text) e others =
      let unrolled = after_reply root v2 draw rest (refused text) e in
      inr ([], draw, rest, refl, tt, ap (λ m. m.0) unrolled, inr (text, e, ap (λ m. m.1) unrolled))
  round_lem root v2 draw rest taken e (inl (all_taken, ends)) =
      let unrolled = after_reply root v2 draw rest taken e in
      inl ((e, all_taken), unrolled ∙ ap (λ m. (create_dir (candidate root draw) ∷ m.0, m.1)) ends)
  round_lem root v2 draw rest taken e (inr (before, last, after, split, all_taken, calls, end)) =
      let unrolled = after_reply root v2 draw rest taken e in
      let result = ap (λ m. m.1) unrolled in
      inr (
        draw ∷ before,
        last,
        after,
        ap (◌∷◌ draw) split,
        (e, all_taken),
        ap (λ m. m.0) unrolled ∙ ap (◌∷◌ (create_dir (candidate root draw))) calls,
        elim end [
          | inl (is_made, path) ↦ inl (is_made, result ∙ path)
          | inr (text, is_refused, error) ↦ inr (text, is_refused, result ∙ error)
        ],
      )

  -- The search for a cgroup: it tries one directory after the other, goes on only where a directory was
  -- there already, and ends with the first that it makes, with the first other error, or, when there is
  -- no number left, with an error.
  pub search-cases :
      (root : String) (v2 : Bool) (numbers : List ℕ)
      → IsExhausted root numbers (search kernel root v2 numbers)
        ⊎ IsEnded root v2 numbers (search kernel root v2 numbers)
  search-cases root v2 [] = inl (tt, unfold search in refl)
  search-cases root v2 (draw ∷ rest) =
      round_lem root v2 draw rest (kernel.created (candidate root draw)) refl
        (search-cases root v2 rest)

  made_lem :
      (root : String) (v2 : Bool) (numbers : List ℕ) (cgroup : CGroup)
      → (search kernel root v2 numbers).1 ≡ ok cgroup
      → (draw : ℕ) × (cgroup ≡ record { path = candidate root draw; v2 = v2 })
        × (kernel.created (candidate root draw) ≡ made)
  made_lem root v2 numbers cgroup h = elim (search-cases root v2 numbers) [
    | inl (_, ends) ↦ let h' = sym (ap (λ m. m.1) ends) ∙ h in cc
    | inr (_, draw, _, _, _, _, inl (is_made, path)) ↦ (draw, ok-injective (sym h ∙ path), is_made)
    | inr (_, draw, _, _, _, _, inr (_, _, error)) ↦ let h' = sym error ∙ h in cc
  ]

  -- A cgroup that `CGroup::new` returns is a directory in the root of its subsystem that it has
  -- made itself and that was not there before; it is of version 2 just if its subsystem has no name.
  pub new_cgroup-made :
      (subsystem cgroup_path : String) (cgroup : CGroup)
      → (new_cgroup kernel subsystem cgroup_path).1 ≡ ok cgroup
      → (draw : ℕ) × (cgroup ≡ record {
        path = candidate (cgroup_root subsystem cgroup_path) draw;
        v2 = str_eq subsystem "";
      })
        × (kernel.created (candidate (cgroup_root subsystem cgroup_path) draw) ≡ made)
  unfolding new_cgroup
  new_cgroup-made subsystem cgroup_path cgroup h =
      let root = cgroup_root subsystem cgroup_path in
      let v2 = str_eq subsystem "" in
      let (_, _, found, _) =
        >>=-eq-ok (create_root kernel root v2)
          (λ _. search kernel root v2 (draws kernel.drawn 16 0)) h in
      let (draw, same, is_made) = made_lem root v2 (draws kernel.drawn 16 0) cgroup found in
      (draw, same, is_made)
