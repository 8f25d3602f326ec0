-- ===== src/Data/Store/Races/Progress.antt =====
-- data/store.rs: a process that extracts a store while the others wait.
use topdesk_mcp_rs.Data.Store.Races.{
  Content, part, whole, Phase, extracts, writes, renames, Files, put, step_of, Directory, Event,
  turn_of, set_phase, happen, run_events,
}
use topdesk_mcp_rs.Shared.{
  ℕ, zero, suc, ◌+◌, ◌≤◌, String, Bool, true, false, some, List, [], ◌∷◌, str_eq, ◌≡◌, refl, ap,
  ◌∙◌, arith, eq_refl,
}

-- So many renames that are refused, and one that is not.
abbrev pub attempts : {P : Type 0} → ℕ → P → List (Event P)
attempts zero p = turn_of p false ∷ []
attempts (suc n) p = turn_of p true ∷ attempts n p

module _ {Bytes P : Type 0} (same : P → P → Bool) (tmp : P → String) (path : String) where
  -- The directory after a step of a process.
  abbrev after : P → (P → Phase Bytes) → Phase Bytes × Files Bytes → Directory Bytes P
  after p phase (now, files) = record { files = files; phase = set_phase same tmp path p now phase }

  happen-turn :
      (p : P) (refused : Bool) (files : Files Bytes) (phase : P → Phase Bytes) (at : Phase Bytes)
      → phase p ≡ at
      → happen same tmp path (turn_of p refused) (record { files = files; phase = phase })
        ≡ after p phase (step_of (tmp p) path refused at files)
  unfolding happen
  happen-turn p refused files phase at e =
      ap (λ now. after p phase (step_of (tmp p) path refused now files)) e

  step_of-refused :
      (p : P) (k n : ℕ) (files : Files Bytes)
      → k + suc n ≤ 5
      → step_of (tmp p) path true (renames k) files ≡ (renames (suc k), files)
  unfolding step_of
  step_of-refused p k n files fits = ground arith

  files-attempts :
      (p : P) (content : Content Bytes)
      → same p p ≡ true
      → str_eq (tmp p) path ≡ false
      → (n k : ℕ) (files : Files Bytes) (phase : P → Phase Bytes) → k + n ≤ 5
      → phase p ≡ renames k
      → files (tmp p) ≡ some content
      → (run_events same tmp path (attempts n p) (record { files = files; phase = phase })).files
          path
        ≡ some content
  unfolding run_events happen step_of
  files-attempts p content own off zero k files phase fits e there =
      rw (e, step_of, there, off, eq_refl path) refl
  files-attempts p content own off (suc n) k files phase fits e there =
      ap (λ s. (run_events same tmp path (attempts n p) s).files path)
        (happen-turn p true files phase (renames k) e
          ∙ ap (after p phase) (step_of-refused p k n files fits))
      ∙ files-attempts p content own off n (suc k) files
          (set_phase same tmp path p (renames (suc k)) phase) (omega arith) (rw own refl) there

  -- A process that begins to extract a store, whose rename is refused five times at most and which
  -- is not disturbed, puts the store in place: its file holds that store, whole.
  pub files-run_events :
      (p : P) (raw : Bytes) (n : ℕ) (files : Files Bytes) (phase : P → Phase Bytes)
      → same p p ≡ true
      → str_eq (tmp p) path ≡ false
      → n ≤ 5
      → phase p ≡ extracts raw
      → (run_events same tmp path
            (turn_of p false ∷ turn_of p false ∷ attempts n p)
            (record { files = files; phase = phase })).files
          path
        ≡ some (whole raw)
  unfolding run_events
  files-run_events p raw n files phase own off fits e =
      let f₁ = put (tmp p) (some part) files in
      let phase₁ = set_phase same tmp path p (writes raw) phase in
      let f₂ = put (tmp p) (some (whole raw)) f₁ in
      let phase₂ = set_phase same tmp path p (renames 0) phase₁ in
      let e₁ : phase₁ p ≡ writes raw = rw own refl in
      let first = happen-turn p false files phase (extracts raw) e in
      let second = happen-turn p false f₁ phase₁ (writes raw) e₁ in
      ap (λ s. (run_events same tmp path (turn_of p false ∷ attempts n p) s).files path) first
      ∙ ap (λ s. (run_events same tmp path (attempts n p) s).files path) second
      ∙ files-attempts p (whole raw) own off n 0 f₂ phase₂ (omega arith) (rw own refl)
          (rw (eq_refl (tmp p)) refl)
