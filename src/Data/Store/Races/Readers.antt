-- ===== src/Data/Store/Races/Readers.antt =====
-- data/store.rs: what a process that opens the file of the store finds there.
use topdesk_mcp_rs.Data.Store.Races.{
  Content, part, whole, Phase, extracts, writes, renames, in_place, gave_up, Files, try_later,
  step_of, Directory, Event, turn_of, killed, happen, run_events,
}
use topdesk_mcp_rs.Shared.{
  ℕ, String, Bool, true, false, Option, none, some, List, [], ◌∷◌, ltb, str_eq, Option-cases,
  Bool-cases, inl, inr, ◌≡◌, refl, subst, arith, eq_iff, eq_refl,
}

-- Processes have names of their own for temporary files, none of which is the store's.
pub record AreApart {P : Type 0} (same : P → P → Bool) (tmp : P → String) (path : String)
    : Type 0 where
  pub same_process : (p q : P) → same p q ≡ true → p ≡ q
  pub own_names : (p q : P) → same p q ≡ false → str_eq (tmp p) (tmp q) ≡ false
  pub off_path : (p : P) → str_eq (tmp p) path ≡ false

module _ {Bytes : Type 0} (IsStore : Bytes → Type 0) where
  -- No file, or a file with a whole store.
  abbrev pub IsWhole : Option (Content Bytes) → Type 0
  IsWhole none = Unit {0}
  IsWhole (some part) = ⊥
  IsWhole (some (whole raw)) = IsStore raw

  -- A process has a store to write, or a temporary file that it has written.
  abbrev pub HasStore : Phase Bytes → Option (Content Bytes) → Type 0
  HasStore (extracts raw) own = IsStore raw
  HasStore (writes raw) own = IsStore raw
  HasStore (renames attempts) own = IsWhole own
  HasStore in_place own = Unit {0}
  HasStore gave_up own = Unit {0}

  HasStore-try_later :
      (attempts : ℕ) (own : Option (Content Bytes))
      → IsWhole own
      → HasStore (try_later attempts) own
  HasStore-try_later attempts own h = elim (Bool-cases (ltb attempts 5)) [
    | inl more ↦ rw (more) h
    | inr done ↦ rw (done) tt
  ]

  module _ (tmp path : String) where
    -- The step of a process keeps the store whole, and the process in possession of one.
    step_of-IsWhole :
        (refused : Bool) (phase : Phase Bytes) (files : Files Bytes)
        → str_eq tmp path ≡ false
        → IsWhole (files path)
        → HasStore phase (files tmp)
        → let (now, after) = step_of tmp path refused phase files in
          IsWhole (after path) × HasStore now (after tmp)
    unfolding step_of
    step_of-IsWhole refused (extracts raw) files off h own = rw off (h, own)
    step_of-IsWhole refused (writes raw) files off h own = rw (off, eq_refl tmp) (h, own)
    step_of-IsWhole true (renames attempts) files off h own =
        (h, HasStore-try_later attempts (files tmp) own)
    step_of-IsWhole false (renames attempts) files off h own = elim (Option-cases (files tmp)) [
      | inl missing ↦ rw (missing, step_of) (h, HasStore-try_later attempts (files tmp) own)
      | inr (content, there) ↦ rw (there, step_of, off, eq_refl path) (subst IsWhole there own, tt)
    ]
    step_of-IsWhole refused in_place files off h own = (h, tt)
    step_of-IsWhole refused gave_up files off h own = (h, tt)

    -- It leaves every other file alone.
    step_of-elsewhere :
        (refused : Bool) (phase : Phase Bytes) (files : Files Bytes) (other : String)
        → str_eq tmp other ≡ false
        → str_eq path other ≡ false
        → (step_of tmp path refused phase files).1 other ≡ files other
    unfolding step_of
    step_of-elsewhere refused (extracts raw) files other off off' = rw off refl
    step_of-elsewhere refused (writes raw) files other off off' = rw off refl
    step_of-elsewhere true (renames attempts) files other off off' = refl
    step_of-elsewhere false (renames attempts) files other off off' =
        elim (Option-cases (files tmp)) [
          | inl missing ↦ rw (missing, step_of) refl
          | inr (content, there) ↦ rw (there, step_of, off, off') refl
        ]
    step_of-elsewhere refused in_place files other off off' = refl
    step_of-elsewhere refused gave_up files other off off' = refl

  module _ {P : Type 0} (same : P → P → Bool) (tmp : P → String) (path : String) where
    -- The file of the store is whole, and every process has a store or has done with it.
    pub record IsSafe (s : Directory Bytes P) : Type 0 where
      pub of_path : IsWhole (s.files path)
      pub of_process : (p : P) → HasStore (s.phase p) (s.files (tmp p))

    path_off : AreApart same tmp path → (p : P) → str_eq path (tmp p) ≡ false
    path_off apart p = ground (arith, eq_iff path (tmp p), eq_iff (tmp p) path, apart.off_path p)

    happen-IsSafe :
        AreApart same tmp path
        → (event : Event P) (s : Directory Bytes P) → IsSafe s
        → IsSafe (happen same tmp path event s)
    unfolding happen
    happen-IsSafe apart (killed p) s h = record {
      of_path = h.of_path;
      of_process = λ q. elim (Bool-cases (same p q)) [
        | inl this ↦ rw this tt
        | inr other ↦ rw other (h.of_process q)
      ];
    }
    happen-IsSafe apart (turn_of p refused) s h =
        let (kept, own) =
          step_of-IsWhole (tmp p) path refused (s.phase p) s.files (apart.off_path p) h.of_path
            (h.of_process p) in
        record {
          of_path = kept;
          of_process = λ q. elim (Bool-cases (same p q)) [
            | inl this ↦ rw this (
                subst
                  (λ r.
                    HasStore (step_of (tmp p) path refused (s.phase p) s.files).0
                      ((step_of (tmp p) path refused (s.phase p) s.files).1 (tmp r)))
                  (apart.same_process p q this) own)
            | inr other ↦
                rw
                  (
                    other,
                    step_of-elsewhere (tmp p) path refused (s.phase p) s.files (tmp q)
                        (apart.own_names p q other) (path_off apart q),
                  )
                  (h.of_process q)
          ];
        }

    -- Where processes have names of their own for temporary files: if the file of the store is
    -- absent or whole, what each process is to write is a whole store, and what it is to rename is
    -- absent or whole, then this stays so in any order of their steps, whatever renames are
    -- refused and whichever processes are killed when. A reader never finds a part of a store.
    pub run_events-IsSafe :
        AreApart same tmp path
        → (events : List (Event P)) (s : Directory Bytes P) → IsSafe s
        → IsSafe (run_events same tmp path events s)
    unfolding run_events
    run_events-IsSafe apart [] s h = h
    run_events-IsSafe apart (event ∷ events) s h =
        run_events-IsSafe apart events (happen same tmp path event s)
          (happen-IsSafe apart event s h)
