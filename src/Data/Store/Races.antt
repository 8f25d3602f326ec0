-- ===== src/Data/Store/Races.antt =====
-- data/store.rs: processes that extract one store into the shared directory at once, a step of the file
-- system at a time. `std::fs::write` is two steps, between which the file is not whole; a rename is
-- one, and may be refused while another process has the file open. The pause
-- between two attempts is no step of its own.
pub mod Readers
pub mod Progress
use topdesk_mcp_rs.Shared.{
  ℕ, ◌+◌, String, Bool, true, false, Option, none, some, List, [], ◌∷◌, ltb, str_eq, if◌then◌else◌,
}

-- What a file holds: a part of a store, or a whole one.
pub data Content (Bytes : Type 0) : Type 0 where
  part : Content Bytes
  whole : Bytes → Content Bytes

-- Where a process stands, with its decompressed bytes while it needs them.
pub data Phase (Bytes : Type 0) : Type 0 where
  extracts writes : Bytes → Phase Bytes
  -- The attempts to rename so far.
  renames : ℕ → Phase Bytes
  in_place gave_up : Phase Bytes

abbrev pub Files : Type 0 → Type 0
Files Bytes = String → Option (Content Bytes)

module _ {Bytes : Type 0} where
  abbrev pub put : String → Option (Content Bytes) → Files Bytes → Files Bytes
  put name content files = λ other. if str_eq name other then content else files other

  -- A rename that was not done: another attempt, five at most.
  abbrev pub try_later : ℕ → Phase Bytes
  try_later attempts = if ltb attempts 5 then renames (attempts + 1) else gave_up

  -- The next step of a process with this temporary file; `refused` is the system's word on a rename.
  unfoldable pub step_of :
      String → String → Bool → Phase Bytes → Files Bytes → Phase Bytes × Files Bytes
  step_of tmp path refused (extracts raw) files = (writes raw, put tmp (some part) files)
  step_of tmp path refused (writes raw) files = (renames 0, put tmp (some (whole raw)) files)
  step_of tmp path true (renames attempts) files = (try_later attempts, files)
  step_of tmp path false (renames attempts) files = elim (files tmp) [
    | none ↦ (try_later attempts, files)
    | some content ↦ (in_place, put tmp none (put path (some content) files))
  ]
  step_of tmp path refused in_place files = (in_place, files)
  step_of tmp path refused gave_up files = (gave_up, files)

pub record Directory (Bytes P : Type 0) : Type 0 where
  pub files : Files Bytes
  pub phase : P → Phase Bytes

-- One process moves, with the system's word on a rename, or ends and leaves its files.
pub data Event (P : Type 0) : Type 0 where
  turn_of : P → (refused : Bool) → Event P
  killed : P → Event P

-- The processes, told apart by `same`, their temporary files, and the file of the store.
module _ {Bytes P : Type 0} (same : P → P → Bool) (tmp : P → String) (path : String) where
  abbrev pub set_phase : P → Phase Bytes → (P → Phase Bytes) → P → Phase Bytes
  set_phase p now phase = λ q. if same p q then now else phase q

  unfoldable pub happen : Event P → Directory Bytes P → Directory Bytes P
  unfolding step_of
  happen (turn_of p refused) s =
      let (now, files) = step_of (tmp p) path refused (s.phase p) s.files in
      record { files = files; phase = set_phase p now s.phase }
  happen (killed p) s = record s { phase = set_phase p gave_up s.phase }

  unfoldable pub run_events : List (Event P) → Directory Bytes P → Directory Bytes P
  unfolding happen
  run_events [] s = s
  run_events (event ∷ events) s = run_events events (happen event s)
