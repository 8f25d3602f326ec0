-- ===== src/Bin/PopulateEmbeddings/Runs.antt =====
-- bin/populate_embeddings.rs: a whole run of the program, and its check for missing embeddings.
use topdesk_mcp_rs.Bin.PopulateEmbeddings.{
  EndpointRow, PopulateCrate, populate_one, missing_operation_ids, report_missing, populate_each,
  targets, main,
}
use topdesk_mcp_rs.Bin.PopulateEmbeddings.Rows.{
  Table, Unchanged, IsDatabase, missing_of, expected-is_some, missing_of-none, populate_one-Indexed,
}
use topdesk_mcp_rs.Core.Errors.{AnyError}
use topdesk_mcp_rs.Shared.{
  ℕ, String, Bool, true, false, List, [], ◌∷◌, Result, ok, err, All-map, ◌≡◌, refl, ap, sym, ◌∙◌,
  subst,
}
use topdesk_mcp_rs.Shared.Actions.{>>=-ok, >>=-err, >>=-eq-ok}
use topdesk_mcp_rs.Shared.Dict
use topdesk_mcp_rs.Shared.Dict.{is_some_before}

module _ {W : Type 0} (c : PopulateCrate W) (path_of : c.Conn → String)
    (endpoints : String → W → List EndpointRow) (embeddings : String → W → Table)
    (db : IsDatabase c path_of endpoints embeddings) where
  -- If SQLite does what its statements say: a store that was populated has no endpoint without an
  -- embedding, so the query for them, made when the tables are as they were left, finds none.
  pub missing_operation_ids-populate_one :
      (path : String) (w w₁ w₂ w₃ : W) (count : ℕ) (ids : List String)
      → populate_one c path w ≡ (w₁, ok count)
      → Unchanged c path_of endpoints embeddings w₁ w₂
      → missing_operation_ids c path w₂ ≡ (w₃, ok ids)
      → ids ≡ []
  unfolding missing_operation_ids
  missing_operation_ids-populate_one path w w₁ w₂ w₃ count ids h same m =
      let (_, (kept, table, all)) =
        populate_one-Indexed c path_of endpoints embeddings db path w w₁ count h in
      let (v, conn, opened, joined) = >>=-eq-ok _ _ m in
      let (at, u) = db.opens path w₂ v conn opened in
      let (left, _) = db.selects_missing conn v w₃ ids joined in
      let rows = endpoints path w in
      let there =
        All-map
          (λ row e.
            subst (λ o. Dict.is_some o ≡ true) (sym (table row.operation_id))
              (is_some_before _ _ e))
          rows (expected-is_some c path_of endpoints embeddings rows all) in
      left
      ∙ ap (λ p. missing_of (endpoints p v) (embeddings p v)) at
      ∙ ap (λ rs. missing_of rs (embeddings path v)) ((u path).0 ∙ (same path).0 ∙ kept)
      ∙ ap (missing_of rows) ((u path).1 ∙ (same path).1)
      ∙ missing_of-none c path_of endpoints embeddings (embeddings path w₁) rows there

  answered : {a b : Bool} → ◌≡◌ {A = Result AnyError Bool} (ok a) (ok b) → b ≡ a
  answered e = cc

  unreported :
      (path : String) (missing : List String) (had now : Bool) (w w' : W)
      → missing ≡ []
      → report_missing c path missing had w ≡ (w', ok now)
      → now ≡ had
  unfolding report_missing
  unreported path [] had now w w' e h = answered (ap (λ r. r.1) h)
  unreported path (id ∷ ids) had now w w' e h = cc

  -- If SQLite does what its statements say: a run over any targets that goes through
  -- sees no mismatch that it had not seen before.
  populate_each-seen :
      (paths : List String) (had seen : Bool) (w w' : W)
      → populate_each c paths had w ≡ (w', ok seen)
      → seen ≡ had
  unfolding populate_each report_missing
  populate_each-seen [] had seen w w' h = answered (ap (λ r. r.1) h)
  populate_each-seen (path ∷ paths) had seen w w' h =
      let (w₁, _, ensured, h₁) = >>=-eq-ok _ _ h in
      let (w₂, count, populated, h₂) = >>=-eq-ok _ _ h₁ in
      let (w₃, _, printed, h₃) = >>=-eq-ok _ _ h₂ in
      let (w₄, missing, joined, h₄) = >>=-eq-ok _ _ h₃ in
      let (w₅, now, reported, h₅) = >>=-eq-ok _ _ h₄ in
      let (w₆, _, packed, rest) = >>=-eq-ok _ _ h₅ in
      let quiet =
        subst (Unchanged c path_of endpoints embeddings w₂) (ap (λ r. r.0) printed)
          (db.prints _ w₂) in
      let none_missing =
        missing_operation_ids-populate_one path w₁ w₂ w₃ w₄ count missing populated quiet joined in
      populate_each-seen paths now seen w₆ w' rest
      ∙ unreported path missing had now w₄ w₅ none_missing reported

  -- The answer of a loop without the mismatch.
  abbrev pub finished : W × Result AnyError Bool → W × Result AnyError (Unit {0})
  finished (w, ok _) = (w, ok tt)
  finished (w, err e) = (w, err e)

  main-run :
      (args : List String) (w : W) (r : W × Result AnyError Bool)
      → populate_each c (targets args) false w ≡ r
      → main c args w ≡ finished r
  unfolding main
  main-run args w (w', ok seen) e =
      let clean = populate_each-seen (targets args) false seen w w' e in
      >>=-ok (populate_each c (targets args) false) _ e ∙ rw clean refl
  main-run args w (w', err problem) e = >>=-err (populate_each c (targets args) false) _ e

  -- If SQLite does what its statements say: the program's answer is that of its loop over the
  -- targets. It fails just where a step for some target fails, with that step's error, and the
  -- final check, that embeddings are missing, never fails.
  pub main-populate_each :
      (args : List String) (w : W)
      → main c args w ≡ finished (populate_each c (targets args) false w)
  main-populate_each args w = main-run args w (populate_each c (targets args) false w) refl
