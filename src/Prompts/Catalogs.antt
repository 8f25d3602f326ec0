-- ===== src/Prompts/Catalogs.antt =====
-- prompts/router.rs: the catalogs that the prompts ask for, and the tables of versions.
use mathlib.Core.List.{Memᴰ}
use mathlib.Core.List.Memᴰ.{head, tail}
use topdesk_mcp_rs.Core.Errors.{join}
use topdesk_mcp_rs.Data.Versions.{version_store_files}
use topdesk_mcp_rs.Prompts.{Workflow, workflows, contains, catalog_check_block, matching_text}
use topdesk_mcp_rs.Shared.{
  String, Bool, true, some, List, [], ◌∷◌, all, Option-cases, inl, inr, ◌≡◌, refl, arith, eq_iff,
}
use topdesk_mcp_rs.Shared.Dict

-- Whether every catalog that a workflow expects has a store.
abbrev pub is_served : Workflow → Bool
is_served workflow = all (λ label. Dict.contains_key label version_store_files) workflow.expected

all-Memᴰ :
    {A : Type 0} (p : A → Bool) (xs : List A) (x : A) → all p xs ≡ true → Memᴰ x xs → p x ≡ true
all-Memᴰ p [] x h m = elim m [ ]
all-Memᴰ p (y ∷ xs) x h (head e) = rw e (ground arith)
all-Memᴰ p (y ∷ xs) x h (tail m) = all-Memᴰ p xs x (ground arith) m

contains_key-get :
    {V : Type 0} (k : String) (m : Dict.Dict V)
    → Dict.contains_key k m ≡ true
    → (v : V) × (Dict.get k m ≡ some v)
contains_key-get k m h = elim (Option-cases (Dict.get k m)) [ inr found ↦ found | inl e ↦ cc ]

all-contains :
    (p : String → Bool) (labels : List String) (label : String)
    → all p labels ≡ true
    → contains label labels ≡ true
    → p label ≡ true
all-contains p [] label h c = cc
all-contains p (l ∷ labels) label h c = ground (arith, eq_iff l label, all-contains p labels label)

-- For a workflow prompt of the server and a catalog among those it expects: the catalog has a store,
-- so the server can be started with it, and under it the prompt's check finds the catalog that the
-- workflow needs.
pub workflow_catalog :
    (workflow : Workflow) (label : String)
    → Memᴰ workflow workflows
    → contains label workflow.expected ≡ true
    → (file : String) × (Dict.get label version_store_files ≡ some file)
      × (catalog_check_block label workflow.expected
          ≡ matching_text label (join "`, `" workflow.expected))
unfolding catalog_check_block
workflow_catalog workflow label listed expected =
    let served =
      all-contains (λ l. Dict.contains_key l version_store_files) workflow.expected label
        (all-Memᴰ is_served workflows workflow refl listed) expected in
    let (file, found) = contains_key-get label version_store_files served in
    (file, found, rw (expected, catalog_check_block) refl)
