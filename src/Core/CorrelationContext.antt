-- ===== src/Core/CorrelationContext.antt =====
-- core/correlation_context.rs: the identifier that is bound for a tree of calls. A task is a function of
-- the identifier that is bound around it, if one is, and acts on a world.
use topdesk_mcp_rs.Shared.{String, Option, none, some, ◌≡◌, refl}

abbrev pub Task : Type 0 → Type 0 → Type 0
Task W A = Option String → W → W × A

module _ {W : Type 0} (new_v4 : W → W × String) where
  -- A fresh identifier where none is given.
  unfoldable pub trace_id_or_new : Option String → W → W × String
  trace_id_or_new none w = new_v4 w
  trace_id_or_new (some id) w = (w, id)

  unfoldable pub with_correlation_id : {A : Type 0} → Option String → Task W A → Task W A
  unfolding trace_id_or_new
  with_correlation_id trace_id task around w =
      let (w', id) = trace_id_or_new trace_id w in task (some id) w'

  unfoldable pub correlation_id : Task W (Option String)
  correlation_id bound w = (w, bound)

  -- A task that runs another under an identifier of its own, and then asks for its own.
  abbrev then_own : {A : Type 0} → Task W A → Task W (A × Option String)
  then_own task bound w =
      let (w', a) = task bound w in let (w'', own) = correlation_id bound w' in (w'', (a, own))

  -- The identifier of a task is bound again once a task within it, with another one, has ended.
  pub with_correlation_id-nested :
      (outer inner : String) (around : Option String) (w : W)
      → with_correlation_id
          (some outer)
          (then_own (with_correlation_id (some inner) correlation_id))
          around
          w
        ≡ (w, (some inner, some outer))
  unfolding with_correlation_id correlation_id
  with_correlation_id-nested outer inner around w = refl
