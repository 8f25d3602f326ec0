-- ===== src/Services/EmbeddingService.antt =====
-- services/embedding_service.rs: the embedding of one text, by a model that is loaded once. The model is
-- a library's; a model that cannot be loaded ends the program, and is no value here.
use topdesk_mcp_rs.Core.Errors.{AnyError, message}
use topdesk_mcp_rs.Shared.{
  String, Option, none, some, List, [], ◌∷◌, Result, ok_or, ◌>>=◌, ◌≡◌, refl,
}

pub record ModelCrate : Type 1 where
  pub Model : Type 0
  pub Vector : Type 0
  pub load_model : Model
  pub embed_texts : Model → List String → Result AnyError (List Vector)

-- `pop` of a list.
unfoldable pub pop : {A : Type 0} → List A → Option A
pop [] = none
pop (x ∷ []) = some x
pop (x ∷ y ∷ more) = pop (y ∷ more)

module _ (c : ModelCrate) where
  -- `OnceLock::get_or_init`
  unfoldable pub model : Option c.Model → c.Model
  model none = c.load_model
  model (some loaded) = loaded

  -- The lock after the call, with its answer.
  unfoldable pub embed : String → Option c.Model → Option c.Model × Result AnyError c.Vector
  unfolding model pop
  embed text lock = (
    some (model lock),
    c.embed_texts (model lock) (text ∷ []) >>= λ embeddings.
        ok_or (pop embeddings) (message "embedding model returned no output for the given text"),
  )

  -- Whatever was embedded before, a text has the same embedding: a lock that a call has left answers as
  -- the lock before that call, and keeps its model.
  pub embed_again :
      (other text : String) (lock : Option c.Model)
      → embed text (embed other lock).0 ≡ embed text lock
  unfolding embed model
  embed_again other text none = refl
  embed_again other text (some loaded) = refl
