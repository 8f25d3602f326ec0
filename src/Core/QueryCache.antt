-- ===== src/Core/QueryCache.antt =====
-- core/cache_manager.rs: the TTL cache. `keys().next()` of a hash map gives an arbitrary key, so the
-- choice is a parameter.
pub mod Bounds
use topdesk_mcp_rs.Shared.{
  ℕ, ◌+◌, String, Bool, not, ◌&&◌, Option, none, some, [], if◌then◌else◌, ltb, leb, length,
}
use topdesk_mcp_rs.Shared.Dict
use topdesk_mcp_rs.Shared.Dict.{Dict}

pub record CacheEntry (T : Type 0) : Type 0 where
  pub value : T
  pub expires_at : ℕ

pub record QueryCache (T : Type 0) : Type 0 where
  pub max_size : ℕ
  pub ttl : ℕ
  pub store : Dict (CacheEntry T)

module _ {T : Type 0} where
  unfoldable pub new : ℕ → ℕ → QueryCache T
  new max_size ttl = record { max_size = max_size; ttl = ttl; store = [] }

  unfoldable pub get : String → ℕ → QueryCache T → QueryCache T × Option T
  get key now c = elim (Dict.get key c.store) [
    | none ↦ (c, none)
    | some entry ↦
        if ltb entry.expires_at now
        then (record c { store = Dict.remove key c.store }, none)
        else (c, some entry.value)
  ]

  unfoldable pub clear : QueryCache T → QueryCache T
  clear c = record c { store = [] }

  module _ (first_key : Dict (CacheEntry T) → Option String) where
    -- The eviction before an insertion.
    unfoldable pub make_room : String → QueryCache T → Dict (CacheEntry T)
    make_room key c =
        if leb c.max_size (length c.store) && not (Dict.contains_key key c.store)
        then elim (first_key c.store) [
          | none ↦ c.store
          | some oldest_key ↦ Dict.remove oldest_key c.store
        ]
        else c.store

    unfoldable pub set : String → T → ℕ → QueryCache T → QueryCache T
    set key value now c = record c {
      store =
          Dict.insert key (record { value = value; expires_at = now + c.ttl }) (make_room key c);
    }
