-- ===== src/Data/Store/Sharing.antt =====
-- data/store.rs: threads that ask for connections at once. `cached_in_memory_connection` holds the
-- lock of the cache for the look-up and again for the publication, and not in between, so it is three
-- steps of a thread.
pub mod Agreement
use topdesk_mcp_rs.Core.Errors.{AnyError}
use topdesk_mcp_rs.Data.Store.{StoreCrate, publish, load_into_memory}
use topdesk_mcp_rs.Shared.{
  ℕ, String, none, some, List, [], ◌∷◌, Result, ok, err, eqb, if◌then◌else◌,
}
use topdesk_mcp_rs.Shared.Dict
use topdesk_mcp_rs.Shared.Dict.{Dict}

module _ {W : Type 0} (c : StoreCrate W) where
  -- Where a thread stands in its call, with what it still needs.
  pub data Phase : Type 0 where
    asks : (key path : String) → Phase
    misses : (key path : String) → Phase
    loads : (key : String) → c.Conn → Phase
    answered : (key : String) → Result AnyError c.Conn → Phase

  -- The next step of a thread; one that has answered stays.
  unfoldable pub advance : Phase → Dict c.Conn → W → Phase × Dict c.Conn × W
  advance (asks key path) cache w = elim (Dict.get key cache) [
    | some conn ↦ (answered key (ok conn), cache, w)
    | none ↦ (misses key path, cache, w)
  ]
  advance (misses key path) cache w =
      let (w', loaded) = load_into_memory c path w in
      elim loaded [
        | err e ↦ (answered key (err e), cache, w')
        | ok conn ↦ (loads key conn, cache, w')
      ]
  advance (loads key conn) cache w =
      let (cache', kept) = publish c key conn cache in (answered key (ok kept), cache', w)
  advance (answered key answer) cache w = (answered key answer, cache, w)

  pub record Threads : Type 0 where
    pub cache : Dict c.Conn
    pub world : W
    pub phase : ℕ → Phase

  -- One thread moves, or something else makes the world another.
  pub data Event : Type 0 where
    turn_of : ℕ → Event
    world_becomes : W → Event

  unfoldable pub happen : Event → Threads → Threads
  unfolding advance
  happen (turn_of i) s =
      let (phase, cache, w) = advance (s.phase i) s.cache s.world in
      record { cache = cache; world = w; phase = λ j. if eqb j i then phase else s.phase j }
  happen (world_becomes w) s = record s { world = w }

  unfoldable pub run_schedule : List Event → Threads → Threads
  unfolding happen
  run_schedule [] s = s
  run_schedule (event ∷ events) s = run_schedule events (happen event s)
