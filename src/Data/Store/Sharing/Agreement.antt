-- ===== src/Data/Store/Sharing/Agreement.antt =====
-- data/store.rs: what threads that share the cache of connections agree on.
use topdesk_mcp_rs.Core.Errors.{AnyError}
use topdesk_mcp_rs.Data.Store.Sharing.{
  Phase, asks, misses, loads, answered, advance, Threads, Event, turn_of, world_becomes, happen,
  run_schedule,
}
use topdesk_mcp_rs.Data.Store.{
  StoreCrate, StoreState, publish, publish_in, load_into_memory, cached_in_memory_connection,
}
use topdesk_mcp_rs.Shared.{
  ℕ, String, true, some, List, [], ◌∷◌, Result, ok, eqb, Option-cases, Result-cases, Bool-cases,
  inl, inr, ◌≡◌, refl, arith, eq_iff,
}
use topdesk_mcp_rs.Shared.Dict
use topdesk_mcp_rs.Shared.Dict.{Dict, get-insert, get-insert_same}

module _ {W : Type 0} (c : StoreCrate W) where
  -- What is published stays.
  get-publish :
      (key j : String) (conn first : c.Conn) (cache : Dict c.Conn)
      → Dict.get j cache ≡ some first
      → Dict.get j (publish c key conn cache).0 ≡ some first
  unfolding publish
  get-publish key j conn first cache h = elim (Option-cases (Dict.get key cache)) [
    | inr (other, hit) ↦ rw (hit, publish) h
    | inl missing ↦
        rw (missing, publish) (ground (arith, get-insert key j conn cache, eq_iff key j))
  ]

  get-publish_same :
      (key : String) (conn : c.Conn) (cache : Dict c.Conn)
      → Dict.get key (publish c key conn cache).0 ≡ some (publish c key conn cache).1
  unfolding publish
  get-publish_same key conn cache = elim (Option-cases (Dict.get key cache)) [
    | inr (other, hit) ↦ rw (hit, publish) hit
    | inl missing ↦ rw (missing, publish) (get-insert_same key conn cache)
  ]

  get-advance :
      (p : Phase c) (cache : Dict c.Conn) (w : W) (j : String) (first : c.Conn)
      → Dict.get j cache ≡ some first
      → Dict.get j (advance c p cache w).1 ≡ some first
  unfolding advance
  get-advance (asks key path) cache w j first h = elim (Option-cases (Dict.get key cache)) [
    | inr (conn, hit) ↦ rw (hit, advance) h
    | inl missing ↦ rw (missing, advance) h
  ]
  get-advance (misses key path) cache w j first h =
      elim (Result-cases (load_into_memory c path w).1) [
        | inl (conn, done) ↦ rw (done, advance) h
        | inr (e, failed) ↦ rw (failed, advance) h
      ]
  get-advance (loads key conn) cache w j first h = get-publish key j conn first cache h
  get-advance (answered key answer) cache w j first h = h

  -- An answer is what the cache has.
  abbrev pub Agrees : Phase c → Dict c.Conn → Type 0
  Agrees p cache =
      (key : String) (conn : c.Conn) → p ≡ answered key (ok conn) → Dict.get key cache ≡ some conn

  advance-Agrees :
      (p : Phase c) (cache : Dict c.Conn) (w : W)
      → Agrees p cache
      → Agrees (advance c p cache w).0 (advance c p cache w).1
  unfolding advance
  advance-Agrees (asks key path) cache w h j first e = elim (Option-cases (Dict.get key cache)) [
    | inr (conn, hit) ↦ let e' = rw (hit, advance) at e in rw (hit, advance) (cc)
    | inl missing ↦ let e' = rw (missing, advance) at e in cc
  ]
  advance-Agrees (misses key path) cache w h j first e =
      elim (Result-cases (load_into_memory c path w).1) [
        | inl (conn, done) ↦ let e' = rw (done, advance) at e in cc
        | inr (problem, failed) ↦ let e' = rw (failed, advance) at e in cc
      ]
  advance-Agrees (loads key conn) cache w h j first e =
      let same = get-publish_same key conn cache in cc
  advance-Agrees (answered key answer) cache w h j first e = h j first e

  -- Every answer that was given is what the cache has.
  abbrev pub IsAgreed : Threads c → Type 0
  IsAgreed s = (i : ℕ) → Agrees (s.phase i) s.cache

  happen-IsAgreed : (event : Event c) (s : Threads c) → IsAgreed s → IsAgreed (happen c event s)
  unfolding happen
  happen-IsAgreed (world_becomes w) s h j key conn e = h j key conn e
  happen-IsAgreed (turn_of i) s h j key conn e = elim (Bool-cases (eqb j i)) [
    | inl same ↦ advance-Agrees (s.phase i) s.cache s.world (h i) key conn (rw same at e)
    | inr other ↦ get-advance (s.phase i) s.cache s.world key conn (h j key conn (rw other at e))
  ]

  pub run_schedule-IsAgreed :
      (events : List (Event c)) (s : Threads c) → IsAgreed s → IsAgreed (run_schedule c events s)
  unfolding run_schedule
  run_schedule-IsAgreed [] s h = h
  run_schedule-IsAgreed (event ∷ events) s h =
      run_schedule-IsAgreed events (happen c event s) (happen-IsAgreed event s h)

  get-run_schedule :
      (events : List (Event c)) (s : Threads c) (key : String) (conn : c.Conn)
      → Dict.get key s.cache ≡ some conn
      → Dict.get key (run_schedule c events s).cache ≡ some conn
  unfolding run_schedule happen
  get-run_schedule [] s key conn h = h
  get-run_schedule (turn_of i ∷ events) s key conn h =
      get-run_schedule events (happen c (turn_of i) s) key conn
        (get-advance (s.phase i) s.cache s.world key conn h)
  get-run_schedule (world_becomes w ∷ events) s key conn h =
      get-run_schedule events (happen c (world_becomes w) s) key conn h

  -- Threads c that start to ask for connections, with any connections published before, in any order
  -- of their steps, and whatever else changes the world: two answers for one version, given at any
  -- two moments, are the same connection, although several threads may have loaded one.
  pub answers_agree :
      (events later : List (Event c)) (s : Threads c)
      → IsAgreed s
      → (i j : ℕ) (key : String) (first second : c.Conn)
      → (run_schedule c events s).phase i ≡ answered key (ok first)
      → (run_schedule c later (run_schedule c events s)).phase j ≡ answered key (ok second)
      → first ≡ second
  answers_agree events later s h i j key first second e e' =
      let s₁ = run_schedule c events s in
      let kept = run_schedule-IsAgreed events s h in
      let there = get-run_schedule later s₁ key first (kept i key first e) in
      let found = run_schedule-IsAgreed later s₁ kept j key second e' in cc

  -- The next two steps of a thread, with nothing in between.
  abbrev go_on : Phase c × Dict c.Conn × W → Phase c × Dict c.Conn × W
  go_on (p, cache, w) = advance c p cache w

  -- An answer of the sequential function, as the thread's.
  abbrev as_answer : String → StoreState c × W × Result AnyError c.Conn → Phase c × Dict c.Conn × W
  as_answer key (st, w, answer) = (answered key answer, st.connections, w)

  publish_alone :
      (key : String) (st : StoreState c) (w : W) (conn : c.Conn)
      → advance c (loads key conn) st.connections w
        ≡ as_answer key (publish_in c key st (w, ok conn))
  unfolding advance publish_in
  publish_alone key st w conn = refl

  go_on_alone :
      (key path : String) (st : StoreState c) (w : W)
      → go_on (go_on (advance c (asks key path) st.connections w))
        ≡ as_answer key (cached_in_memory_connection c key path st w)
  unfolding advance cached_in_memory_connection publish_in
  go_on_alone key path st w = elim (Option-cases (Dict.get key st.connections)) [
    | inr (conn, hit) ↦ rw (hit, advance, cached_in_memory_connection) refl
    | inl missing ↦ elim (Result-cases (load_into_memory c path w).1) [
      | inl (conn, done) ↦ rw (missing, done, advance, cached_in_memory_connection, publish_in) refl
      | inr (e, failed) ↦
          rw (missing, failed, advance, cached_in_memory_connection, publish_in) refl
    ]
  ]

  -- A thread that runs alone answers in three steps, as the function does: with its answer, its
  -- connections and its world.
  pub run_schedule-alone :
      (i : ℕ) (key path : String) (st : StoreState c) (s : Threads c)
      → s.cache ≡ st.connections
      → s.phase i ≡ asks key path
      → let last = run_schedule c (turn_of i ∷ turn_of i ∷ turn_of i ∷ []) s in
        (last.phase i, last.cache, last.world)
        ≡ as_answer key (cached_in_memory_connection c key path st s.world)
  unfolding run_schedule happen
  run_schedule-alone i key path st s same e =
      let own : eqb i i ≡ true = ground arith in rw (own, e, same) (go_on_alone key path st s.world)
