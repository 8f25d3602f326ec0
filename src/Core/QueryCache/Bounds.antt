-- ===== src/Core/QueryCache/Bounds.antt =====
-- core/cache_manager.rs: the size of the cache, and what can be read from it.
use Prim.Native.Nat.{max}
use topdesk_mcp_rs.Core.QueryCache.{CacheEntry, QueryCache, get, make_room, set}
use topdesk_mcp_rs.Shared.{
  ℕ, suc, ◌+◌, ◌≤◌, String, true, false, not, ◌&&◌, Option, none, some, [], ◌≡◌, ◌≢◌, ◌∙◌, ◌⊎◌, inl,
  inr, arith, if◌then◌else◌, ltb, leb, length, str_eq, eq_iff, eq_refl, Option-cases, Bool-cases,
}
use topdesk_mcp_rs.Shared.Dict
use topdesk_mcp_rs.Shared.Dict.{
  Dict, get-insert, get-remove, length-insert-le, length-insert_present, length-remove-le,
  length-remove_present,
}

-- The size stays within the capacity, or within one entry if the capacity is zero.
abbrev pub IsBounded : {T : Type 0} → QueryCache T → Type 0
IsBounded c = length c.store ≤ max 1 c.max_size

module _ {T : Type 0} where
  -- A read never grows the cache.
  pub get-IsBounded :
      (key : String) (now : ℕ) (c : QueryCache T) → IsBounded c → IsBounded (get key now c).0
  unfolding get
  get-IsBounded key now c h = ground (arith, length-remove-le key c.store)

  -- The value of an entry that has not expired.
  abbrev live : Option (CacheEntry T) → ℕ → Option T
  live none now = none
  live (some entry) now = if ltb entry.expires_at now then none else some entry.value

  abbrev entry_of : T → ℕ → QueryCache T → CacheEntry T
  entry_of value now c = record { value = value; expires_at = now + c.ttl }

  get-live :
      (key : String) (now : ℕ) (c : QueryCache T)
      → (get key now c).1 ≡ live (Dict.get key c.store) now
  unfolding get
  get-live key now c = ground arith

  module _ (first_key : Dict (CacheEntry T) → Option String) where
    make_room_ne :
        (key other : String) (c : QueryCache T)
        → (Dict.get other (make_room first_key key c) ≡ Dict.get other c.store)
          ⊎ ((first_key c.store ≡ some other)
              × (c.max_size ≤ length c.store)
              × (Dict.get other (make_room first_key key c) ≡ none))
    unfolding make_room
    make_room_ne key other c = elim (Option-cases (first_key c.store)) [
      | inl empty ↦ inl (ground arith)
      | inr (k, chosen) ↦ elim (Bool-cases (str_eq k other)) [
        | inl same ↦
            elim (Bool-cases
              (leb c.max_size (length c.store) && not (Dict.contains_key key c.store))) [
                | inl full ↦ inr (
                  ground (arith, eq_iff k other),
                  ground arith,
                  ground (arith, get-remove k other c.store),
                )
                | inr room ↦ inl (ground arith)
              ]
        | inr differs ↦ inl (ground (arith, get-remove k other c.store))
      ]
    ]

    -- What was just written is read back until its time to live has passed, and not after.
    pub get-set :
        (key : String) (value : T) (now later : ℕ) (c : QueryCache T)
        → (get key later (set first_key key value now c)).1
          ≡ (if ltb (now + c.ttl) later then none else some value)
    unfolding set
    get-set key value now later c =
        get-live key later (set first_key key value now c)
        ∙ ground (
          arith,
          get-insert key key (entry_of value now c) (make_room first_key key c),
          eq_refl key,
        )

    -- A write leaves what another key reads as it was, or the cache was full and that key is the
    -- one evicted.
    pub get-set_ne :
        (key other : String) (value : T) (now later : ℕ) (c : QueryCache T)
        → key ≢ other
        → ((get other later (set first_key key value now c)).1 ≡ (get other later c).1)
          ⊎ ((first_key c.store ≡ some other)
              × (c.max_size ≤ length c.store)
              × ((get other later (set first_key key value now c)).1 ≡ none))
    unfolding set
    get-set_ne key other value now later c h =
        let after = get-live other later (set first_key key value now c) in
        let before = get-live other later c in
        let inserted = get-insert key other (entry_of value now c) (make_room first_key key c) in
        elim (make_room_ne key other c) [
          | inl kept ↦ inl (ground (arith, after, before, inserted, eq_iff key other))
          | inr (chosen, full, gone) ↦
              inr (chosen, full, ground (arith, after, inserted, eq_iff key other))
        ]

  module _ (first_key : Dict (CacheEntry T) → Option String)
      (first_key-present : (m : Dict (CacheEntry T)) (k : String)
        → first_key m ≡ some k
        → Dict.contains_key k m ≡ true)
      (first_key-none : (m : Dict (CacheEntry T)) → first_key m ≡ none → m ≡ []) where
    length-make_room-le :
        (key : String) (c : QueryCache T)
        → IsBounded c
        → Dict.contains_key key c.store ≡ false
        → suc (length (make_room first_key key c)) ≤ max 1 c.max_size
    unfolding make_room
    length-make_room-le key c h absent = elim (Option-cases (first_key c.store)) [
      | inl empty ↦ ground (arith, first_key-none c.store empty)
      | inr (k, chosen) ↦
          ground (arith, length-remove_present k c.store (first_key-present c.store k chosen))
    ]

    make_room_present :
        (key : String) (c : QueryCache T)
        → Dict.contains_key key c.store ≡ true
        → make_room first_key key c ≡ c.store
    unfolding make_room
    make_room_present key c h = ground arith

    -- A write keeps a cache within its capacity, or within one entry where the capacity is zero,
    -- if the key to evict is one of the cache and is found unless the cache is empty.
    pub set-IsBounded :
        (key : String) (value : T) (now : ℕ) (c : QueryCache T)
        → IsBounded c
        → IsBounded (set first_key key value now c)
    unfolding set
    set-IsBounded key value now c h = elim (Bool-cases (Dict.contains_key key c.store)) [
      | inl present ↦
          rw (make_room_present key c present)
            (ground (arith, length-insert_present key (entry_of value now c) c.store))
      | inr absent ↦ ground (
        arith,
        length-make_room-le key c h absent,
        length-insert-le key (entry_of value now c) (make_room first_key key c),
      )
    ]
