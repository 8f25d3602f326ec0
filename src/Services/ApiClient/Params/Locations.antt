-- ===== src/Services/ApiClient/Params/Locations.antt =====
-- services/api_client.rs: which arguments become query or header parameters.
use topdesk_mcp_rs.Data.Endpoints.{EndpointRecord}
use topdesk_mcp_rs.Json.{Value, as_str, member}
use topdesk_mcp_rs.Services.ApiClient.Params.{
  and_then, parameters_of, is_at, names_at, value_to_plain_string, pick, pick_by_location,
}
use topdesk_mcp_rs.Shared.{
  String, Bool, true, false, ◌&&◌, ◌||◌, none, some, List, [], ◌∷◌, str_eq, any, All, ◌≡◌, refl,
  arith, eq_iff, Option-cases, inl, inr, Bool-cases, eq_refl, subst, sym,
}
use topdesk_mcp_rs.Shared.Dict
use topdesk_mcp_rs.Shared.Dict.{Dict}

-- A parameter object declares the name at the location.
abbrev pub declares : String → String → Value → Bool
declares location name param =
    is_at location param
    && elim (and_then (member "name" param) as_str) [ none ↦ false | some text ↦ str_eq text name ]

module _ (print : Value → String) (args : Dict Value) where
  -- The pair is a given argument with its plain text.
  abbrev pub IsArgument : String × String → Type 0
  IsArgument (name, text) =
      (value : Value) × (Dict.get name args ≡ some value)
      × (text ≡ value_to_plain_string print value)

  module _ (location : String) where
    -- Every pair that is picked is an argument under a declared name.
    abbrev pub AreDeclared : List Value → List (String × String) → Type 0
    AreDeclared params = All (λ p. (any (declares location p.0) params ≡ true) × IsArgument p)

    AreDeclared-cons :
        (param : Value) (params : List Value) (pairs : List (String × String))
        → AreDeclared params pairs
        → AreDeclared (param ∷ params) pairs
    AreDeclared-cons param params [] h = tt
    AreDeclared-cons param params (p ∷ pairs) ((d, a), h) =
        ((ground arith, a), AreDeclared-cons param params pairs h)

    AreDeclared-pick :
        (params : List Value) (name : String) (rest : List String)
        → any (declares location name) params ≡ true
        → AreDeclared params (pick print args rest)
        → AreDeclared params (pick print args (name ∷ rest))
    unfolding pick
    AreDeclared-pick params name rest d h = elim (Option-cases (Dict.get name args)) [
      | inl missing ↦ rw (missing, pick) h
      | inr (value, given) ↦ rw (given, pick) ((d, (value, given, refl)), h)
    ]

    AreDeclared-names_at :
        (param : Value) (params : List Value) (names : List String)
        → names_at location (param ∷ params) ≡ names
        → AreDeclared (param ∷ params) (pick print args names)
        → AreDeclared (param ∷ params) (pick print args (names_at location (param ∷ params)))
    AreDeclared-names_at param params names e h =
        subst (λ ns. AreDeclared (param ∷ params) (pick print args ns)) (sym e) h

    picked_sound :
        (params : List Value) → AreDeclared params (pick print args (names_at location params))
    unfolding names_at pick
    picked_sound [] = tt
    picked_sound (param ∷ params) =
        let names = names_at location params in
        let rest = AreDeclared-cons param params (pick print args names) (picked_sound params) in
        elim (Bool-cases (is_at location param)) [
          | inr other ↦ AreDeclared-names_at param params names (ground arith) rest
          | inl here ↦ elim (Option-cases (and_then (member "name" param) as_str)) [
            | inl unnamed ↦ AreDeclared-names_at param params names (ground arith) rest
            | inr (name, named) ↦
                AreDeclared-names_at param params (name ∷ names) (ground arith)
                  (AreDeclared-pick (param ∷ params) name names (ground (arith, eq_refl name)) rest)
          ]
        ]

    -- The pair of the name and of the plain text of its argument is in the list.
    abbrev pub holds : String → Value → List (String × String) → Bool
    holds name value = any (λ p. str_eq p.0 name && str_eq p.1 (value_to_plain_string print value))

    holds-pick :
        (other name : String) (value : Value) (rest : List String)
        → Dict.get name args ≡ some value
        → (str_eq other name || holds name value (pick print args rest)) ≡ true
        → holds name value (pick print args (other ∷ rest)) ≡ true
    unfolding pick
    holds-pick other name value rest g h = elim (Bool-cases (str_eq other name)) [
      | inl same ↦
          let path = (eq_iff other name).0 same in
          rw path (ground (arith, eq_refl name, eq_refl (value_to_plain_string print value)))
      | inr differs ↦ ground arith
    ]

    picked_complete :
        (params : List Value) (name : String) (value : Value)
        → any (declares location name) params ≡ true
        → Dict.get name args ≡ some value
        → holds name value (pick print args (names_at location params)) ≡ true
    unfolding names_at
    picked_complete [] name value d g = cc
    picked_complete (param ∷ params) name value d g = elim (Bool-cases (is_at location param)) [
      | inr other ↦ rw (other, names_at) (picked_complete params name value (ground arith) g)
      | inl here ↦ elim (Option-cases (and_then (member "name" param) as_str)) [
        | inl unnamed ↦
            rw (here, unnamed, names_at) (picked_complete params name value (ground arith) g)
        | inr (found, named) ↦
            rw (here, named, names_at)
              (holds-pick found name value (names_at location params) g
                (ground (arith, picked_complete params name value)))
      ]
    ]

  -- What is picked for a location is sound: each pair is an argument of the call, with its plain
  -- text, under a name that the endpoint declares at that location.
  pick_by_location_sound :
      (endpoint : EndpointRecord) (location : String)
      → AreDeclared location
          (parameters_of endpoint)
          (pick_by_location print endpoint args location)
  unfolding pick_by_location
  pick_by_location_sound endpoint location = picked_sound location (parameters_of endpoint)

  -- An argument under a name that the endpoint declares at a location is picked for that
  -- location, with its plain text.
  pick_by_location_complete :
      (endpoint : EndpointRecord) (location name : String) (value : Value)
      → any (declares location name) (parameters_of endpoint) ≡ true
      → Dict.get name args ≡ some value
      → holds location name value (pick_by_location print endpoint args location) ≡ true
  unfolding pick_by_location
  pick_by_location_complete endpoint location name value d g =
      picked_complete location (parameters_of endpoint) name value d g

  -- What is picked for a location is exact: each pair is an argument of the call, with its plain
  -- text, under a name that the endpoint declares at that location, and each argument under such a
  -- name is picked, with its plain text.
  pub pick_by_location_exact :
      (endpoint : EndpointRecord) (location : String)
      → AreDeclared location
          (parameters_of endpoint)
          (pick_by_location print endpoint args location)
        × ((name : String) (value : Value)
            → any (declares location name) (parameters_of endpoint) ≡ true
            → Dict.get name args ≡ some value
            → holds location name value (pick_by_location print endpoint args location) ≡ true)
  pick_by_location_exact endpoint location =
      (pick_by_location_sound endpoint location, pick_by_location_complete endpoint location)
