-- ===== src/Shared/Dict.antt =====
-- Maps with text keys as association lists: `HashMap<String, V>` and `serde_json::Map`. Only
-- `keys` and iteration see the order, which the program does not rely on.
use Prim.Native.Nat.{suc, ◌≤◌}
use Prim.Native.String.{String}
use mathlib.Core.Bool.{Bool, true, false}
use mathlib.Core.List.{List, [], ◌∷◌}
use mathlib.Core.Option.{Option, none, some}
use mathlib.Core.Path.{◌≡◌, refl, ap, ◌∙◌}
use native.Mathlib.Omega.{arith}
use text.Mathlib.TextEquality.{eq_iff}
use text.Mathlib.TextPositions.{eq_refl}
use topdesk_mcp_rs.Shared.Lists.{length}
use topdesk_mcp_rs.Shared.Tests.{str_eq, if◌then◌else◌}

abbrev pub Dict : Type 0 → Type 0
Dict V = List (String × V)

module _ {V : Type 0} where
  abbrev pub get : String → Dict V → Option V
  get k [] = none
  get k ((j, v) ∷ m) = if str_eq j k then some v else get k m

  abbrev pub is_some : Option V → Bool
  is_some none = false
  is_some (some v) = true

  abbrev pub contains_key : String → Dict V → Bool
  contains_key k m = is_some (get k m)

  abbrev pub insert : String → V → Dict V → Dict V
  insert k v [] = (k, v) ∷ []
  insert k v ((j, w) ∷ m) = if str_eq j k then (k, v) ∷ m else (j, w) ∷ insert k v m

  abbrev pub remove : String → Dict V → Dict V
  remove k [] = []
  remove k ((j, w) ∷ m) = let rest = remove k m in if str_eq j k then rest else (j, w) ∷ rest

  -- `a.extend(b)`: the entries of `b` are inserted one by one.
  abbrev pub extend : Dict V → Dict V → Dict V
  extend m [] = m
  extend m ((k, v) ∷ more) = extend (insert k v m) more

  -- The last value that a list of pairs gives a key: what `extend` leaves in the map.
  abbrev pub get_last : String → Dict V → Option V
  get_last k [] = none
  get_last k ((j, v) ∷ m) = elim (get_last k m) [
    | some w ↦ some w
    | none ↦ if str_eq j k then some v else none
  ]

  abbrev pub or_else : Option V → Option V → Option V
  or_else none b = b
  or_else (some a) b = some a

  pub get-insert :
      (k j : String) (v : V) (m : Dict V)
      → get j (insert k v m) ≡ (if str_eq k j then some v else get j m)
  get-insert k j v [] = refl
  get-insert k j v ((i, w) ∷ m) =
      ground (arith, eq_iff k j, eq_iff i k, eq_iff i j, get-insert k j v m)

  pub get-insert_same : (k : String) (v : V) (m : Dict V) → get k (insert k v m) ≡ some v
  get-insert_same k v m = get-insert k k v m ∙ ap (λ b. if b then some v else get k m) (eq_refl k)

  pub get-remove :
      (k j : String) (m : Dict V) → get j (remove k m) ≡ (if str_eq k j then none else get j m)
  get-remove k j [] = ground arith
  get-remove k j ((i, w) ∷ m) = ground (arith, eq_iff k j, eq_iff i k, eq_iff i j, get-remove k j m)

  pub length-insert-le : (k : String) (v : V) (m : Dict V) → length (insert k v m) ≤ suc (length m)
  length-insert-le k v [] = omega arith
  length-insert-le k v ((j, w) ∷ m) = ground (arith, length-insert-le k v m)

  pub length-insert_present :
      (k : String) (v : V) (m : Dict V) → contains_key k m ≡ true → length (insert k v m) ≡ length m
  length-insert_present k v [] h = cc
  length-insert_present k v ((j, w) ∷ m) h = ground (arith, length-insert_present k v m)

  pub length-remove-le : (k : String) (m : Dict V) → length (remove k m) ≤ length m
  length-remove-le k [] = omega arith
  length-remove-le k ((j, w) ∷ m) = ground (arith, length-remove-le k m)

  pub length-remove_present :
      (k : String) (m : Dict V) → contains_key k m ≡ true → suc (length (remove k m)) ≤ length m
  length-remove_present k [] h = cc
  length-remove_present k ((j, w) ∷ m) h =
      ground (arith, length-remove_present k m, length-remove-le k m)

  pub get-extend :
      (j : String) (m more : Dict V) → get j (extend m more) ≡ or_else (get_last j more) (get j m)
  get-extend j m [] = refl
  get-extend j m ((k, v) ∷ more) =
      ground (arith, get-extend j (insert k v m) more, get-insert k j v m)

  -- A value that was put first stays behind those that come later.
  pub put_behind :
      (later before given : Option V) (test : Bool) (value : V)
      → given ≡ some value
      → or_else later (if test then some value else before)
        ≡ or_else (or_else later (if test then given else none)) before
  put_behind (some v) before given test value e = refl
  put_behind none before given true value e = rw e refl
  put_behind none before given false value e = refl

  pub is_some_before : (a b : Option V) → is_some a ≡ true → is_some (or_else a b) ≡ true
  is_some_before none b h = cc
  is_some_before (some v) b h = refl

  pub is_some_behind : (a b : Option V) → is_some b ≡ true → is_some (or_else a b) ≡ true
  is_some_behind none b h = h
  is_some_behind (some v) b h = refl
