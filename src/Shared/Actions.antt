-- ===== src/Shared/Actions.antt =====
-- Calls that act on a world and may fail, in a chain of `?`. A failed call keeps what it changed.
use mathlib.Core.Path.{◌≡◌, refl, ap}
use topdesk_mcp_rs.Shared.Results.{Result, ok, err}

abbrev pub Action : Type 0 → Type 0 → Type 0 → Type 0
Action W E A = W → W × Result E A

module _ {W E A : Type 0} where
  abbrev pub pure : A → Action W E A
  pure a w = (w, ok a)

  abbrev pub fail : E → Action W E A
  fail e w = (w, err e)

  -- A value that was computed without the world.
  abbrev pub lift : Result E A → Action W E A
  lift r w = (w, r)

  -- A value that the world has.
  abbrev pub gets : (W → A) → Action W E A
  gets f w = (w, ok (f w))

-- A call that cannot fail.
abbrev pub act : {W E : Type 0} → (W → W) → Action W E (Unit {0})
act f w = (f w, ok tt)

-- What a call leaves true of the world, whether it succeeds or fails.
abbrev pub Keeps : {W E A : Type 0} → (W → Type 0) → Action W E A → Type 0
Keeps P m = (w : _) → P w → P (m w).0

module _ {W E A B : Type 0} where
  infixl 5 ◌>>=◌
  unfoldable pub ◌>>=◌ : Action W E A → (A → Action W E B) → Action W E B
  ◌>>=◌ m f w = let (w', r) = m w in elim r [ ok a ↦ f a w' | err e ↦ (w', err e) ]

  -- What a chain does after its first call.
  abbrev after : (A → Action W E B) → W × Result E A → W × Result E B
  after f (w, ok a) = f a w
  after f (w, err e) = (w, err e)

  pub >>=-ok :
      (m : Action W E A) (f : A → Action W E B) {w w₁ : W} {a : A}
      → m w ≡ (w₁, ok a)
      → (m >>= f) w ≡ f a w₁
  unfolding ◌>>=◌
  >>=-ok m f e = ap (after f) e

  pub >>=-err :
      (m : Action W E A) (f : A → Action W E B) {w w₁ : W} {e : E}
      → m w ≡ (w₁, err e)
      → (m >>= f) w ≡ (w₁, err e)
  unfolding ◌>>=◌
  >>=-err m f e = ap (after f) e

  after_keeps :
      (P : W → Type 0) (f : A → Action W E B)
      → ((a : A) → Keeps P (f a))
      → (r : W × Result E A) → P r.0
      → P (after f r).0
  after_keeps P f next (w, ok a) h = next a w h
  after_keeps P f next (w, err e) h = h

  through :
      (m : Action W E A) (f : A → Action W E B) {w w' : W} {b : B} (r : W × Result E A)
      → m w ≡ r
      → after f r ≡ (w', ok b)
      → (w₁ : W) × (a : A) × (m w ≡ (w₁, ok a)) × (f a w₁ ≡ (w', ok b))
  through m f (w₁, ok a) e h = (w₁, a, e, h)
  through m f (w₁, err x) e h = cc

  -- A chain that succeeded went through its first call.
  pub >>=-eq-ok :
      (m : Action W E A) (f : A → Action W E B) {w w' : W} {b : B}
      → (m >>= f) w ≡ (w', ok b)
      → (w₁ : W) × (a : A) × (m w ≡ (w₁, ok a)) × (f a w₁ ≡ (w', ok b))
  unfolding ◌>>=◌
  >>=-eq-ok m f {w = w} h = through m f (m w) refl h

infixl 5 ◌>>◌
abbrev pub ◌>>◌ : {W E B : Type 0} → Action W E (Unit {0}) → Action W E B → Action W E B
first >> second = first >>= λ ignored. second

pub Keeps->>= :
    {W E A B : Type 0} (P : W → Type 0) (m : Action W E A) (f : A → Action W E B)
    → Keeps P m
    → ((a : A) → Keeps P (f a))
    → Keeps P (m >>= f)
unfolding ◌>>=◌
Keeps->>= P m f first next w h = after_keeps P f next (m w) (first w h)
