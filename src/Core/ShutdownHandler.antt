-- ===== src/Core/ShutdownHandler.antt =====
-- core/shutdown_handler.rs: the cleanup callbacks, run in reverse order of registration. A callback
-- acts on a world. A signal is an event; that one of the two is awaited is the runtime's.
use topdesk_mcp_rs.Shared.{ℕ, String, List, [], ◌∷◌, ◌++◌, ◌≡◌, refl, ap}

pub data Signal : Type 0 where
  ctrl_c terminate : Signal

abbrev pub name_of : Signal → String
name_of ctrl_c = "SIGINT"
name_of terminate = "SIGTERM"

module _ {W : Type 0} where
  -- `CLEANUP_FNS` after a registration.
  unfoldable pub on_shutdown : (W → W) → List (W → W) → List (W → W)
  on_shutdown f fns = fns ++ f ∷ []

  -- The loop over the callbacks, the last one first.
  unfoldable pub run_reversed : List (W → W) → W → W
  run_reversed [] w = w
  run_reversed (f ∷ fns) w = f (run_reversed fns w)

  -- `mem::take` leaves the list empty, so that a callback runs once.
  unfoldable pub shutdown : List (W → W) → W → List (W → W) × W
  unfolding run_reversed
  shutdown fns w = ([], run_reversed fns w)

  run_reversed-snoc :
      (fns : List (W → W)) (f : W → W) (w : W)
      → run_reversed (fns ++ f ∷ []) w ≡ run_reversed fns (f w)
  unfolding run_reversed
  run_reversed-snoc [] f w = refl
  run_reversed-snoc (g ∷ fns) f w = ap g (run_reversed-snoc fns f w)

  -- For every list of callbacks: the shutdown after one more registration runs that callback
  -- first, and then does what the shutdown without it does. A second shutdown runs nothing.
  pub shutdown-on_shutdown :
      (f : W → W) (fns : List (W → W)) (w : W)
      → (shutdown (on_shutdown f fns) w ≡ shutdown fns (f w))
        × (shutdown (shutdown fns w).0 (shutdown fns w).1 ≡ shutdown fns w)
  unfolding shutdown on_shutdown run_reversed
  shutdown-on_shutdown f fns w = (ap (λ w'. ([], w')) (run_reversed-snoc fns f w), refl)

  -- What a signal does: it is logged, the callbacks run, and the process exits with 0.
  unfoldable pub on_signal : (String → W → W) → Signal → List (W → W) → W → List (W → W) × W × ℕ
  unfolding shutdown
  on_signal info signal fns w =
      let (left, w') = shutdown fns (info (name_of signal) w) in (left, w', 0)
