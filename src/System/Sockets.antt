-- ===== src/System/Sockets.antt =====
-- The socket of a logical core.
use fgen.Prelude.{ℕ, ◌≤◌, ◌<◌, ◌≡◌, Bool, true, false, ◌⊎◌}

-- The first place from `first` on that has the core, below the end; or none has it and the answer
-- is 0.
abbrev FirstOr0 : ℕ → ℕ → (ℕ → Bool) → ℕ → Type 0
FirstOr0 first end has_cpu r =
    ((has_cpu r ≡ true)
      × (first ≤ r)
      × (r < end)
      × ((j : ℕ) → first ≤ j → j < r → has_cpu j ≡ false))
    ⊎ ((r ≡ 0) × ((j : ℕ) → first ≤ j → j < end → has_cpu j ≡ false))
