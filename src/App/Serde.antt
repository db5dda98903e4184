-- ===== src/App/Serde.antt =====
-- src/serde_custom/duration.rs: durations as seconds.
use rowdy.Prelude.{ℕ, Result, ok, ◌>>=◌, ◌≡◌, ◌↔◌, refl, arith}
use rowdy.Crates.{ForeignError}
use rowdy.Crates.World.{Duration}

-- The serializer's `serialize_u64` and the reader of a `u64` are parameters.
unfoldable pub serialize {ℓ} : {A : Type ℓ} → (ℕ → A) → Duration → A
serialize serialize_u64 duration = serialize_u64 duration.secs

unfoldable pub deserialize : Result ForeignError ℕ → Result ForeignError Duration
deserialize read = do duration ← read; ok (record { secs = duration; nanos = 0 })

-- A duration that is written and read back keeps its seconds and loses its nanoseconds: it is
-- the same exactly if it had none.
pub deserialize-serialize :
    (d : Duration)
    → (deserialize (serialize (λ n. ok n) d) ≡ ok (record d { nanos = 0 }))
      × ((deserialize (serialize (λ n. ok n) d) ≡ ok d) ↔ (d.nanos ≡ 0))
unfolding deserialize serialize
deserialize-serialize d = (refl, (λ h. ground arith, λ h. ground arith))
