-- ===== src/Environment/Results.antt =====
-- libs/domain/environment.go: the Environments that Activate and UpdateHealth return.
use sshai.Base.{◌≡◌, inl, inr, Time, ap, inc_int64, ok, refl}
use sshai.Environment.Snapshot.{
  creating, active, EnvironmentHealth, EnvironmentSnapshot, Environment,
}
use sshai.Environment.Operations.{activate, update_health}
use sshai.Environment.Cases.{activate-cases, update_health-cases}
use sshai.Environment.Invariant.{finalize-eq}

pub activate-eq :
    (e : Environment) (at : Time) {e' : Environment}
    → activate e at ≡ ok e'
    → (e.snapshot.lifecycle ≡ creating)
      × (e'.snapshot ≡ record e.snapshot {
        lifecycle = active;
        updated_at = at;
        version = inc_int64 e.snapshot.version;
      })
activate-eq e at h = elim (activate-cases e at h) [
  | inl (same, none_yet) ↦ absurd none_yet
  | inr (accepts, admits, done) ↦ (admits, finalize-eq _ _ done)
]

-- Beside the health only the time and the version change.
pub update_health-kept :
    (e : Environment) (verdict : EnvironmentHealth) (at : Time) {e' : Environment}
    → update_health e verdict at ≡ ok e'
    → (e'.snapshot.health ≡ verdict)
      × (record e'.snapshot {
        health = e.snapshot.health;
        updated_at = e.snapshot.updated_at;
        version = e.snapshot.version;
      }
          ≡ e.snapshot)
update_health-kept e verdict at h = elim (update_health-cases e verdict at h) [
  | inl (same, repeats) ↦ (rw same repeats.0, rw same refl)
  | inr (accepts, admits, done) ↦
      let q = finalize-eq _ _ done in
      (
        ap (λ (s : EnvironmentSnapshot). s.health) q,
        ap
            (λ (s : EnvironmentSnapshot). record s {
              health = e.snapshot.health;
              updated_at = e.snapshot.updated_at;
              version = e.snapshot.version;
            })
            q,
      )
]
