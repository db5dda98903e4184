-- ===== src/Build/Laws.antt =====
-- When the build script stops a build.
use rowdy.Prelude.{String, Bool, true, false, ◌&&◌, Option, none, some, ◌≡◌, ◌↔◌, refl, arith}
use rowdy.Build.{
  Console, main, check, not_nightly, too_old, unchecked, printerr, println, print_version_err,
  min_version, min_date,
}

-- Both streams take every text.
pub record Takes (c : Console) : Type 0 where
  pub stderr : (t : String) → c.stderr_takes t ≡ true
  pub stdout : (t : String) → c.stdout_takes t ≡ true

-- All three checks gave an answer, and one of the answers is no.
abbrev pub IsIncompatible : Option Bool → Option (Bool × String) → Option (Bool × String) → Type 0
IsIncompatible nightly version date =
    (n : Bool) × (ok_version : Bool) × (v : String) × (ok_date : Bool) × (d : String) × (nightly
      ≡ some n)
    × (version ≡ some (ok_version, v))
    × (date ≡ some (ok_date, d))
    × ((n && (ok_version && ok_date)) ≡ false)

module _ (c : Console) where
  not_nightly_aborts : (v d : String) → (not_nightly c v d).aborts ≡ true
  unfolding not_nightly printerr print_version_err
  not_nightly_aborts v d = ground arith

  too_old_aborts : (v d : String) → (too_old c v d).aborts ≡ true
  unfolding too_old printerr print_version_err
  too_old_aborts v d = ground arith

  unchecked_finishes : Takes c → (unchecked c).aborts ≡ false
  unfolding unchecked println
  unchecked_finishes takes =
      rw (takes.stdout "cargo:warning=rowdy was unable to check rustc compatibility.")
        (rw (takes.stdout "cargo:warning=Build may fail due to incompatible rustc version.") refl)

  check_iff :
      Takes c
      → (nightly : Option Bool) (version date : Option (Bool × String))
      → ((check c nightly version date).aborts ≡ true) ↔ IsIncompatible nightly version date
  unfolding check
  check_iff takes (some true) (some (true, v)) (some (true, d)) =
      (λ h. absurd (ground arith), λ (n, a, _, b, _, p, q, r, wrong). absurd (ground arith))
  check_iff takes (some true) (some (true, v)) (some (false, d)) =
      (λ _. (true, true, v, false, d, refl, refl, refl, refl), λ _. too_old_aborts v d)
  check_iff takes (some true) (some (false, v)) (some (e, d)) =
      (λ _. (true, false, v, e, d, refl, refl, refl, refl), λ _. too_old_aborts v d)
  check_iff takes (some false) (some (b, v)) (some (e, d)) =
      (λ _. (false, b, v, e, d, refl, refl, refl, refl), λ _. not_nightly_aborts v d)
  check_iff takes (some n) (some v) none = (
    λ h. absurd (ground (arith, unchecked_finishes takes)),
    λ (_, _, _, _, _, p, q, r, wrong). absurd (ground arith),
  )
  check_iff takes (some n) none d = (
    λ h. absurd (ground (arith, unchecked_finishes takes)),
    λ (_, _, _, _, _, p, q, r, wrong). absurd (ground arith),
  )
  check_iff takes none v d = (
    λ h. absurd (ground (arith, unchecked_finishes takes)),
    λ (_, _, _, _, _, p, q, r, wrong). absurd (ground arith),
  )

  -- Where both streams take what is written, the build script stops the build exactly if all three
  -- checks of the compiler gave an answer, and it is no nightly version, or older than the minimum
  -- version, or older than the minimum date.
  pub main-aborts_iff :
      Takes c
      → ((main c).aborts ≡ true)
        ↔ IsIncompatible c.is_nightly (c.is_min_version min_version) (c.is_min_date min_date)
  unfolding main
  main-aborts_iff takes =
      check_iff takes c.is_nightly (c.is_min_version min_version) (c.is_min_date min_date)
