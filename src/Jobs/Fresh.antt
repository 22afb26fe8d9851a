-- ===== src/Jobs/Fresh.antt =====
-- A new scheduler.
use gwf.Common.{String, refl, Option, Result, ok, err, lookup, subst, ◌≡◌}
use gwf.Coord.{Mode, undeclared, inproc, crossproc}
use gwf.Jobs.{Provider, Scheduler, JobError, new_service_as}
use gwf.Jobs.Add.Boxes.{IsValid}

-- A scheduler, if there is one, is valid.
abbrev IsMade : {W : Type 0} → Result JobError (Scheduler W) → Type 0
IsMade (ok s) = IsValid s
IsMade (err e) = Unit

module _ {W : Type 0} where
  new_service_as-IsMade :
      (name : String) (mode : Mode) (provider : Option (Provider W))
      → IsMade (new_service_as name mode provider)
  unfolding new_service_as lookup
  new_service_as-IsMade name undeclared provider = tt
  new_service_as-IsMade name inproc provider = record {
    distinct_per_instance = tt;
    distinct_per_app = tt;
    apart = λ id h. cc;
    ledger_first = λ h. (refl, refl);
  }
  new_service_as-IsMade name crossproc provider = record {
    distinct_per_instance = tt;
    distinct_per_app = tt;
    apart = λ id h. cc;
    ledger_first = λ h. (refl, refl);
  }

  pub new_service_as-IsValid :
      (name : String) (mode : Mode) (provider : Option (Provider W)) (s : Scheduler W)
      → new_service_as name mode provider ≡ ok s
      → IsValid s
  new_service_as-IsValid name mode provider s h =
      subst IsMade h (new_service_as-IsMade name mode provider)
