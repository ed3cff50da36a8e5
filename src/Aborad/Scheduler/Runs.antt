-- ===== src/Aborad/Scheduler/Runs.antt =====
-- Any number of turns of services/aborad/src/scheduler.rs: the helper accepts what they request.
use abora_framework.Common.{
  ℕ, ◌≤◌, ◌≡◌, sym, subst, arith, true, List, All, Option, some, Result, ok, Text, length,
}
use abora_framework.Update.Apply.{
  ApplyRequest, ApplyResult, max_packages, valid_request_id, validate_request,
}
use abora_framework.Update.Host.Provider.Checks.{HasValidName}
use abora_framework.Update.Store.{StoreData, StoreError, UpdateStore}
use abora_framework.Update.Host.{valid_package_name}
use abora_framework.Update.Apply.Requests.{validate_request_iff}
use abora_framework.Aborad.State.Packages.{length-requested_packages, All-requested_packages}
use abora_framework.Aborad.Updates.{Updates, first_updates}
use abora_framework.Aborad.Scheduler.{Schedule, Turn, first_schedule, turn}
use abora_framework.Aborad.Scheduler.Turns.{turn-IsAutomatic, turn-HasValidName}

module _ (save : Text → StoreData → Result (Unit {0}) StoreError)
    (from_slice : List ℕ → Option ApplyResult) (write : ApplyRequest → Result (Unit {0}) Text) where
  -- What the loop comes to in any number of turns, each with a world of its own.
  pub data Reached : Schedule → Updates → Type 0 where
    first : (store : UpdateStore) → Reached first_schedule (first_updates store)
    next :
        (t : Turn) (s : Schedule) (u : Updates)
        → Reached s u
        → Reached (turn save from_slice write t s u).0 (turn save from_slice write t s u).1

  Reached-HasValidName :
      {s : Schedule} {u : Updates} → Reached s u → All HasValidName u.state.available
  Reached-HasValidName (first store) = tt
  Reached-HasValidName (next t s u r) =
      turn-HasValidName save from_slice write t s u (Reached-HasValidName r)

  -- From the start of the daemon on, the helper accepts every request that a turn writes: whatever
  -- apt-get, the helper's results and the clocks said before, where a new id is valid and the list of
  -- the last check has at most 2000 updates.
  pub turn-IsValid :
      (t : Turn) (s : Schedule) (u : Updates) (r : ApplyRequest)
      → Reached s u
      → valid_request_id t.id ≡ true
      → length (turn save from_slice write t s u).1.state.available ≤ max_packages
      → (turn save from_slice write t s u).2 ≡ some r
      → validate_request r ≡ ok tt
  turn-IsValid t s u r reached i few h =
      let done = turn-IsAutomatic save from_slice write t s u r h in
      let listed = (turn save from_slice write t s u).1.state.available in
      let names = turn-HasValidName save from_slice write t s u (Reached-HasValidName reached) in
      (validate_request_iff r).1 (record {
        id_valid = subst (λ id. valid_request_id id ≡ true) (sym done.id_is) i;
        some_package = done.some_package;
        few_packages =
            subst (λ ps. length ps ≤ max_packages) (sym done.packages_are)
              (omega (arith, length-requested_packages listed, few));
        names_valid =
            subst (All (λ p. valid_package_name p ≡ true)) (sym done.packages_are)
              (All-requested_packages _ listed names);
      })
