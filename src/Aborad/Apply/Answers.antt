-- ===== src/Aborad/Apply/Answers.antt =====
-- When `apply_updates` of services/aborad/src/handlers.rs answers that a request was accepted.
use abora_framework.Common.{
  ◌≡◌, refl, Bool, true, false, List, Option, none, some, Result, ok, err, Text,
}
use abora_framework.Api.{ApiErrorDetail}
use abora_framework.Config.Settings.{Config}
use abora_framework.Config.Schedule.{LocalTime}
use abora_framework.Update.Apply.{ApplyRequest}
use abora_framework.Aborad.State.{UpdatesState, written, unblocked, request_apply}
use abora_framework.Aborad.Apply.{
  read_dry_run, caller_or_unknown, reply_of, reply_to, Reply, apply_updates,
}

-- An answer of 202 comes with a written request that it describes; all other replies write nothing.
abbrev pub Fits : Reply → Type 0
Fits (ok (code, response), none) = code ≡ 200
Fits (ok (code, response), some r) =
    (code ≡ 202)
    × (response.id ≡ some r.id)
    × (response.packages ≡ r.packages)
    × (response.dry_run ≡ false)
Fits (err e, none) = Unit
Fits (err e, some r) = ⊥

module _ (write : ApplyRequest → Result (Unit {0}) Text) (s : UpdatesState) (config : Config) where
  written-Fits :
      (r : ApplyRequest) (w : Result (Unit {0}) Text) → Fits (reply_of false (written r w))
  unfolding written reply_of
  written-Fits r (ok _) = (refl, refl, refl, refl)
  written-Fits r (err e) = tt

  unblocked-Fits :
      (r : ApplyRequest) (block : Option Text) → Fits (reply_of false (unblocked write r block))
  unfolding unblocked reply_of
  unblocked-Fits r (some reason) = tt
  unblocked-Fits r none = written-Fits r (write r)

  request_apply-Fits :
      (caller : Text) (dry_run pending : Bool) (time : Option LocalTime) (id now : Text)
      → Fits (reply_of dry_run (request_apply write s config caller dry_run pending time id now))
  unfolding request_apply reply_of
  request_apply-Fits caller true pending time id now = refl
  request_apply-Fits caller false pending time id now = unblocked-Fits _ _

  -- The route answers 202 exactly when it writes a request, whose id and packages it reports. It
  -- answers 200 only where it writes nothing, and an error only where it writes nothing.
  pub apply_updates-Fits :
      (caller : Option Text) (pending : Bool) (time : Option LocalTime) (id now : Text)
      (params : List (Text × Text))
      → Fits (apply_updates write s config caller pending time id now params)
  unfolding apply_updates
  apply_updates-Fits caller pending time id now params = go (read_dry_run params false)
    where
      go :
          (r : Result Bool ApiErrorDetail)
          → Fits (reply_to write s config caller pending time id now r)
      go (err e) = tt
      go (ok dry_run) = request_apply-Fits (caller_or_unknown caller) dry_run pending time id now
