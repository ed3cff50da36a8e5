-- ===== src/Aborad/Apply.antt =====
-- `apply_updates` of services/aborad/src/handlers.rs. The query parameters are read in the order of the
-- list; the status code stands before the body.
pub mod Answers
mod Tests
use abora_framework.Common.{
  ℕ, Bool, true, false, List, [], ◌∷◌, ◌++◌, Option, none, some, Result, ok, err, ◌>>=◌, Text,
  codes, text_eq, if◌then◌else◌,
}
use abora_framework.Api.{ErrorCode, ApiErrorDetail, error_body, internal}
use abora_framework.Config.Settings.{Config}
use abora_framework.Config.Schedule.{LocalTime}
use abora_framework.Update.Apply.{ApplyRequest}
use abora_framework.Aborad.State.{
  UpdatesState, ApplyResponse, ApplyRefusal, conflict, Answer, request_apply,
}
use abora_framework.Aborad.Queries.{bad_request}

dry_run_of : Text → Text → Result Bool ApiErrorDetail
dry_run_of key value =
    if text_eq key (codes "dry_run")
    then if text_eq value (codes "true")
      then ok true
      else if text_eq value (codes "false")
      then ok false
      else err
          (bad_request (codes "`dry_run` must be true or false (got `" ++ (value ++ codes "`)")))
    else err (bad_request (codes "unknown query parameter `" ++ (key ++ codes "`")))

-- the loop over the parameters
pub read_dry_run : List (Text × Text) → Bool → Result Bool ApiErrorDetail
unfolding dry_run_of
read_dry_run [] dry_run = ok dry_run
read_dry_run ((key, value) ∷ params) dry_run = dry_run_of key value >>= λ d. read_dry_run params d

abbrev caller_or_unknown : Option Text → Text
caller_or_unknown none = codes "unknown"
caller_or_unknown (some caller) = caller

abbrev pub Reply : Type 0
Reply = Result (ℕ × ApplyResponse) ApiErrorDetail × Option ApplyRequest

reply_of : Bool → Answer → Reply
reply_of dry_run (ok response, request) = (ok (if dry_run then 200 else 202, response), request)
reply_of dry_run (err (conflict reason), request) =
    (err (error_body ErrorCode.conflict reason), request)
reply_of dry_run (err (ApplyRefusal.internal message), request) =
    (err (error_body internal (codes "could not hand the request to the update helper")), request)

module _ (write : ApplyRequest → Result (Unit {0}) Text) (s : UpdatesState) (config : Config)
    (caller : Option Text) (pending : Bool) (time : Option LocalTime) (id now : Text) where
  abbrev reply_to : Result Bool ApiErrorDetail → Reply
  reply_to (err e) = (err e, none)
  reply_to (ok dry_run) =
      reply_of dry_run
        (request_apply write s config (caller_or_unknown caller) dry_run pending time id now)

  -- with the request that is written, if one is
  unfoldable pub apply_updates : List (Text × Text) → Reply
  unfolding reply_of
  apply_updates params = reply_to (read_dry_run params false)
