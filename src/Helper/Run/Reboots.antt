-- ===== src/Helper/Run/Reboots.antt =====
-- When `run` reboots the machine, and in which order it ends.
use abora_framework.Common.{
  ◌≢◌, ◌≡◌, refl, sym, ap, arith, Bool, true, false, List, [], ◌∷◌, ◌++◌, append_assoc, append-nil,
  Option, none, some, Result, ok, err, Text, All, All-mono, All-append, ◌⊎◌, inl, inr, Bool-cases,
}
use abora_framework.Helper.{Event, command, write_result, remove_request, Ctx, Outcome, State}
use abora_framework.Helper.Process.{process, run_command}
use abora_framework.Helper.Process.Commands.{IsAllowed, process-IsAllowed}
use abora_framework.Helper.Process.Outcomes.{MayReboot, IsAnswer, process_answers}
use abora_framework.Helper.Run.{systemctl, reboot_args, after_write, carry_out, run}

reboot_if : Bool → List Event
reboot_if true = command systemctl reboot_args ∷ []
reboot_if false = []

-- What `run` does after `process`, where the flag tells whether the result could be written.
pub ending : Option Outcome → Bool → List Event
unfolding reboot_if
ending none written = []
ending (some o) false = write_result o.result ∷ []
ending (some o) true = write_result o.result ∷ remove_request ∷ reboot_if o.reboot

abbrev is_ok : Result (Unit {0}) Text → Bool
is_ok (ok _) = true
is_ok (err e) = false

module _ {W : Type 0} (ctx : Ctx W) where
  -- Whether the result of this outcome can be written, where there is one.
  pub can_write : Option Outcome × State W → Bool
  can_write (none, s) = true
  can_write (some o, s) = is_ok (ctx.write_atomic o.result s.world).0

  after_write-events :
      (o : Outcome) (result : Result (Unit {0}) Text) (s : State W)
      → (after_write ctx o result
          (record s { events = s.events ++ write_result o.result ∷ [] })).1.events
        ≡ s.events ++ ending (some o) (is_ok result)
  unfolding after_write ending run_command
  after_write-events o (err e) s = refl
  after_write-events o (ok _) s = elim (Bool-cases o.reboot) [
    | inl e ↦ simp (e, append_assoc)
    | inr e ↦ simp (e, append_assoc)
  ]

  carry_out-events :
      (p : Option Outcome × State W)
      → (carry_out ctx p).1.events ≡ p.1.events ++ ending p.0 (can_write p)
  unfolding carry_out can_write ending
  carry_out-events (none, s) = sym (append-nil s.events)
  carry_out-events (some o, s) =
      let (result, world) = ctx.write_atomic o.result s.world in
      after_write-events o result (record s { world = world })

  -- The result is written first; only then is the request removed; and only then, where the outcome
  -- asks for it, is the machine rebooted. A result that cannot be written ends the run.
  pub run-events :
      (s : State W)
      → (run ctx s).1.events
        ≡ (process ctx s).1.events ++ ending (process ctx s).0 (can_write (process ctx s))
  unfolding run
  run-events s = carry_out-events (process ctx s)

  -- Some packages are installed, and then the machine may be rebooted.
  abbrev pub MayRebootAfter : W → Type 0
  MayRebootAfter world = (packages : List Text) × MayReboot ctx world packages

  abbrev RebootIsAllowed : W → Event → Type 0
  RebootIsAllowed world e = (e ≢ command systemctl reboot_args) ⊎ MayRebootAfter world

  allowed-RebootIsAllowed :
      (world : W) (e : Event) → IsAllowed ctx world e → RebootIsAllowed world e
  allowed-RebootIsAllowed world e (inl is) = inl (λ same. absurd (ground arith))
  allowed-RebootIsAllowed world e (inr install) =
      inl (λ same. absurd (ground (arith, install.event_is)))

  reboot_if-All :
      (world : W) (packages : List Text) (b : Bool)
      → (b ≡ false) ⊎ MayReboot ctx world packages
      → All (RebootIsAllowed world) (reboot_if b)
  unfolding reboot_if
  reboot_if-All world packages true (inl calm) = cc
  reboot_if-All world packages true (inr may) = (inr (packages, may), tt)
  reboot_if-All world packages false h = tt

  ending-RebootIsAllowed :
      (world : W) (o : Option Outcome) (written : Bool)
      → ((o ≡ none) ⊎ IsAnswer ctx world o)
      → All (RebootIsAllowed world) (ending o written)
  unfolding ending reboot_if
  ending-RebootIsAllowed world none written h = tt
  ending-RebootIsAllowed world (some o) false h = (inl (λ e. cc), tt)
  ending-RebootIsAllowed world (some o) true (inl h) = cc
  ending-RebootIsAllowed world (some o) true (inr h) = (
    inl (λ e. cc),
    (inl (λ e. cc), reboot_if-All world o.result.packages o.reboot h.reboot_allowed),
  )

  -- From a state in which nothing was done yet, no event of `run` is the reboot command, or the reboot
  -- policy permits a reboot at the local time that is read right after the clock, and the marker asks
  -- for one in the world that the simulation and an install of some packages then leave.
  pub run_reboots :
      (s : State W)
      → s.events ≡ []
      → All
          (λ e. (e ≢ command systemctl reboot_args) ⊎ MayRebootAfter (ctx.now s.world).1)
          (run ctx s).1.events
  run_reboots s fresh =
      let world = (ctx.now s.world).1 in
      let before = process-IsAllowed ctx s fresh in
      rw (run-events s) (
        All-append (RebootIsAllowed world) (process ctx s).1.events _
          (All-mono (IsAllowed ctx world) (RebootIsAllowed world) (process ctx s).1.events
            (allowed-RebootIsAllowed world) before)
          (ending-RebootIsAllowed world (process ctx s).0 (can_write (process ctx s))
            (elim (process_answers ctx s) [
              | inl (e, _, nothing) ↦ inl (ap (λ p. p.0) nothing)
              | inr (node, _, answer) ↦ inr answer
            ])))
