-- ===== src/Helper/Process/Outcomes.antt =====
-- What holds of every outcome that `process` reports.
use abora_framework.Common.{
  Bool-cases, ◌&&◌, ℕ, ◌≡◌, refl, true, false, not, List, [], ◌∷◌, Option, none, some, Result, ok,
  err, Text, codes, ◌⊎◌, inl, inr, if_elim, subst, ap, &&-eq-true,
}
use abora_framework.Config.Schedule.{Permissions, permissions}
use abora_framework.Update.Apply.{
  ApplyRequest, FileNode, ReadError, RequestError, valid_request_id, validate_request, install_args,
}
use abora_framework.Update.Apply.Requests.{validate_request_iff}
use abora_framework.Helper.{Ctx, Outcome, State, apt_get, simulate_args}
use abora_framework.Helper.Process.{
  refuse, run_command, fail, installed, planned, simulated, policed, checked, parsed, received,
  present, process,
}

abbrev pub HasKnownId : Text → Type 0
HasKnownId id = (id ≡ codes "invalid") ⊎ (valid_request_id id ≡ true)

module _ {W : Type 0} (ctx : Ctx W) where
  -- the world after the local time and the simulation
  abbrev pub after_simulation : W → W
  after_simulation world = (ctx.runner apt_get simulate_args (ctx.local_time world).1).1

  -- the world after the install of these packages
  abbrev pub after_install : W → List Text → W
  after_install world packages =
      (ctx.runner apt_get (install_args packages) (after_simulation world)).1

  -- The reboot policy permits a reboot at the local time that is read in this world, and the system
  -- asks for one after these packages are installed.
  pub record MayReboot (world : W) (packages : List Text) : Type 0 where
    pub permitted : (permissions ctx.config (ctx.local_time world).0).reboot_permitted ≡ true
    pub marked : ctx.reboot_marker_exists (after_install world packages) ≡ true

  pub record IsConsistent (world : W) (o : Outcome) : Type 0 where
    pub id_known : HasKnownId o.result.id
    pub reboot_reported : o.result.reboot_started ≡ o.reboot
    pub failure_changes_nothing :
        (o.result.succeeded ≡ true) ⊎ ((o.result.packages ≡ []) × (o.reboot ≡ false))
    pub reboot_allowed : (o.reboot ≡ false) ⊎ MayReboot world o.result.packages

  -- There is an outcome, and it is consistent.
  abbrev pub IsAnswer : W → Option Outcome → Type 0
  IsAnswer world none = ⊥
  IsAnswer world (some o) = IsConsistent world o

  fail-IsAnswer :
      (id started note : Text) (world : W) (s : State W)
      → HasKnownId id
      → IsAnswer world (fail ctx id started note s).0
  unfolding fail refuse
  fail-IsAnswer id started note world s k = record {
    id_known = k;
    reboot_reported = refl;
    failure_changes_nothing = inr (refl, refl);
    reboot_allowed = inl refl;
  }

  installed-IsAnswer :
      (request : ApplyRequest) (started : Text) (perms : Permissions) (todo gone : List Text)
      (result : Result Text Text) (world : W) (s : State W)
      → HasKnownId request.id
      → perms ≡ permissions ctx.config (ctx.local_time world).0
      → s.world ≡ after_install world todo
      → IsAnswer world (installed ctx request started perms todo gone result s).0
  unfolding installed
  installed-IsAnswer request started perms todo gone (err e) world s k p w =
      fail-IsAnswer request.id started _ world s k
  installed-IsAnswer request started perms todo gone (ok out) world s k p w = record {
    id_known = k;
    reboot_reported = refl;
    failure_changes_nothing = inl refl;
    reboot_allowed =
        elim (Bool-cases (ctx.reboot_marker_exists s.world && perms.reboot_permitted)) [
          | inr calm ↦ inl calm
          | inl e ↦ inr (record {
            permitted =
                subst (λ (q : Permissions). q.reboot_permitted ≡ true) p
                  (&&-eq-true _ perms.reboot_permitted e).1;
            marked =
                subst (λ v. ctx.reboot_marker_exists v ≡ true) w
                  (&&-eq-true (ctx.reboot_marker_exists s.world) _ e).0;
          })
        ];
  }

  planned-IsAnswer :
      (request : ApplyRequest) (started : Text) (perms : Permissions) (todo gone : List Text)
      (world : W) (s : State W)
      → HasKnownId request.id
      → perms ≡ permissions ctx.config (ctx.local_time world).0
      → s.world ≡ after_simulation world
      → IsAnswer world (planned ctx request started perms todo gone s).0
  unfolding planned refuse run_command
  planned-IsAnswer request started perms [] gone world s k p w = record {
    id_known = k;
    reboot_reported = refl;
    failure_changes_nothing = inl refl;
    reboot_allowed = inl refl;
  }
  planned-IsAnswer request started perms (q ∷ qs) gone world s k p w =
      let (result, s') = run_command ctx apt_get (install_args (q ∷ qs)) s in
      installed-IsAnswer request started perms (q ∷ qs) gone result world s' k p
        (ap (λ v. (ctx.runner apt_get (install_args (q ∷ qs)) v).1) w)

  simulated-IsAnswer :
      (request : ApplyRequest) (started : Text) (perms : Permissions) (result : Result Text Text)
      (world : W) (s : State W)
      → HasKnownId request.id
      → perms ≡ permissions ctx.config (ctx.local_time world).0
      → s.world ≡ after_simulation world
      → IsAnswer world (simulated ctx request started perms result s).0
  unfolding simulated
  simulated-IsAnswer request started perms (err e) world s k p w =
      fail-IsAnswer request.id started _ world s k
  simulated-IsAnswer request started perms (ok output) world s k p w =
      planned-IsAnswer request started perms _ _ world s k p w

  policed-IsAnswer :
      (request : ApplyRequest) (started : Text) (s : State W)
      → HasKnownId request.id
      → IsAnswer s.world
          (policed ctx request started
            (permissions ctx.config (ctx.local_time s.world).0)
            (record s { world = (ctx.local_time s.world).1 })).0
  unfolding policed run_command
  policed-IsAnswer request started s k =
      let perms = permissions ctx.config (ctx.local_time s.world).0 in
      let before : State W = record s { world = (ctx.local_time s.world).1 } in
      let (result, after) = run_command ctx apt_get simulate_args before in
      if_elim (λ o. IsAnswer s.world o.0) (not perms.apply_permitted) _
        (simulated ctx request started perms result after)
        (λ _. fail-IsAnswer request.id started _ s.world before k)
        (λ _. simulated-IsAnswer request started perms result s.world after k refl refl)

  checked-IsAnswer :
      (request : ApplyRequest) (started : Text) (result : Result (Unit {0}) RequestError)
      (s : State W)
      → validate_request request ≡ result
      → IsAnswer s.world (checked ctx request started result s).0
  unfolding checked
  checked-IsAnswer request started (err e) s v = fail-IsAnswer _ started _ s.world s (
      if_elim HasKnownId (valid_request_id request.id) request.id (codes "invalid") inr
        (λ _. inl refl))
  checked-IsAnswer request started (ok _) s v =
      policed-IsAnswer request started s (inr ((validate_request_iff request).0 v).id_valid)

  parsed-IsAnswer :
      (started : Text) (o : Option ApplyRequest) (s : State W)
      → IsAnswer s.world (parsed ctx started o s).0
  unfolding parsed
  parsed-IsAnswer started none s = fail-IsAnswer (codes "invalid") started _ s.world s (inl refl)
  parsed-IsAnswer started (some request) s =
      checked-IsAnswer request started (validate_request request) s refl

  received-IsAnswer :
      (started : Text) (result : Result (List ℕ) ReadError) (s : State W)
      → IsAnswer s.world (received ctx started result s).0
  unfolding received
  received-IsAnswer started (err e) s =
      fail-IsAnswer (codes "invalid") started _ s.world s (inl refl)
  received-IsAnswer started (ok bytes) s = parsed-IsAnswer started (ctx.from_slice bytes) s

  -- Either no request waits, and nothing is done, or the request is answered by an outcome: it has a
  -- valid id or the word `invalid`, it reports the reboot that it asks for, a failure names no
  -- packages and asks for no reboot, and it asks for no reboot unless the policy permits one at the
  -- local time that is read right after the clock, and the marker asks for one in the world that the
  -- simulation and the install of the outcome's packages leave.
  pub process_answers :
      (s : State W)
      → ((e : Text) × (ctx.request_node s.world ≡ err e) × (process ctx s ≡ (none, s)))
        ⊎ ((node : FileNode) × (ctx.request_node s.world ≡ ok node)
            × IsAnswer (ctx.now s.world).1 (process ctx s).0)
  unfolding process
  process_answers s = go (ctx.request_node s.world) refl
    where
      go :
          (node : Result FileNode Text)
          → ctx.request_node s.world ≡ node
          → ((e : Text) × (ctx.request_node s.world ≡ err e) × (present ctx node s ≡ (none, s)))
            ⊎ ((n : FileNode) × (ctx.request_node s.world ≡ ok n)
                × IsAnswer (ctx.now s.world).1 (present ctx node s).0)
      go (err e) same = inl (e, same, refl)
      go (ok node) same = inr (node, same, received-IsAnswer (ctx.now s.world).0 _ _)
