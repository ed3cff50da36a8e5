-- ===== src/Helper/Process/Commands.antt =====
-- Which commands `process` runs, and under which conditions.
use abora_framework.Common.{
  ℕ, ◌≡◌, ◌≢◌, refl, true, not, List, [], ◌∷◌, map, Option, none, some, Result, ok, err, if_elim,
  not-eq-false, Text, text_eq, text_eq_iff, filter, any→Some, filter-All, All-filter, All,
  All-append, All-mono, Some, ◌⊎◌, inl, inr,
}
use abora_framework.Config.Schedule.{Permissions, permissions}
use abora_framework.Update.Host.{PackageUpgrade, parse_simulation}
use abora_framework.Update.Apply.{
  ApplyRequest, FileNode, ReadError, RequestError, max_request_age, validate_request, install_args,
  read_regular_file,
}
use abora_framework.Helper.{Event, command, Ctx, State, apt_get, simulate_args}
use abora_framework.Helper.Process.{
  contains, run_command, fail, installed, planned, simulated, policed, checked, parsed, received,
  present, process,
}

contains→Some : (xs : List Text) (p : Text) → contains xs p ≡ true → Some (λ x. x ≡ p) xs
contains→Some xs p = any→Some (λ x. x ≡ p) (λ x. text_eq x p) xs (λ x. (text_eq_iff x p).0)

Some-map :
    {A B : Type 0} (f : A → B) (P : B → Type 0) (xs : List A)
    → Some P (map f xs)
    → Some (λ x. P (f x)) xs
Some-map f P [] s = absurd s
Some-map f P (x ∷ xs) (inl s) = inl s
Some-map f P (x ∷ xs) (inr s) = inr (Some-map f P xs s)

-- Every element is in the list.
abbrev pub IsWithin : List Text → List Text → Type 0
IsWithin xs ys = All (λ x. Some (λ y. y ≡ x) ys) xs

IsWithin-self : (xs : List Text) → IsWithin xs xs
IsWithin-self [] = tt
IsWithin-self (x ∷ xs) = (inl refl, All-mono _ _ xs (λ y s. inr s) (IsWithin-self xs))

module _ {W : Type 0} (ctx : Ctx W) where
  -- A request that stands in a fresh, regular, small file of this world, and is valid.
  pub record IsReceived (world : W) (request : ApplyRequest) : Type 0 where
    pub bytes : List ℕ
    pub read : read_regular_file (ctx.request_node world) (some max_request_age) ≡ ok bytes
    pub parsed : ctx.from_slice bytes ≡ some request
    pub valid : validate_request request ≡ ok tt

  -- The policy permits an apply at the local time that is read in this world.
  abbrev pub IsPermitted : W → Type 0
  IsPermitted world = (permissions ctx.config (ctx.local_time world).0).apply_permitted ≡ true

  -- An install of some requested packages that the simulation lists as upgradable. The request and
  -- the local time are read in this world, and the simulation runs right after.
  pub record IsInstall (world : W) (e : Event) : Type 0 where
    pub request : ApplyRequest
    pub output : Text
    pub todo : List Text
    pub event_is : e ≡ command apt_get (install_args todo)
    pub is_received : IsReceived world request
    pub is_permitted : IsPermitted world
    pub simulation : (ctx.runner apt_get simulate_args (ctx.local_time world).1).0 ≡ ok output
    pub some_package : todo ≢ []
    pub requested : IsWithin todo request.packages
    pub upgradable :
        All (λ p. Some (λ (u : PackageUpgrade). u.name ≡ p) (parse_simulation output)) todo

  abbrev pub IsAllowed : W → Event → Type 0
  IsAllowed world e = (e ≡ command apt_get simulate_args) ⊎ IsInstall world e

  installed-events :
      (request : ApplyRequest) (started : Text) (perms : Permissions) (todo gone : List Text)
      (result : Result Text Text) (s : State W)
      → (installed ctx request started perms todo gone result s).1.events ≡ s.events
  unfolding installed fail
  installed-events request started perms todo gone (ok out) s = refl
  installed-events request started perms todo gone (err e) s = refl

  planned-All :
      (P : Event → Type 0) (request : ApplyRequest) (started : Text) (perms : Permissions)
      (todo gone : List Text) (s : State W)
      → All P s.events
      → (todo ≢ [] → P (command apt_get (install_args todo)))
      → All P (planned ctx request started perms todo gone s).1.events
  unfolding planned run_command
  planned-All P request started perms [] gone s h k = h
  planned-All P request started perms (p ∷ ps) gone s h k =
      let (result, s') = run_command ctx apt_get (install_args (p ∷ ps)) s in
      rw (installed-events request started perms (p ∷ ps) gone result s')
        (All-append P s.events _ h (k (λ e. cc), tt))

  simulated-All :
      (request : ApplyRequest) (started : Text) (perms : Permissions) (result : Result Text Text)
      (world : W) (s : State W)
      → (ctx.runner apt_get simulate_args (ctx.local_time world).1).0 ≡ result
      → IsReceived world request
      → IsPermitted world
      → All (IsAllowed world) s.events
      → All (IsAllowed world) (simulated ctx request started perms result s).1.events
  unfolding simulated fail
  simulated-All request started perms (err e) world s same r p h = h
  simulated-All request started perms (ok output) world s same r p h =
      let names = map (λ (u : PackageUpgrade). u.name) (parse_simulation output) in
      let todo = filter (contains names) request.packages in
      planned-All (IsAllowed world) request started perms todo _ s h (λ some_package. inr (record {
        request = request;
        output = output;
        todo = todo;
        event_is = refl;
        is_received = r;
        is_permitted = p;
        simulation = same;
        some_package = some_package;
        requested = All-filter _ (contains names) request.packages (IsWithin-self request.packages);
        upgradable =
            All-mono _ _ todo
              (λ q c.
                Some-map (λ (u : PackageUpgrade). u.name) _ (parse_simulation output)
                  (contains→Some names q c))
              (filter-All (contains names) request.packages);
      }))

  policed-All :
      (request : ApplyRequest) (started : Text) (s : State W)
      → IsReceived s.world request
      → All (IsAllowed s.world) s.events
      → All
          (IsAllowed s.world)
          (policed ctx request started
            (permissions ctx.config (ctx.local_time s.world).0)
            (record s { world = (ctx.local_time s.world).1 })).1.events
  unfolding policed fail run_command
  policed-All request started s r h =
      let perms = permissions ctx.config (ctx.local_time s.world).0 in
      let before : State W = record s { world = (ctx.local_time s.world).1 } in
      let (result, after) = run_command ctx apt_get simulate_args before in
      if_elim (λ o. All (IsAllowed s.world) o.1.events) (not perms.apply_permitted) _
        (simulated ctx request started perms result after) (λ _. h)
        (λ closed.
          simulated-All request started perms result s.world after refl r
            (not-eq-false perms.apply_permitted closed)
            (All-append (IsAllowed s.world) s.events _ h (inl refl, tt)))

  checked-All :
      (request : ApplyRequest) (started : Text) (result : Result (Unit {0}) RequestError)
      (s : State W)
      → validate_request request ≡ result
      → (validate_request request ≡ ok tt → IsReceived s.world request)
      → All (IsAllowed s.world) s.events
      → All (IsAllowed s.world) (checked ctx request started result s).1.events
  unfolding checked fail
  checked-All request started (err e) s v r h = h
  checked-All request started (ok _) s v r h = policed-All request started s (r v) h

  received-All :
      (started : Text) (result : Result (List ℕ) ReadError) (s : State W)
      → read_regular_file (ctx.request_node s.world) (some max_request_age) ≡ result
      → All (IsAllowed s.world) s.events
      → All (IsAllowed s.world) (received ctx started result s).1.events
  unfolding received fail
  received-All started (err e) s read h = h
  received-All started (ok bytes) s read h = go (ctx.from_slice bytes) refl
    where
      go :
          (o : Option ApplyRequest)
          → ctx.from_slice bytes ≡ o
          → All (IsAllowed s.world) (parsed ctx started o s).1.events
      go none _ = unfold parsed in h
      go (some request) e =
          unfold parsed in
          checked-All request started (validate_request request) s refl
            (λ v. record { bytes = bytes; read = read; parsed = e; valid = v }) h

  -- Where no command was run before `process`, each command that it runs is allowed, whatever the
  -- file holds and the commands answer: it is the fixed simulation, or an install of packages that a
  -- fresh, valid request names and that the simulation lists as upgradable, at a local time at which
  -- the policy permits an apply. The file and the local time are read right after the clock, and the
  -- simulation is run right after these.
  pub process-IsAllowed :
      (s : State W) → s.events ≡ [] → All (IsAllowed (ctx.now s.world).1) (process ctx s).1.events
  unfolding process
  process-IsAllowed s fresh = go (ctx.request_node s.world)
    where
      go :
          (node : Result FileNode Text)
          → All (IsAllowed (ctx.now s.world).1) (present ctx node s).1.events
      go (err e) = rw fresh tt
      go (ok node) =
          received-All (ctx.now s.world).0 _ (record s { world = (ctx.now s.world).1 }) refl
            (rw fresh tt)
