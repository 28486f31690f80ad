-- ===== src/Recovery/Allowed.antt =====
-- The actions that recovery may take on a host, whatever the metadata says: an allow list, and a rule
-- for each way to build a step that keeps to it.
use tunwarden.Prelude.{
  String, ◌≡◌, refl, ◌⊎◌, Bool, true, false, ℤ, int_eq, Option, none, some, List, [], ◌∷◌, ◌++◌,
  All, All-append, All-map, ap, sym, append-nil, append_assoc, ◌∙◌, if◌then◌else◌,
}
use tunwarden.Text.{int_text}
use tunwarden.Netip.{is_ipv4_host}
use tunwarden.Recovery.Host.{
  Action, looked_up, ran, removed_all, removed, loaded, Env, M, ◌>>=◌, pure, look_path, run_command,
  remove_all, remove, load_transaction,
}
use tunwarden.Recovery.Command.{run, run_found}
use tunwarden.Recovery.Results.{is_managed_nft_target, is_transaction_path, is_under_dir}
use tunwarden.Recovery.Os.{selector, generated_dir}

-- the command lines that recovery may run
pub data AllowedArgs : List String → Type 0 where
  delete_link : AllowedArgs ("link" ∷ "del" ∷ "dev" ∷ "podlaz0" ∷ [])
  delete_table :
      (family table : String)
      → is_managed_nft_target family table ≡ true
      → AllowedArgs ("delete" ∷ "table" ∷ family ∷ table ∷ [])
  revert_dns : AllowedArgs ("revert" ∷ "podlaz0" ∷ [])
  -- a rule that looks up the program's own table
  delete_own_rule :
      (priority : ℤ) (from to mark : String)
      → AllowedArgs (
          ("-4" ∷ "rule" ∷ "del" ∷ "priority" ∷ int_text priority ∷ [])
          ++ selector "from" from
          ++ selector "to" to
          ++ selector "fwmark" mark
          ++ ("lookup" ∷ "51820" ∷ []))
  -- the bypass rule of one server in the main table
  delete_bypass_rule :
      (priority : ℤ) (host : String)
      → int_eq priority 9999 ≡ true
      → is_ipv4_host host ≡ true
      → AllowedArgs (
          "-4"
          ∷ "rule"
          ∷ "del"
          ∷ "priority"
          ∷ int_text priority
          ∷ "to"
          ∷ host
          ∷ "lookup"
          ∷ "main"
          ∷ [])
  -- a route of the program's own table, on any device or on the program's
  delete_own_route :
      (cidr via : String) (device : List String)
      → (device ≡ []) ⊎ (device ≡ "dev" ∷ "podlaz0" ∷ [])
      → AllowedArgs (
          ("-4" ∷ "route" ∷ "del" ∷ cidr ∷ [])
          ++ selector "via" via
          ++ device
          ++ ("table" ∷ "51820" ∷ []))
  -- the bypass route of one server in the main table
  delete_bypass_route :
      (host via dev : String)
      → is_ipv4_host host ≡ true
      → AllowedArgs
          ("-4" ∷ "route" ∷ "del" ∷ host ∷ "via" ∷ via ∷ "dev" ∷ dev ∷ "table" ∷ "main" ∷ [])

pub data Tool : String → Type 0 where
  ip : Tool "ip"
  nft : Tool "nft"
  resolvectl : Tool "resolvectl"

-- what undoing a resource may do
pub data Undo (runtime_dir : String) : Action → Type 0 where
  look_up : (command : String) → Tool command → Undo runtime_dir (looked_up command)
  run_tool :
      (path : String) (args : List String) → AllowedArgs args → Undo runtime_dir (ran path args)
  remove_generated :
      (path : String)
      → is_under_dir (generated_dir runtime_dir) path ≡ true
      → Undo runtime_dir (removed_all path)

-- what the cleanup of a candidate may do
pub data Allowed (runtime_dir : String) : Action → Type 0 where
  undo : (a : Action) → Undo runtime_dir a → Allowed runtime_dir a
  load_state :
      (path : String)
      → is_transaction_path runtime_dir path ≡ true
      → Allowed runtime_dir (loaded path)
  remove_state :
      (path : String)
      → is_transaction_path runtime_dir path ≡ true
      → Allowed runtime_dir (removed path)

-- every action that `m` adds to the log satisfies `P`
pub record Safely (P : Action → Type 0) {A : Type 0} (m : M A) : Type 0 where
  pub new : List Action → List Action
  pub appends : (log : List Action) → (m log).1 ≡ log ++ new log
  pub holds : (log : List Action) → All P (new log)

abbrev pub Undoes : String → {A : Type 0} → M A → Type 0
Undoes runtime_dir m = Safely (Undo runtime_dir) m

module _ (P : Action → Type 0) where
  pub Safely-pure : {A : Type 0} (a : A) → Safely P (pure a)
  unfolding pure
  Safely-pure a = record {
    new = λ log. [];
    appends = λ log. sym (append-nil log);
    holds = λ log. tt;
  }

  pub Safely-bind :
      {A B : Type 0} (m : M A) (f : A → M B)
      → Safely P m
      → ((a : A) → Safely P (f a))
      → Safely P (m >>= f)
  unfolding ◌>>=◌
  Safely-bind m f k j = record {
    new = λ log. k.new log ++ (j (m log).0).new (m log).1;
    appends = λ log.
        (j (m log).0).appends (m log).1
        ∙ ap (λ l. l ++ (j (m log).0).new (m log).1) (k.appends log)
        ∙ append_assoc log (k.new log) ((j (m log).0).new (m log).1);
    holds = λ log.
        All-append P (k.new log) ((j (m log).0).new (m log).1) (k.holds log)
          ((j (m log).0).holds (m log).1);
  }

  pub Safely-if :
      {A : Type 0} (b : Bool) (m n : M A)
      → (b ≡ true → Safely P m)
      → (b ≡ false → Safely P n)
      → Safely P (if b then m else n)
  Safely-if true m n k j = k refl
  Safely-if false m n k j = j refl

  pub Safely-then :
      {A B : Type 0} (m : M A) (f : A → B) → Safely P m → Safely P (m >>= λ a. pure (f a))
  Safely-then m f k = Safely-bind m (λ a. pure (f a)) k (λ a. Safely-pure (f a))

  pub Safely-weaken :
      (Q : Action → Type 0) {A : Type 0} (m : M A)
      → ((a : Action) → P a → Q a)
      → Safely P m
      → Safely Q m
  Safely-weaken Q m w k = record {
    new = k.new;
    appends = k.appends;
    holds = λ log. All-map P Q w (k.new log) (k.holds log);
  }

-- a step of one action
pub one_action :
    (P : Action → Type 0) {A : Type 0} (a : Action) (answer : List Action → A)
    → P a
    → Safely P (λ log. (answer log, log ++ a ∷ []))
one_action P a answer k = record {
  new = λ log. a ∷ [];
  appends = λ log. refl;
  holds = λ log. (k, tt);
}

module _ (env : Env) (runtime_dir : String) where
  pub Safely-remove_all :
      (path : String)
      → is_under_dir (generated_dir runtime_dir) path ≡ true
      → Undoes runtime_dir (remove_all env path)
  unfolding remove_all
  Safely-remove_all path k = one_action _ (removed_all path) _ (remove_generated path k)

  pub Safely-remove :
      (path : String)
      → is_transaction_path runtime_dir path ≡ true
      → Safely (Allowed runtime_dir) (remove env path)
  unfolding remove
  Safely-remove path k = one_action _ (removed path) _ (remove_state path k)

  pub Safely-load :
      (path : String)
      → is_transaction_path runtime_dir path ≡ true
      → Safely (Allowed runtime_dir) (load_transaction env path)
  unfolding load_transaction
  Safely-load path k = one_action _ (loaded path) _ (load_state path k)

  Safely-look_path : (command : String) → Tool command → Undoes runtime_dir (look_path env command)
  unfolding look_path
  Safely-look_path command t = one_action _ (looked_up command) _ (look_up command t)

  Safely-run_command :
      (path : String) (args : List String)
      → AllowedArgs args
      → Undoes runtime_dir (run_command env path args)
  unfolding run_command
  Safely-run_command path args k = one_action _ (ran path args) _ (run_tool path args k)

  Safely-run_found :
      (command : String) (args : List String) (path : Option String)
      → AllowedArgs args
      → Undoes runtime_dir (run_found env command args path)
  unfolding run_found
  Safely-run_found command args none k = Safely-pure _ _
  Safely-run_found command args (some path) k =
      Safely-bind _ _ _ (Safely-run_command path args k) (λ r. Safely-pure _ _)

  pub Safely-run :
      (command : String) (args : List String)
      → Tool command
      → AllowedArgs args
      → Undoes runtime_dir (run env command args)
  unfolding run
  Safely-run command args t k =
      Safely-bind _ _ _ (Safely-look_path command t) (λ path. Safely-run_found command args path k)

pub ruleset safely_rules = (Safely-pure, Safely-bind, Safely-if, Safely-then)
