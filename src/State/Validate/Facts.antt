-- ===== src/State/Validate/Facts.antt =====
-- What `ValidateTransaction` accepts.
use tunwarden.Prelude.{
  ◌≡◌, refl, ◌≢◌, ◌↔◌, ◌||◌, if◌then◌else◌, String, Bool, true, false, arith, eq_iff, Bool-cases,
  inl, inr, List, [], ◌∷◌, Option, none, some, any, All,
}
use tunwarden.Result.{ok}
use tunwarden.State.Status.{valid_transaction_state}
use tunwarden.State.Transaction.{Time, Transaction}
use tunwarden.State.Json.{transaction_value, marshal_transaction, times_of, cannot_write}
use tunwarden.State.Secret.{contains_secret_value}
use tunwarden.State.Secret.Leaves.{SecretLeaf, contains_secret_value_iff}
use tunwarden.State.Validate.{
  validate_transaction, validate_transaction_id, contains_persistent_secret,
}

module _ (matches_secret : String → Bool) (format_time : Time → Option String) where
  -- a time that has a JSON text
  abbrev pub HasText : Time → Type 0
  HasText t = (s : String) × (format_time t ≡ some s)

  -- what an accepted transaction satisfies
  pub record IsValid (tx : Transaction) : Type 0 where
    pub schema : tx.schema_version ≡ "podlaz.transaction.v1"
    pub owner : tx.owner ≡ "podlaz"
    pub id : validate_transaction_id tx.id ≡ ok tt
    pub state : valid_transaction_state tx.state ≡ true
    pub created : tx.created_at ≢ 0
    pub updated : tx.updated_at ≢ 0
    pub times : All HasText (times_of tx)
    pub no_secret : ¬ SecretLeaf matches_secret "" (transaction_value format_time tx)

  neither : (a b : Bool) → (a || b) ≡ false → (a ≡ false) × (b ≡ false)
  neither false b h = (refl, h)
  neither true b h = absurd cc

  text_of :
      (t : Time) (o : Option String)
      → format_time t ≡ o
      → (elim o [ none ↦ true | some s ↦ false ]) ≡ false
      → HasText t
  text_of t none e h = cc
  text_of t (some s) e h = (s, e)

  any→HasText : (ts : List Time) → any (cannot_write format_time) ts ≡ false → All HasText ts
  any→HasText [] h = tt
  any→HasText (t ∷ ts) h =
      let (g, k) = neither (cannot_write format_time t) (any (cannot_write format_time) ts) h in
      (text_of t (format_time t) refl g, any→HasText ts k)

  HasText→any : (ts : List Time) → All HasText ts → any (cannot_write format_time) ts ≡ false
  HasText→any [] k = refl
  HasText→any (t ∷ ts) ((s, e), k) = rw (e, any, cannot_write) (HasText→any ts k)

  marshalled :
      (tx : Transaction) (b : Bool)
      → any (cannot_write format_time) (times_of tx) ≡ b
      → (elim (if b then none else some (transaction_value format_time tx)) [
        | none ↦ true
        | some value ↦ contains_secret_value matches_secret "" value
      ])
        ≡ false
      → All HasText (times_of tx)
        × ¬ SecretLeaf matches_secret "" (transaction_value format_time tx)
  marshalled tx true e h = absurd cc
  marshalled tx false e h = (
    any→HasText (times_of tx) e,
    λ s.
        cc
          (h, (contains_secret_value_iff matches_secret "" (transaction_value format_time tx)).1 s),
  )

  accepted→facts :
      (tx : Transaction)
      → contains_persistent_secret matches_secret format_time tx ≡ false
      → All HasText (times_of tx)
        × ¬ SecretLeaf matches_secret "" (transaction_value format_time tx)
  unfolding contains_persistent_secret marshal_transaction
  accepted→facts tx h = marshalled tx (any (cannot_write format_time) (times_of tx)) refl h

  facts→accepted :
      (tx : Transaction)
      → All HasText (times_of tx)
      → ¬ SecretLeaf matches_secret "" (transaction_value format_time tx)
      → contains_persistent_secret matches_secret format_time tx ≡ false
  unfolding contains_persistent_secret marshal_transaction
  facts→accepted tx k n =
      rw (HasText→any (times_of tx) k, contains_persistent_secret, marshal_transaction)
        (elim (Bool-cases
          (contains_secret_value matches_secret "" (transaction_value format_time tx))) [
            | inl e ↦ absurd (
                n (
                  (contains_secret_value_iff matches_secret "" (transaction_value format_time tx)).0
                    e))
            | inr e ↦ e
          ])

  module _ (tx : Transaction) where
    validate→IsValid : validate_transaction matches_secret format_time tx ≡ ok tt → IsValid tx
    unfolding validate_transaction
    validate→IsValid h = record {
      schema = ground (arith, eq_iff tx.schema_version "podlaz.transaction.v1");
      owner = ground (arith, eq_iff tx.owner "podlaz");
      id = ground arith;
      state = ground arith;
      created = ground arith;
      updated = ground arith;
      times = (accepted→facts tx (ground arith)).0;
      no_secret = (accepted→facts tx (ground arith)).1;
    }

    IsValid→validate : IsValid tx → validate_transaction matches_secret format_time tx ≡ ok tt
    unfolding validate_transaction
    IsValid→validate v = ground (
      arith,
      eq_iff tx.schema_version "podlaz.transaction.v1",
      eq_iff tx.owner "podlaz",
      facts→accepted tx v.times v.no_secret,
    )

  -- `ValidateTransaction` accepts a transaction exactly when the schema and the owner are the
  -- program's, the id is an accepted id, the state is a known one, both times are set, every time of
  -- its document can be written as JSON, and no string of the document, at any depth, is a secret under
  -- its key.
  pub validate_transaction_iff :
      (tx : Transaction) → (validate_transaction matches_secret format_time tx ≡ ok tt) ↔ IsValid tx
  validate_transaction_iff tx = (validate→IsValid tx, IsValid→validate tx)
