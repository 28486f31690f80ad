-- ===== src/State/Store/Outcomes.antt =====
-- Postconditions of store operations, one for a result and one for an error, and a rule for each way
-- to build an operation.
use tunwarden.Prelude.{Bool-cases, inl, inr}
use tunwarden.Result.{Result, ok, err}
use tunwarden.State.Disk.{Disk, Call, faulty, next_call, remove_temp}
use tunwarden.State.Store.{
  Platform, StoreError, failed_call, Op, continue, attempt, removing_temp, ◌>>=◌,
}

module _ {B A : Type 0} (Q : A → Disk B → Type 0) (E : StoreError → Disk B → Type 0) where
  -- how an operation may end
  abbrev pub Ends : Result StoreError A × Disk B → Type 0
  Ends (ok a, d) = Q a d
  Ends (err e, d) = E e d

module _ (p : Platform) where
  module _ {A B : Type 0} (Q : A → Disk p.Bytes → Type 0) (R : B → Disk p.Bytes → Type 0)
      (E : StoreError → Disk p.Bytes → Type 0) where
    Ends-continue :
        (f : A → Op p B)
        → ((a : A) (d : Disk p.Bytes) → Q a d → Ends R E (f a d))
        → (r : Result StoreError A × Disk p.Bytes) → Ends Q E r
        → Ends R E (continue p r.0 f r.1)
    Ends-continue f k (ok a, d) h = k a d h
    Ends-continue f k (err e, d) h = h

    pub Ends-bind :
        (m : Op p A) (f : A → Op p B) (d : Disk p.Bytes)
        → Ends Q E (m d)
        → ((a : A) (d : Disk p.Bytes) → Q a d → Ends R E (f a d))
        → Ends R E (◌>>=◌ p m f d)
    unfolding ◌>>=◌
    Ends-bind m f d h k = Ends-continue f k (m d) h

  module _ (Q : Unit {0} → Disk p.Bytes → Type 0) (E : StoreError → Disk p.Bytes → Type 0) where
    pub Ends-attempt :
        (call : Call) (effect : Disk p.Bytes → Disk p.Bytes) (d : Disk p.Bytes)
        → E (failed_call call) (next_call d)
        → Q tt (effect (next_call d))
        → Ends Q E (attempt p call effect d)
    unfolding attempt
    Ends-attempt call effect d h k = elim (Bool-cases (faulty d)) [
      | inl e ↦ rw e h
      | inr e ↦ rw e k
    ]

  module _ {A : Type 0} (Q : A → Disk p.Bytes → Type 0)
      (E F : StoreError → Disk p.Bytes → Type 0) where
    pub Ends-removing_temp :
        (m : Op p A) (d : Disk p.Bytes)
        → Ends Q E (m d)
        → ((e : StoreError) (d : Disk p.Bytes) → E e d → F e (remove_temp d))
        → Ends Q F (removing_temp p m d)
    unfolding removing_temp
    Ends-removing_temp m d h k = go (m d) h
      where
        go :
            (r : Result StoreError A × Disk p.Bytes)
            → Ends Q E r
            → Ends Q F (elim r.0 [ ok a ↦ (ok a, r.1) | err e ↦ (err e, remove_temp r.1) ])
        go (ok a, d) h = h
        go (err e, d) h = k e d h

-- A weaker postcondition for errors.
pub Ends-errors :
    {B A : Type 0} (Q : A → Disk B → Type 0) (E F : StoreError → Disk B → Type 0)
    → ((e : StoreError) (d : Disk B) → E e d → F e d)
    → (r : Result StoreError A × Disk B) → Ends Q E r
    → Ends Q F r
Ends-errors Q E F k (ok a, d) h = h
Ends-errors Q E F k (err e, d) h = k e d h
