-- ===== src/Network/Compact/Laws.antt =====
-- What is left of a list once blanks and repeats are dropped.
use tunwarden.Prelude.{
  ◌≡◌, refl, String, Bool, true, false, not, ◌&&◌, ◌||◌, List, [], ◌∷◌, any, is_empty,
  if◌then◌else◌, ◌==◌, arith, eq_iff, eq_refl, Bool-cases, inl, inr,
}
use tunwarden.Text.{trim_space}
use tunwarden.Network.Compact.{has, compact_from, compact_warnings, normalize_dns_servers}

-- no entry is blank, and none stands behind an equal one
abbrev pub AreDistinct : List String → Type 0
AreDistinct [] = Unit
AreDistinct (v ∷ vs) = ((v == "") ≡ false) × (has v vs ≡ false) × AreDistinct vs

-- some value is `v`, once it is trimmed
abbrev pub occurs : String → List String → Bool
occurs v = any (λ x. trim_space x == v)

-- one step of the loop, for the trimmed value `t`
has-step :
    (v t : String) (seen skipped kept : List String) (rest : Bool)
    → (v == "") ≡ false
    → has v skipped ≡ (rest && not (has v seen))
    → has v kept ≡ (rest && not (t == v || has v seen))
    → has v (if t == "" || has t seen then skipped else t ∷ kept)
      ≡ ((t == v || rest) && not (has v seen))
has-step v t seen skipped kept rest h s k = elim (Bool-cases (t == v)) [
  | inl e ↦ rw ((eq_iff t v).0 e) (ground (arith, eq_refl v, e))
  | inr e ↦ ground arith
]

has-compact_from :
    (v : String) (seen values : List String)
    → (v == "") ≡ false
    → has v (compact_from seen values) ≡ (occurs v values && not (has v seen))
unfolding compact_from
has-compact_from v seen [] h = refl
has-compact_from v seen (x ∷ values) h =
    has-step v (trim_space x) seen (compact_from seen values)
      (compact_from (trim_space x ∷ seen) values) (occurs v values) h
      (has-compact_from v seen values h) (has-compact_from v (trim_space x ∷ seen) values h)

not_again :
    (t : String) (seen values : List String)
    → (t == "") ≡ false
    → has t (compact_from (t ∷ seen) values) ≡ false
not_again t seen values h = ground (arith, has-compact_from t (t ∷ seen) values h, eq_refl t)

compact_from-AreDistinct : (seen values : List String) → AreDistinct (compact_from seen values)
unfolding compact_from
compact_from-AreDistinct seen [] = tt
compact_from-AreDistinct seen (x ∷ values) =
    elim (Bool-cases (trim_space x == "" || has (trim_space x) seen)) [
      | inl e ↦ rw e (compact_from-AreDistinct seen values)
      | inr e ↦
          let blank : (trim_space x == "") ≡ false = ground arith in
          rw e (
            blank,
            not_again (trim_space x) seen values blank,
            compact_from-AreDistinct (trim_space x ∷ seen) values,
          )
    ]

-- `compactWarnings` gives distinct texts that are not blank, and a text that is not blank is among them exactly
-- if some value is that text once it is trimmed: no warning is lost and none is made up.
pub compact_warnings_lem :
    (values : List String) (v : String)
    → (v == "") ≡ false
    → AreDistinct (compact_warnings values) × (has v (compact_warnings values) ≡ occurs v values)
unfolding compact_warnings
compact_warnings_lem values v h =
    (compact_from-AreDistinct [] values, ground (arith, has-compact_from v [] values h))

has_of_empty : (v : String) (xs : List String) → is_empty xs ≡ true → has v xs ≡ false
has_of_empty v [] h = refl
has_of_empty v (x ∷ xs) h = ground arith

-- The DNS servers of a plan are distinct and not blank, and there is at least one. A text that is not blank is
-- among them if a server asked for is that text once it is trimmed.
pub normalize_dns_servers_lem :
    (servers : List String) (v : String)
    → (v == "") ≡ false
    → AreDistinct (normalize_dns_servers servers)
      × (is_empty (normalize_dns_servers servers) ≡ false)
      × ((not (occurs v servers) || has v (normalize_dns_servers servers)) ≡ true)
unfolding normalize_dns_servers
normalize_dns_servers_lem servers v h = elim (Bool-cases (is_empty (compact_from [] servers))) [
  | inl e ↦ rw e (
    (refl, refl, tt),
    refl,
    ground (arith, has-compact_from v [] servers h, has_of_empty v (compact_from [] servers) e),
  )
  | inr e ↦
      rw e (compact_from-AreDistinct [] servers, e, ground (arith, has-compact_from v [] servers h))
]
