-- ===== src/Network/Executor/Nftables/Match.antt =====
-- What the search of `Verify` for a rule in the output of nft finds.
use tunwarden.Prelude.{
  String, true, false, ◌≡◌, refl, ◌↔◌, inl, inr, List, [], ◌∷◌, ◌++◌, any→found, found→any, ◌==◌,
  eq_iff, Bool-cases, arith,
}
use tunwarden.Text.{split}
use tunwarden.Network.TunPlan.{TunFirewallRulePlan}
use tunwarden.Network.Executor.Nftables.{
  contains_ordered_fields, nft_output_contains_rule, nft_rule_fields, nft_expression_fields,
}

-- the wanted words stand among the fields, in their order
pub data Within : List String → List String → Type 0 where
  nothing : {fields : List String} → Within [] fields
  skip : {f : String} {want fields : List String} → Within want fields → Within want (f ∷ fields)
  take :
      {f w : String} {want fields : List String}
      → f ≡ w
      → Within want fields
      → Within (w ∷ want) (f ∷ fields)

Within-tail :
    {w : String} {want fields : List String} → Within (w ∷ want) fields → Within want fields
Within-tail (skip k) = skip (Within-tail k)
Within-tail (take e k) = skip k

found→Within :
    (fields want : List String) → contains_ordered_fields fields want ≡ true → Within want fields
unfolding contains_ordered_fields
found→Within fields [] h = nothing
found→Within [] (w ∷ want) h = cc
found→Within (f ∷ fields) (w ∷ want) h = elim (Bool-cases (f == w)) [
  | inl e ↦
      take ((eq_iff f w).0 e) (found→Within fields want (rw (e, contains_ordered_fields) at h))
  | inr e ↦ skip (found→Within fields (w ∷ want) (rw (e, contains_ordered_fields) at h))
]

Within→found :
    (fields want : List String) → Within want fields → contains_ordered_fields fields want ≡ true
unfolding contains_ordered_fields
Within→found [] [] k = refl
Within→found (f ∷ fields) [] k = refl
Within→found [] (w ∷ want) k = elim k [ ]
Within→found (f ∷ fields) (w ∷ want) k = elim (Bool-cases (f == w)) [
  | inl e ↦ rw (e, contains_ordered_fields) (Within→found fields want (later k))
  | inr e ↦ rw (e, contains_ordered_fields) (Within→found fields (w ∷ want) (passed e k))
]
  where
    later : Within (w ∷ want) (f ∷ fields) → Within want fields
    later (skip k) = Within-tail k
    later (take e k) = k

    passed : (f == w) ≡ false → Within (w ∷ want) (f ∷ fields) → Within (w ∷ want) fields
    passed e (skip k) = k
    passed e (take q k) = absurd (ground (arith, eq_iff f w))

-- a line of the output whose fields hold the rule's, in order
abbrev pub ShowsRule : String → TunFirewallRulePlan → Type 0
ShowsRule output rule =
    (line : String) × (before : List String) × (after : List String) × (split 10 output
      ≡ before ++ line ∷ after)
    × Within (nft_rule_fields rule) (nft_expression_fields line)

-- The loop of `nftOutputContainsRule`, which keeps one place in the wanted fields, misses nothing: it finds a rule
-- exactly if some line of the output has the fields of the rule's expression, "counter", the verdict, "comment" and the
-- owner as a subsequence of its fields, in whichever way they can be picked.
pub nft_output_contains_rule_iff :
    (output : String) (rule : TunFirewallRulePlan)
    → (nft_output_contains_rule output rule ≡ true) ↔ ShowsRule output rule
unfolding nft_output_contains_rule
nft_output_contains_rule_iff output rule = (
  λ h.
      let (line, before, after, e, k) = any→found _ (split 10 output) h in
      (line, before, after, e, found→Within _ _ k),
  λ (line, before, after, e, k). rw e (found→any _ before line after (Within→found _ _ k)),
)
