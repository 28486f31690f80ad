-- ===== src/Recovery/Plan/Order.antt =====
-- `orderCleanupCandidates` is a stable sort by weight.
use tunwarden.Prelude.{
  ℕ, ◌≤◌, ltb, nat_eq, ◌≡◌, refl, ap, ◌∙◌, List, [], ◌∷◌, ◌++◌, append-nil, All, All-map, All-zip,
  All-any, Bool-cases, arith, inl, inr, if◌then◌else◌, String, Bool, true, false, not, ◌&&◌, ◌==◌,
  ◌⊎◌, eq_iff,
}
use tunwarden.Recovery.Results.{Candidate}
use tunwarden.Recovery.Plan.{weight, sift, sift_all, turned, order_cleanup_candidates}

-- the weights from the start to the end never fall
abbrev pub IsOrdered : List Candidate → Type 0
IsOrdered [] = Unit
IsOrdered (c ∷ cs) = All (λ (d : Candidate). weight c.kind ≤ weight d.kind) cs × IsOrdered cs

-- the same from the end to the start
abbrev IsTurned : List Candidate → Type 0
IsTurned [] = Unit
IsTurned (c ∷ cs) = All (λ (d : Candidate). weight d.kind ≤ weight c.kind) cs × IsTurned cs

-- the candidates of one weight
abbrev pub of_weight : ℕ → List Candidate → List Candidate
of_weight k [] = []
of_weight k (c ∷ cs) =
    let rest = of_weight k cs in if nat_eq (weight c.kind) k then c ∷ rest else rest

sift-All :
    (P : Candidate → Type 0) (c : Candidate) (cs : List Candidate)
    → P c
    → All P cs
    → All P (sift c cs)
unfolding sift
sift-All P c [] h k = (h, tt)
sift-All P c (d ∷ cs) h (p, k) = elim (Bool-cases (ltb (weight c.kind) (weight d.kind))) [
  | inl e ↦ rw e (p, sift-All P c cs h k)
  | inr e ↦ rw e (h, (p, k))
]

sift-IsTurned : (c : Candidate) (cs : List Candidate) → IsTurned cs → IsTurned (sift c cs)
unfolding sift
sift-IsTurned c [] h = (tt, tt)
sift-IsTurned c (d ∷ cs) (h, k) = elim (Bool-cases (ltb (weight c.kind) (weight d.kind))) [
  | inl e ↦ rw e (
    sift-All (λ (x : Candidate). weight x.kind ≤ weight d.kind) c cs (ground arith) h,
    sift-IsTurned c cs k,
  )
  | inr e ↦ rw e ((ground arith, All-map _ _ (λ x l. ground arith) cs h), (h, k))
]

sift_all-IsTurned :
    (ordered cs : List Candidate) → IsTurned ordered → IsTurned (sift_all ordered cs)
unfolding sift_all
sift_all-IsTurned ordered [] h = h
sift_all-IsTurned ordered (c ∷ cs) h =
    sift_all-IsTurned (sift c ordered) cs (sift-IsTurned c ordered h)

-- every weight of the first list is at most every weight of the second
Below : List Candidate → List Candidate → Type 0
Below cs ds = All (λ (c : Candidate). All (λ (d : Candidate). weight c.kind ≤ weight d.kind) ds) cs

turned-IsOrdered :
    (acc cs : List Candidate)
    → IsOrdered acc
    → IsTurned cs
    → Below cs acc
    → IsOrdered (turned acc cs)
unfolding turned Below
turned-IsOrdered acc [] h k b = h
turned-IsOrdered acc (c ∷ cs) h (l, k) (b, bs) =
    turned-IsOrdered (c ∷ acc) cs (b, h) k (All-zip _ _ _ (λ x p q. (p, q)) cs l bs)

order-IsOrdered : (cs : List Candidate) → IsOrdered (order_cleanup_candidates cs)
unfolding order_cleanup_candidates Below
order-IsOrdered cs =
    turned-IsOrdered [] (sift_all [] cs) tt (sift_all-IsTurned [] cs tt)
      (All-any _ (λ c. tt) (sift_all [] cs))

of_weight-sift :
    (k : ℕ) (c : Candidate) (cs : List Candidate) → of_weight k (sift c cs) ≡ of_weight k (c ∷ cs)
unfolding sift
of_weight-sift k c [] = refl
of_weight-sift k c (d ∷ cs) = ground (arith, of_weight-sift k c cs)

of_weight-turned :
    (k : ℕ) (acc cs : List Candidate)
    → of_weight k (turned acc cs) ≡ turned (of_weight k acc) (of_weight k cs)
unfolding turned
of_weight-turned k acc [] = refl
of_weight-turned k acc (c ∷ cs) = ground (arith, of_weight-turned k (c ∷ acc) cs)

of_weight-sift_all :
    (k : ℕ) (ordered cs : List Candidate)
    → of_weight k (sift_all ordered cs) ≡ turned (of_weight k ordered) (of_weight k cs)
unfolding sift_all turned
of_weight-sift_all k ordered [] = refl
of_weight-sift_all k ordered (c ∷ cs) =
    ground (arith, of_weight-sift_all k (sift c ordered) cs, of_weight-sift k c ordered)

turned-turned : (a b cs : List Candidate) → turned a (turned b cs) ≡ turned (cs ++ a) b
unfolding turned
turned-turned a b [] = refl
turned-turned a b (c ∷ cs) = turned-turned a (c ∷ b) cs

order-of_weight :
    (k : ℕ) (cs : List Candidate) → of_weight k (order_cleanup_candidates cs) ≡ of_weight k cs
unfolding order_cleanup_candidates
order-of_weight k cs =
    of_weight-turned k [] (sift_all [] cs)
    ∙ ap (turned []) (of_weight-sift_all k [] cs)
    ∙ turned-turned [] [] (of_weight k cs)
    ∙ append-nil (of_weight k cs)

-- the candidates that pass a test of their kinds
abbrev pub with_kind : (String → Bool) → List Candidate → List Candidate
with_kind test [] = []
with_kind test (c ∷ cs) = let rest = with_kind test cs in if test c.kind then c ∷ rest else rest

abbrev pub of_kind : String → List Candidate → List Candidate
of_kind kind = with_kind (λ k. k == kind)

abbrev is_other : String → Bool
is_other kind =
    not (kind == "transaction-state")
    && not (kind == "nftables-table")
    && not (kind == "tun-interface")
    && not (kind == "generated-runtime-configs")
    && not (kind == "runtime-directory")

-- the candidates of none of the five kinds
abbrev pub of_other_kinds : List Candidate → List Candidate
of_other_kinds = with_kind is_other

-- the kind is one of the five, or none of them
kind_cases :
    (kind : String)
    → (kind ≡ "transaction-state")
      ⊎ ((kind ≡ "nftables-table")
          ⊎ ((kind ≡ "tun-interface")
              ⊎ ((kind ≡ "generated-runtime-configs")
                  ⊎ ((kind ≡ "runtime-directory")
                      ⊎ (((kind == "transaction-state") ≡ false)
                          × ((kind == "nftables-table") ≡ false)
                          × ((kind == "tun-interface") ≡ false)
                          × ((kind == "generated-runtime-configs") ≡ false)
                          × ((kind == "runtime-directory") ≡ false))))))
kind_cases kind = elim (Bool-cases (kind == "transaction-state")) [
  | inl a ↦ inl ((eq_iff kind "transaction-state").0 a)
  | inr a ↦ elim (Bool-cases (kind == "nftables-table")) [
    | inl b ↦ inr (inl ((eq_iff kind "nftables-table").0 b))
    | inr b ↦ elim (Bool-cases (kind == "tun-interface")) [
      | inl c ↦ inr (inr (inl ((eq_iff kind "tun-interface").0 c)))
      | inr c ↦ elim (Bool-cases (kind == "generated-runtime-configs")) [
        | inl d ↦ inr (inr (inr (inl ((eq_iff kind "generated-runtime-configs").0 d))))
        | inr d ↦ elim (Bool-cases (kind == "runtime-directory")) [
          | inl e ↦ inr (inr (inr (inr (inl ((eq_iff kind "runtime-directory").0 e)))))
          | inr e ↦ inr (inr (inr (inr (inr (a, b, c, d, e)))))
        ]
      ]
    ]
  ]
]

weights_of_kinds :
    (kind : String)
    → (nat_eq (weight kind) 10 ≡ (kind == "transaction-state"))
      × (nat_eq (weight kind) 20 ≡ (kind == "nftables-table"))
      × (nat_eq (weight kind) 30 ≡ (kind == "tun-interface"))
      × (nat_eq (weight kind) 40 ≡ (kind == "generated-runtime-configs"))
      × (nat_eq (weight kind) 50 ≡ (kind == "runtime-directory"))
      × (nat_eq (weight kind) 100 ≡ is_other kind)
unfolding weight
weights_of_kinds kind = elim (kind_cases kind) [
  | inl e ↦ rw e (refl, refl, refl, refl, refl, refl)
  | inr (inl e) ↦ rw e (refl, refl, refl, refl, refl, refl)
  | inr (inr (inl e)) ↦ rw e (refl, refl, refl, refl, refl, refl)
  | inr (inr (inr (inl e))) ↦ rw e (refl, refl, refl, refl, refl, refl)
  | inr (inr (inr (inr (inl e)))) ↦ rw e (refl, refl, refl, refl, refl, refl)
  | inr (inr (inr (inr (inr (a, b, c, d, e))))) ↦
      rw (a, b, c, d, e) (refl, refl, refl, refl, refl, refl)
]

weight_cases :
    (kind : String)
    → (weight kind ≡ 10)
      ⊎ ((weight kind ≡ 20)
          ⊎ ((weight kind ≡ 30)
              ⊎ ((weight kind ≡ 40) ⊎ ((weight kind ≡ 50) ⊎ (weight kind ≡ 100)))))
unfolding weight
weight_cases kind = elim (kind_cases kind) [
  | inl e ↦ inl (rw e refl)
  | inr (inl e) ↦ inr (inl (rw e refl))
  | inr (inr (inl e)) ↦ inr (inr (inl (rw e refl)))
  | inr (inr (inr (inl e))) ↦ inr (inr (inr (inl (rw e refl))))
  | inr (inr (inr (inr (inl e)))) ↦ inr (inr (inr (inr (inl (rw e refl)))))
  | inr (inr (inr (inr (inr (a, b, c, d, e))))) ↦
      inr (inr (inr (inr (inr (rw (a, b, c, d, e) refl)))))
]

of_weight-with_kind :
    (k : ℕ) (test : String → Bool) (cs : List Candidate)
    → ((kind : String) → nat_eq (weight kind) k ≡ test kind)
    → of_weight k cs ≡ with_kind test cs
of_weight-with_kind k test [] h = refl
of_weight-with_kind k test (c ∷ cs) h = rw (h c.kind, of_weight-with_kind k test cs h) refl

-- nothing is lighter than the head of an ordered list
none_lighter :
    (k w : ℕ) (x : Candidate) (cs : List Candidate)
    → weight x.kind ≡ w
    → ltb k w ≡ true
    → All (λ (d : Candidate). weight x.kind ≤ weight d.kind) cs
    → of_weight k cs ≡ []
none_lighter k w x [] e l h = refl
none_lighter k w x (c ∷ cs) e l (p, h) = ground (arith, none_lighter k w x cs e l h)

-- an ordered list is the candidates of each weight, one weight after the other
parts : List Candidate → List Candidate
parts cs =
    of_weight 10 cs
    ++ (of_weight 20 cs
        ++ (of_weight 30 cs ++ (of_weight 40 cs ++ (of_weight 50 cs ++ of_weight 100 cs))))

IsOrdered-parts : (cs : List Candidate) → IsOrdered cs → cs ≡ parts cs
unfolding parts
IsOrdered-parts [] h = refl
IsOrdered-parts (c ∷ cs) (h, k) =
    let lighter =
      λ (i w : ℕ) (e : weight c.kind ≡ w) (l : ltb i w ≡ true). none_lighter i w c cs e l h in
    let later : cs ≡ parts cs = IsOrdered-parts cs k in
    elim (weight_cases c.kind) [
      | inl e ↦ rw e (ap (λ l. c ∷ l) later)
      | inr (inl e) ↦
          rw (e, lighter 10 20 e refl) (ap (λ l. c ∷ l) (rw (lighter 10 20 e refl) at later))
      | inr (inr (inl e)) ↦
          rw (e, lighter 10 30 e refl, lighter 20 30 e refl)
            (ap (λ l. c ∷ l) (rw (lighter 10 30 e refl, lighter 20 30 e refl) at later))
      | inr (inr (inr (inl e))) ↦
          rw (e, lighter 10 40 e refl, lighter 20 40 e refl, lighter 30 40 e refl)
            (ap (λ l. c ∷ l)
              (rw (lighter 10 40 e refl, lighter 20 40 e refl, lighter 30 40 e refl) at later))
      | inr (inr (inr (inr (inl e)))) ↦
          rw
            (
              e,
              lighter 10 50 e refl,
              lighter 20 50 e refl,
              lighter 30 50 e refl,
              lighter 40 50 e refl,
            )
            (ap (λ l. c ∷ l)
              (rw
                (
                  lighter 10 50 e refl,
                  lighter 20 50 e refl,
                  lighter 30 50 e refl,
                  lighter 40 50 e refl,
                )
                at later))
      | inr (inr (inr (inr (inr e)))) ↦
          rw
            (
              e,
              lighter 10 100 e refl,
              lighter 20 100 e refl,
              lighter 30 100 e refl,
              lighter 40 100 e refl,
              lighter 50 100 e refl,
            )
            (ap (λ l. c ∷ l)
              (rw
                (
                  lighter 10 100 e refl,
                  lighter 20 100 e refl,
                  lighter 30 100 e refl,
                  lighter 40 100 e refl,
                  lighter 50 100 e refl,
                )
                at later))
    ]

-- The order of the cleanup: first the transaction files, then the nftables table, the TUN interface, the
-- generated configurations, the runtime directory and last every other kind. Within each kind (and among
-- the others) the candidates keep the order of the scan, and none is lost or added.
pub order_is_stable_sort :
    (candidates : List Candidate)
    → order_cleanup_candidates candidates
      ≡ of_kind "transaction-state" candidates
        ++ (of_kind "nftables-table" candidates
            ++ (of_kind "tun-interface" candidates
                ++ (of_kind "generated-runtime-configs" candidates
                    ++ (of_kind "runtime-directory" candidates ++ of_other_kinds candidates))))
unfolding parts
order_is_stable_sort cs =
    let kept =
      λ (k : ℕ) (test : String → Bool) (h : (kind : String) → nat_eq (weight kind) k ≡ test kind).
        order-of_weight k cs ∙ of_weight-with_kind k test cs h in
    let w = weights_of_kinds in
    IsOrdered-parts (order_cleanup_candidates cs) (order-IsOrdered cs)
    ∙ rw
        (
          kept 10 (λ k. k == "transaction-state") (λ k. (w k).0),
          kept 20 (λ k. k == "nftables-table") (λ k. (w k).1),
          kept 30 (λ k. k == "tun-interface") (λ k. (w k).2),
          kept 40 (λ k. k == "generated-runtime-configs") (λ k. (w k).3),
          kept 50 (λ k. k == "runtime-directory") (λ k. (w k).4),
          kept 100 is_other (λ k. (w k).5),
        )
        refl
