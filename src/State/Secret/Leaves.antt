-- ===== src/State/Secret/Leaves.antt =====
-- The search for secrets finds exactly the secret strings of a document, at any depth.
use tunwarden.Prelude.{◌≡◌, refl, ◌↔◌, ◌⊎◌, inl, inr, String, Bool, true, ◌||◌, arith}
use tunwarden.State.Json.{
  Value, Items, Fields, null, number, string, array, object, no_items, item, no_fields, field,
}
use tunwarden.State.Secret.{
  contains_secret_text, contains_secret_value, contains_secret_items, contains_secret_fields,
}

-- `Leaf key j k v`: with `key` for the key of `j` itself, the string `v` stands in `j` under the key
-- `k`. The elements of an array have the array's key.
mutual
  pub data Leaf (k v : String) : String → Value → Type 0 where
    here : {key text : String} → key ≡ k → text ≡ v → Leaf k v key (string text)
    in_array : {key : String} {xs : Items} → LeafItems k v key xs → Leaf k v key (array xs)
    in_object : {key : String} {fs : Fields} → LeafFields k v fs → Leaf k v key (object fs)

  pub data LeafItems (k v : String) : String → Items → Type 0 where
    first :
        {key : String} {j : Value} {rest : Items} → Leaf k v key j → LeafItems k v key (item j rest)
    later :
        {key : String} {j : Value} {rest : Items}
        → LeafItems k v key rest
        → LeafItems k v key (item j rest)

  pub data LeafFields (k v : String) : Fields → Type 0 where
    at_key :
        {key : String} {j : Value} {rest : Fields}
        → Leaf k v key j
        → LeafFields k v (field key j rest)
    beyond :
        {key : String} {j : Value} {rest : Fields}
        → LeafFields k v rest
        → LeafFields k v (field key j rest)

||-true_left : (a b : Bool) → a ≡ true → (a || b) ≡ true
||-true_left a b h = ground arith

||-true_right : (a b : Bool) → b ≡ true → (a || b) ≡ true
||-true_right a b h = ground arith

||-cases : (a b : Bool) → (a || b) ≡ true → (a ≡ true) ⊎ (b ≡ true)
||-cases a b h = ground arith

module _ (matches_secret : String → Bool) where
  module _ (k v : String) (secret : contains_secret_text matches_secret k v ≡ true) where
    mutual
      unfolding contains_secret_value

      Leaf-found :
          {key : String} {j : Value}
          → Leaf k v key j
          → contains_secret_value matches_secret key j ≡ true
      Leaf-found (here p q) = rw (p, q) secret
      Leaf-found (in_array l) = items_found l
      Leaf-found (in_object l) = fields_found l

      items_found :
          {key : String} {xs : Items}
          → LeafItems k v key xs
          → contains_secret_items matches_secret key xs ≡ true
      items_found (first l) = ||-true_left _ _ (Leaf-found l)
      items_found (later l) = ||-true_right _ _ (items_found l)

      fields_found :
          {fs : Fields} → LeafFields k v fs → contains_secret_fields matches_secret fs ≡ true
      fields_found (at_key l) = ||-true_left _ _ (Leaf-found l)
      fields_found (beyond l) = ||-true_right _ _ (fields_found l)

  abbrev pub SecretLeaf : String → Value → Type 0
  SecretLeaf key j =
      (k : String) × (v : String) × Leaf k v key j
      × (contains_secret_text matches_secret k v ≡ true)

  mutual
    unfolding contains_secret_value

    find_leaf :
        (key : String) (j : Value)
        → contains_secret_value matches_secret key j ≡ true
        → SecretLeaf key j
    find_leaf key null h = absurd (cc)
    find_leaf key number h = absurd (cc)
    find_leaf key (string v) h = (key, v, here refl refl, h)
    find_leaf key (array xs) h = let (k, v, l, s) = find_item key xs h in (k, v, in_array l, s)
    find_leaf key (object fs) h = let (k, v, l, s) = find_field fs h in (k, v, in_object l, s)

    find_item :
        (key : String) (xs : Items)
        → contains_secret_items matches_secret key xs ≡ true
        → (k : String) × (v : String) × LeafItems k v key xs
          × (contains_secret_text matches_secret k v ≡ true)
    find_item key no_items h = absurd (cc)
    find_item key (item j rest) h = elim (||-cases _ _ h) [
      | inl e ↦ let (k, v, l, s) = find_leaf key j e in (k, v, first l, s)
      | inr e ↦ let (k, v, l, s) = find_item key rest e in (k, v, later l, s)
    ]

    find_field :
        (fs : Fields)
        → contains_secret_fields matches_secret fs ≡ true
        → (k : String) × (v : String) × LeafFields k v fs
          × (contains_secret_text matches_secret k v ≡ true)
    find_field no_fields h = absurd (cc)
    find_field (field key j rest) h = elim (||-cases _ _ h) [
      | inl e ↦ let (k, v, l, s) = find_leaf key j e in (k, v, at_key l, s)
      | inr e ↦ let (k, v, l, s) = find_field rest e in (k, v, beyond l, s)
    ]

  -- The search reports a secret exactly when the document holds, at any depth, a string that is one
  -- under its key: the key of its field, or of the array that it is an element of.
  pub contains_secret_value_iff :
      (key : String) (j : Value)
      → (contains_secret_value matches_secret key j ≡ true) ↔ SecretLeaf key j
  contains_secret_value_iff key j = (find_leaf key j, λ s. Leaf-found s.0 s.1 s.3 s.2)
