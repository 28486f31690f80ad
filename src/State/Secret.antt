-- ===== src/State/Secret.antt =====
-- internal/state/transaction.go: the search of a transaction's document for persistent secrets. The
-- regular expression `secretValuePattern` is the argument `matches_secret`.
pub mod Leaves
use tunwarden.Prelude.{String, Bool, true, false, ◌||◌, List, [], ◌∷◌, ◌==◌, if◌then◌else◌, any}
use tunwarden.Text.{trim_space, to_lower, underscores}
use tunwarden.State.Json.{
  Value, Items, Fields, null, number, string, array, object, no_items, item, no_fields, field,
}

abbrev pub secret_keys : List String
secret_keys =
    "token" ∷ "access_token" ∷ "refresh_token" ∷ "password" ∷ "passwd" ∷ "secret" ∷ "client_secret"
    ∷ "api_key" ∷ "apikey" ∷ "authorization" ∷ "private_key" ∷ "privatekey" ∷ "reality_private_key"
    ∷ []

unfoldable pub is_secret_key : String → Bool
unfolding trim_space to_lower underscores
is_secret_key key = any (λ k. k == to_lower (underscores (trim_space key))) secret_keys

module _ (matches_secret : String → Bool) where
  -- the `case string` of `containsPersistentSecretValue`
  unfoldable pub contains_secret_text : String → String → Bool
  contains_secret_text key v =
      if trim_space v == ""
      then false
      else if is_secret_key key
      then true
      else matches_secret (trim_space v)

  unfoldable mutual
    pub contains_secret_value : String → Value → Bool
    contains_secret_value key null = false
    contains_secret_value key number = false
    contains_secret_value key (string v) = contains_secret_text key v
    contains_secret_value key (array xs) = contains_secret_items key xs
    contains_secret_value key (object fs) = contains_secret_fields fs

    -- the elements of an array are judged by the array's own key
    pub contains_secret_items : String → Items → Bool
    contains_secret_items key no_items = false
    contains_secret_items key (item v rest) =
        contains_secret_value key v || contains_secret_items key rest

    pub contains_secret_fields : Fields → Bool
    contains_secret_fields no_fields = false
    contains_secret_fields (field key v rest) =
        contains_secret_value key v || contains_secret_fields rest
