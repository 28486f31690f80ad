-- ===== src/Profile/Validate/Server.antt =====
-- What `Validate` lets through as the server and the port of a profile with a single endpoint.
use Prim.Native.Char.{Char, code}
use Prim.Native.String.{[], ◌∷◌}
use tunwarden.Prelude.{
  ℕ, zero, suc, ◌≤◌, ◌≡◌, ◌≢◌, refl, ◌⊎◌, inl, inr, String, Bool, true, false, ◌&&◌, List, [], ◌∷◌,
  ◌++◌, All, Bool-cases, arith, nat_eq, ◌==◌, eq_iff, if◌then◌else◌,
}
use tunwarden.Result.{ok}
use tunwarden.Text.{text_length, split, has_prefix, has_suffix, trim_space}
use tunwarden.Text.Laws.{all_chars, cons-ne-empty}
use tunwarden.Profile.Model.{Profile}
use tunwarden.Profile.Provider.{Library, is_provider_xray_config_profile}
use tunwarden.Profile.Validate.{
  is_label_char, is_alphanumeric, label_rest, hostname_label, all_labels, valid_hostname,
  contains_blank, when, port_range, user_messages, server_messages, flat_messages, messages, report,
  validate, Message, id_messages, name_required, source_messages, engine_messages,
  protocol_messages, provider_messages,
}

abbrev starts_alphanumeric : String → Bool
starts_alphanumeric [] = false
starts_alphanumeric (c ∷ s) = is_alphanumeric (code c)

abbrev ends_alphanumeric : String → Bool
ends_alphanumeric [] = false
ends_alphanumeric (c ∷ s) =
    let rest = ends_alphanumeric s in if s == "" then is_alphanumeric (code c) else rest

-- A label of a host name: from 1 to 63 letters, digits and hyphens, with no hyphen at either end.
abbrev pub IsLabel : String → Type 0
IsLabel s =
    (1 ≤ text_length s)
    × (text_length s ≤ 63)
    × (all_chars is_label_char s ≡ true)
    × (starts_alphanumeric s ≡ true)
    × (ends_alphanumeric s ≡ true)

-- what stands behind the first character of a label
abbrev IsRest : ℕ → String → Type 0
IsRest n s =
    (text_length s ≤ suc n) × (all_chars is_label_char s ≡ true) × (ends_alphanumeric s ≡ true)

single-IsRest :
    (n : ℕ) (c : Char) (s : String)
    → (is_alphanumeric (code c) && s == "") ≡ true
    → IsRest n (c ∷ s)
unfolding text_length
single-IsRest n c s h =
    rw ((eq_iff s "").0 (ground arith)) (ground arith, ground arith, ground arith)

longer-IsRest :
    (n : ℕ) (c : Char) (s : String)
    → is_label_char (code c) ≡ true
    → IsRest n s
    → IsRest (suc n) (c ∷ s)
unfolding text_length
longer-IsRest n c [] h (k, a, e) = absurd cc
longer-IsRest n c (d ∷ s) h (k, a, e) = (ground arith, rw h a, rw (cons-ne-empty d s) e)

label_rest-IsRest : (n : ℕ) (s : String) → label_rest n s ≡ true → IsRest n s
unfolding label_rest
label_rest-IsRest n [] h = absurd cc
label_rest-IsRest zero (c ∷ s) h = single-IsRest 0 c s h
label_rest-IsRest (suc n) (c ∷ s) h = elim (Bool-cases (is_alphanumeric (code c) && s == "")) [
  | inl e ↦ single-IsRest (suc n) c s e
  | inr e ↦
      let k = rw e at h in longer-IsRest n c s (ground arith) (label_rest-IsRest n s (ground arith))
]

hostname_label-IsLabel : (s : String) → hostname_label s ≡ true → IsLabel s
unfolding hostname_label text_length
hostname_label-IsLabel [] h = absurd cc
hostname_label-IsLabel (c ∷ s) h = elim (Bool-cases (s == "")) [
  | inl e ↦
      let (k, a, e') = single-IsRest 0 c s (ground arith) in
      (ground arith, ground arith, a, ground arith, e')
  | inr e ↦
      let (k, a, e') = label_rest-IsRest 61 s (ground arith) in
      (ground arith, ground arith, ground arith, ground arith, rw e e')
]

all_labels-All : (labels : List String) → all_labels labels ≡ true → All IsLabel labels
unfolding all_labels
all_labels-All [] h = tt
all_labels-All (s ∷ labels) h =
    (hostname_label-IsLabel s (ground arith), all_labels-All labels (ground arith))

-- A host name of at most 253 characters, which does not begin or end with a dot, of labels.
abbrev pub IsHostname : String → Type 0
IsHostname host =
    (text_length host ≤ 253)
    × (has_prefix host "." ≡ false)
    × (has_suffix host "." ≡ false)
    × All IsLabel (split b'.' host)

valid_hostname-IsHostname : (host : String) → valid_hostname host ≡ true → IsHostname host
unfolding valid_hostname
valid_hostname-IsHostname host h =
    (ground arith, ground arith, ground arith, all_labels-All (split b'.' host) (ground arith))

both_empty {ℓ} : {A : Type ℓ} (xs ys : List A) → xs ++ ys ≡ [] → (xs ≡ []) × (ys ≡ [])
both_empty [] ys h = (refl, h)
both_empty (x ∷ xs) ys h = absurd cc

reported : (ms : List Message) → report ms ≡ ok tt → ms ≡ []
unfolding report
reported [] h = refl
reported (m ∷ ms) h = absurd cc

when-quiet : (b : Bool) (m : Message) → when b m ≡ [] → b ≡ false
when-quiet true m h = absurd cc
when-quiet false m h = refl

module _ (l : Library) (p : Profile) where
  -- the server of a profile that connects to one endpoint
  abbrev pub IsEndpoint : Type 0
  IsEndpoint =
      (p.port ≢ 0)
      × (contains_blank p.server ≡ false)
      × ((l.parses_ip p.server ≡ true) ⊎ IsHostname p.server)

  flat_of_messages :
      messages l p ≡ [] → is_provider_xray_config_profile p ≡ false → flat_messages l p ≡ []
  unfolding messages
  flat_of_messages h flat =
      let (_, last) =
        both_empty
          (id_messages p
            ++ when (trim_space p.name == "") name_required
            ++ source_messages p
            ++ engine_messages p
            ++ protocol_messages p)
          (if is_provider_xray_config_profile p then provider_messages l p else flat_messages l p)
          h in
      rw flat at last

  server_of_messages :
      server_messages l p ≡ []
      → (contains_blank p.server ≡ false) × ((l.parses_ip p.server ≡ true) ⊎ IsHostname p.server)
  unfolding server_messages
  server_of_messages h = elim (Bool-cases (trim_space p.server == "")) [
    | inl e ↦ absurd (let k = rw e at h in cc)
    | inr e ↦ elim (Bool-cases (contains_blank p.server)) [
      | inl b ↦ absurd (let k = rw (e, b) at h in cc)
      | inr b ↦
          let k = when-quiet _ _ (rw (e, b) at h) in
          (
            b,
            elim (Bool-cases (l.parses_ip p.server)) [
              | inl i ↦ inl i
              | inr i ↦ inr (valid_hostname-IsHostname p.server (ground arith))
            ],
          )
    ]
  ]

  endpoint_of_messages : flat_messages l p ≡ [] → IsEndpoint
  unfolding flat_messages
  endpoint_of_messages h =
      let (h1, _) =
        both_empty (server_messages l p ++ when (nat_eq p.port 0) port_range) (user_messages p) h in
      let (s, q) = both_empty (server_messages l p) (when (nat_eq p.port 0) port_range) h1 in
      let z = when-quiet (nat_eq p.port 0) port_range q in
      let (b, e) = server_of_messages s in (ground arith, b, e)

-- A profile that `Validate` accepts and that is no provider's configuration has a port that is not 0,
-- and a server with no blank in it that is an IP address or a host name: at most 253 characters, no dot
-- at either end, and labels of 1 to 63 letters, digits and hyphens between the dots, with no hyphen at
-- the ends of a label.
pub accepted_server_is_endpoint :
    (l : Library) (p : Profile)
    → validate l p ≡ ok tt
    → is_provider_xray_config_profile p ≡ false
    → IsEndpoint l p
unfolding validate
accepted_server_is_endpoint l p h flat =
    endpoint_of_messages l p (flat_of_messages l p (reported (messages l p) h) flat)
