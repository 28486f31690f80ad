-- ===== src/Network/Compact.antt =====
-- internal/network/planner/tun.go: `compactWarnings` and `normalizeDNSServers`, which drop blanks and repeats.
pub mod Laws
use tunwarden.Prelude.{
  String, Bool, true, false, ◌||◌, List, [], ◌∷◌, any, is_empty, if◌then◌else◌, ◌==◌,
}
use tunwarden.Text.{trim_space}
use tunwarden.Network.TunPlan.{default_tun_dns_server}

-- whether a value is in `seen`
abbrev pub has : String → List String → Bool
has value = any (λ s. s == value)

-- the loop, with the values seen so far
unfoldable pub compact_from : List String → List String → List String
compact_from seen [] = []
compact_from seen (value ∷ values) =
    let v = trim_space value in
    let skipped = compact_from seen values in
    let kept = compact_from (v ∷ seen) values in if v == "" || has v seen then skipped else v ∷ kept

unfoldable pub compact_warnings : List String → List String
compact_warnings values = compact_from [] values

-- The two loops are the same; only the default differs.
unfoldable pub normalize_dns_servers : List String → List String
normalize_dns_servers servers =
    let out = compact_from [] servers in if is_empty out then default_tun_dns_server ∷ [] else out
