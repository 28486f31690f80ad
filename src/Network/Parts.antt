-- ===== src/Network/Parts.antt =====
-- internal/network/planner/tun.go: the server's address, its route, and the DNS part of a plan. net.ParseIP,
-- with the text of the address that it reads, is the argument `parse_ip`.
use tunwarden.Prelude.{
  String, Bool, not, Option, none, some, List, [], ◌∷◌, ◌++◌, any, nat_eq, if◌then◌else◌, ◌==◌,
}
use Prim.Native.Char.{Char, code}
use Prim.Native.String.{[], ◌∷◌}
use tunwarden.Text.{◌<>◌, trim_space, fields}
use tunwarden.Network.Snapshot.{Snapshot, Route, status_detected}
use tunwarden.Network.TunPlan.{
  TunDevicePlan, TunRoutePlan, TunDnsPlan, main_routing_table, dns_backend_systemd_resolved,
  dns_rollback_restore, action_blocked,
}

-- strings.Trim with the cutset " ,;()[]"
is_cut : Char → Bool
is_cut c = any (nat_eq (code c)) (32 ∷ 44 ∷ 59 ∷ 40 ∷ 41 ∷ 91 ∷ 93 ∷ [])

cut_left : String → String
cut_left [] = ""
cut_left (c ∷ s) = let rest = cut_left s in if is_cut c then rest else c ∷ s

cut_right : String → String
cut_right [] = ""
cut_right (c ∷ s) =
    let rest = cut_right s in
    let kept : String = c ∷ rest in if rest == "" then (if is_cut c then "" else kept) else kept

unfoldable pub trim_marks : String → String
unfolding is_cut cut_left cut_right
trim_marks s = cut_right (cut_left s)

module _ (parse_ip : String → Option String) where
  unfoldable pub first_ip : List String → Option String
  first_ip [] = none
  first_ip (value ∷ values) =
      let rest = first_ip values in
      elim (parse_ip (trim_marks value)) [ some ip ↦ some ip | none ↦ rest ]

  unfoldable pub first_ip_from_route : Route → String
  first_ip_from_route route = elim (first_ip (fields route.raw ++ fields route.detail)) [
    | some ip ↦ ip
    | none ↦ elim (parse_ip (trim_space route.destination)) [ some ip ↦ ip | none ↦ "" ]
  ]

  unfoldable pub concrete_server_bypass_ip : Snapshot → String
  concrete_server_bypass_ip s =
      if not (s.server_route.status == status_detected)
      then ""
      else first_ip_from_route s.server_route

unfoldable pub server_bypass_route : Snapshot → String → TunRoutePlan
server_bypass_route s server_ip =
    if server_ip == ""
    then record {
      family = "ipv4";
      destination = "<server-ip>";
      table = main_routing_table;
      interface = "";
      gateway = "";
      action = action_blocked;
      reason = "server route did not resolve to a concrete IP address";
    }
    else record {
      family = "ipv4";
      destination = server_ip <> "/32";
      table = main_routing_table;
      interface = s.default_ipv4.interface;
      gateway = s.default_ipv4.gateway;
      action = "add";
      reason = "pin VPN server traffic to the current default uplink outside the TUN path";
    }

unfoldable pub dns_plan : Snapshot → TunDevicePlan → List String → TunDnsPlan
dns_plan s device servers =
    let blocked = not (s.dns.resolved.status == status_detected) in
    record {
      backend = dns_backend_systemd_resolved;
      target_link = device.name;
      servers = servers;
      action = if blocked then action_blocked else "configure";
      reason =
          if blocked
          then "systemd-resolved state is " <> s.dns.resolved.status
            <> "; DNS mutation is unsafe until the backend is detected"
          else "use systemd-resolved per-link DNS for full-tunnel DNS routing without writing /etc/resolv.conf";
      rollback = dns_rollback_restore;
      rollback_steps =
          ("Restore previous systemd-resolved per-link DNS state for " <> device.name
            <> " where possible")
          ∷ ("Flush podlaz-owned DNS server/default-route/domain settings from " <> device.name
              <> " if created by this transaction")
          ∷ [];
    }
