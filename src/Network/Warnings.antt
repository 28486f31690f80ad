-- ===== src/Network/Warnings.antt =====
-- internal/network/planner/tun.go: the warnings of a plan.
use tunwarden.Prelude.{
  String, Bool, not, ◌&&◌, List, [], ◌∷◌, ◌++◌, length, is_empty, if◌then◌else◌, ◌==◌,
}
use tunwarden.Text.{◌<>◌, itoa}
use tunwarden.Network.Snapshot.{Snapshot, TunDevice, status_detected, default_tun_name}
use tunwarden.Network.TunPlan.{TunDnsPlan, TunFirewallPlan, action_blocked, policy_strict}
use tunwarden.Network.Compact.{compact_warnings}

-- one warning, under a condition
abbrev pub warn_if : Bool → String → List String
warn_if b message = if b then message ∷ [] else []

unfoldable pub tun_snapshot_warnings : Snapshot → List String
tun_snapshot_warnings s = compact_warnings (
    warn_if (not (s.default_ipv4.status == status_detected)) (
      "IPv4 default route is " <> s.default_ipv4.status
      <> "; full-tunnel planning cannot select a stable uplink yet")
    ++ warn_if (not (s.server_route.status == status_detected)) (
        "route to VPN server candidate is " <> s.server_route.status
        <> "; server bypass route planning is incomplete")
    ++ warn_if (not (s.dns.resolved.status == status_detected)) (
        "systemd-resolved state is " <> s.dns.resolved.status
        <> "; DNS planning will need fallback handling")
    ++ warn_if (not (s.nftables.availability.status == status_detected)) (
        "nftables availability is " <> s.nftables.availability.status
        <> "; firewall and kill-switch planning is incomplete")
    ++ warn_if (not (is_empty s.stale_resources)) (
        "found "
        <> itoa (length s.stale_resources)
        <> " stale podlaz-owned resource(s); recover should inspect them before applying TUN mode")
    ++ warn_if (not (s.ipv6.status == status_detected)) (
        "IPv6 state is " <> s.ipv6.status
        <> "; initial TUN planning keeps IPv6 disabled or bypassed"))

unfoldable pub device_warnings : List TunDevice → List String
device_warnings [] = []
device_warnings (device ∷ devices) =
    warn_if (device.name == default_tun_name && device.status == status_detected) (
      "podlaz TUN device " <> device.name
      <> " already exists; recover or validate ownership before applying the planned create step")
    ++ device_warnings devices

unfoldable pub tun_desired_state_warnings : Snapshot → String → List String
unfolding device_warnings
tun_desired_state_warnings s server_ip =
    let known = s.default_ipv4.status == status_detected in
    compact_warnings (
      device_warnings s.tun_devices
      ++ warn_if (known && s.default_ipv4.interface == default_tun_name)
          "current default IPv4 route already points at podlaz0; applying another full-tunnel plan could preserve a route loop"
      ++ warn_if (known && s.default_ipv4.interface == "")
          "default IPv4 route did not expose an interface; VPN server bypass cannot be applied safely yet"
      ++ warn_if (known && s.default_ipv4.gateway == "")
          "default IPv4 route did not expose a gateway; VPN server bypass can only pin the uplink interface"
      ++ warn_if (server_ip == "")
          "VPN server bypass target is unknown; route and policy-rule desired state is blocked until hostname resolution returns a concrete IP address")

unfoldable pub dns_plan_warnings : Snapshot → TunDnsPlan → List String
dns_plan_warnings s plan =
    if not (plan.action == action_blocked)
    then []
    else ("DNS desired state is blocked: systemd-resolved backend is " <> s.dns.resolved.status
        <> "; install/enable systemd-resolved or add a documented fallback before applying TUN DNS")
      ∷ []

unfoldable pub firewall_plan_warnings : Snapshot → TunFirewallPlan → List String
firewall_plan_warnings s plan = compact_warnings (
    warn_if (plan.table_action == action_blocked) (
      "firewall desired state is blocked: nftables backend is " <> s.nftables.availability.status
      <> "; install/enable nft before applying TUN firewall or kill-switch rules")
    ++ (if plan.kill_switch.policy == policy_strict
        then "strict kill-switch policy selected; direct connectivity may remain blocked after VPN failure until podlaz recovery removes owned nftables rules"
          ∷ plan.kill_switch.limitations
        else []))

unfoldable pub tun_route_loop_risks : Snapshot → List String
tun_route_loop_risks s = compact_warnings (
    warn_if
      (s.server_route.status == status_detected && s.server_route.interface == default_tun_name)
      "route to VPN server candidate points at podlaz0; this would create a routing loop"
    ++ warn_if
        (s.default_ipv4.status == status_detected && s.default_ipv4.interface == default_tun_name)
        "current default IPv4 route points at podlaz0; full-tunnel planning needs a direct uplink snapshot")
