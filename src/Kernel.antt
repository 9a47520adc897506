-- ===== src/Kernel.antt =====
-- nat/util.go: how the address of a KNI interface is set, by calls of the kernel that may fail.
use Prim.Native.String.{String}
use nff_go_nat.Base.{Bool, true, false, not, ◌==◌, if◌then◌else◌, List, [], ◌∷◌, ◌++◌}
use nff_go_nat.Net.{IPv4Address, IPv6Address, zero_ipv6_addr, same_bytes}
use nff_go_nat.Config.{IpPort, has_kni}

pub data LinkAddress : Type 0 where
  link4 : IPv4Address → IPv4Address → LinkAddress
  link6 : IPv6Address → IPv6Address → LinkAddress

-- The calls: of package netlink for the interface of a name, and on its carrier file under /sys.
pub data KernelCall : Type 0 where
  link_by_name link_set_up open_carrier write_carrier close_carrier : String → KernelCall
  addr_del addr_add : String → LinkAddress → KernelCall

-- The kernel, no part of the repository: whether a call succeeds after the calls before it.
abbrev pub Kernel : Type 0
Kernel = List KernelCall → KernelCall → Bool

-- Calls in a row, up to the first that fails, with what was called and whether all succeeded.
unfoldable pub run_calls : Kernel → List KernelCall → List KernelCall → Bool × List KernelCall
run_calls kernel log [] = (true, log)
run_calls kernel log (call ∷ calls) =
    let rest = run_calls kernel (log ++ (call ∷ [])) calls in
    if kernel log call then rest else (false, log ++ (call ∷ []))

-- bringInterfaceUp
unfoldable pub bring_interface_up : String → List KernelCall
bring_interface_up name =
    link_set_up name ∷ open_carrier name ∷ write_carrier name ∷ close_carrier name ∷ []

abbrev pub if_any : Bool → List KernelCall → List KernelCall
if_any b calls = if b then calls else []

-- setLinkIPv4KNIAddress
unfoldable pub ipv4_calls :
    String → IPv4Address → IPv4Address → IPv4Address → IPv4Address → Bool → List KernelCall
unfolding bring_interface_up
ipv4_calls name addr mask oldaddr oldmask bringup =
    link_by_name name ∷ if_any (not (oldaddr == 0)) (addr_del name (link4 oldaddr oldmask) ∷ [])
    ++ (if_any bringup (bring_interface_up name) ++ (addr_add name (link4 addr mask) ∷ []))

unfoldable pub set_link_ipv4 :
    Kernel
    → List KernelCall
    → IpPort
    → IPv4Address
    → IPv4Address
    → IPv4Address
    → IPv4Address
    → Bool
    → Bool × List KernelCall
unfolding ipv4_calls run_calls has_kni
set_link_ipv4 kernel log port addr mask oldaddr oldmask bringup =
    if has_kni port
    then run_calls kernel log (ipv4_calls port.kni_name addr mask oldaddr oldmask bringup)
    else (true, log)

-- setLinkIPv6KNIAddress brings the interface up before it removes the old address.
unfoldable pub ipv6_calls :
    String → IPv6Address → IPv6Address → IPv6Address → IPv6Address → Bool → List KernelCall
unfolding bring_interface_up same_bytes
ipv6_calls name addr mask oldaddr oldmask bringup =
    link_by_name name ∷ if_any bringup (bring_interface_up name)
    ++ (if_any (not (same_bytes oldaddr zero_ipv6_addr))
          (addr_del name (link6 oldaddr oldmask) ∷ [])
        ++ (addr_add name (link6 addr mask) ∷ []))

unfoldable pub set_link_ipv6 :
    Kernel
    → List KernelCall
    → IpPort
    → IPv6Address
    → IPv6Address
    → IPv6Address
    → IPv6Address
    → Bool
    → Bool × List KernelCall
unfolding ipv6_calls run_calls has_kni
set_link_ipv6 kernel log port addr mask oldaddr oldmask bringup =
    if has_kni port
    then run_calls kernel log (ipv6_calls port.kni_name addr mask oldaddr oldmask bringup)
    else (true, log)
