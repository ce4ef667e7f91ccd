-- ===== src/Netconfig/Links.antt =====
-- netconfig/netconfig.go: the state that the package configures, and the calls that change it.
use rout.Base.{
  none, ℕ, ◌==◌, if◌then◌else◌, Bool, true, false, ◌&&◌, ◌||◌, List, [], ◌∷◌, ◌++◌, Option, some,
  Bytes, Bytes-discrete, insert, ℤ,
}
use rout.Net.{bytes_eq}
use rout.Netconfig.Firewall.{Command}

-- `hardware_addr` is its text, `up` says that the operational state is up, `addrs` are the addresses.
pub record Link : Type 0 where
  pub index : ℕ
  pub name : Bytes
  pub hardware_addr : Bytes
  pub up : Bool
  pub master : Option ℕ
  pub addrs : List Bytes

-- The fields of `netlink.Route` that the code sets. A destination is an address and the size of its
-- mask; `gw` is empty where it is not set, and so is an address that `net.ParseIP` does not read.
pub record Route : Type 0 where
  pub link_index : ℕ
  pub dst : Bytes × ℕ
  pub gw : Bytes
  pub src : Bytes
  pub scope_link : Bool
  pub protocol : ℕ

-- `wgtypes.PeerConfig` and `wgtypes.Config`.
pub record PeerConfig : Type 0 where
  pub public_key : Bytes
  pub endpoint : Option Bytes
  pub replace_allowed_ips : Bool
  pub allowed_ips : List Bytes

pub record DeviceConfig : Type 0 where
  pub private_key : Bytes
  pub listen_port : ℤ
  pub replace_peers : Bool
  pub peers : List PeerConfig

-- The links, the contents of /tmp/resolv.conf, the routes, the configuration that each WireGuard
-- device was given last, the files under /proc/sys that were written, the batch that the firewall
-- was given last, and the processes that were sent SIGUSR1, the latest first.
pub record World : Type 0 where
  pub links : List Link
  pub resolv_conf : Option Bytes
  pub routes : List Route
  pub devices : List (Bytes × DeviceConfig)
  pub sysctls : List (Bytes × Bytes)
  pub firewall : List Command
  pub signalled : List Bytes

-- The calls that change something.
pub data Op : Type 0 where
  link_add : Link → Op
  set_name : ℕ → Bytes → Op
  set_hardware_addr : ℕ → Bytes → Op
  set_up : ℕ → Op
  set_master : ℕ → ℕ → Op
  addr_replace : ℕ → Bytes → Op
  write_resolv_conf : Bytes → Op
  addr_del : ℕ → Bytes → Op
  route_replace : Route → Op
  configure_device : Bytes → DeviceConfig → Op
  write_sysctl : Bytes → Bytes → Op
  flush_batch : List Command → Op
  signal : Bytes → Op

unfoldable pub update : ℕ → (Link → Link) → List Link → List Link
update i f [] = []
update i f (l ∷ ls) = let rest = update i f ls in if l.index == i then f l ∷ ls else l ∷ rest

abbrev pub change : ℕ → (Link → Link) → World → World
change i f w = record w { links = update i f w.links }

unfoldable pub contains : List Bytes → Bytes → Bool
contains [] a = false
contains (x ∷ xs) a = bytes_eq x a || contains xs a

-- An address that is there is replaced by itself.
abbrev pub put_addr : Bytes → List Bytes → List Bytes
put_addr a addrs = if contains addrs a then addrs else a ∷ addrs

abbrev pub add_addr : Bytes → Link → Link
add_addr a l = record l { addrs = put_addr a l.addrs }

unfoldable pub remove : Bytes → List Bytes → List Bytes
remove a [] = []
remove a (x ∷ xs) = let rest = remove a xs in if bytes_eq x a then rest else x ∷ rest

abbrev pub del_addr : Bytes → Link → Link
del_addr a l = record l { addrs = remove a l.addrs }

unfoldable pub same_dst : Route → Route → Bool
same_dst r s = bytes_eq r.dst.0 s.dst.0 && r.dst.1 == s.dst.1

-- A route stands for its destination.
unfoldable pub put_route : Route → List Route → List Route
put_route r [] = r ∷ []
put_route r (s ∷ routes) =
    let rest = put_route r routes in if same_dst r s then r ∷ routes else s ∷ rest

-- Whether a link is a port of the bridge with the given index.
unfoldable pub has_port : ℕ → List Link → Bool
has_port j [] = false
has_port j (l ∷ ls) =
    let later = has_port j ls in
    elim l.master [ none ↦ later | some k ↦ if k == j then true else later ]

unfoldable pub hardware_addr_of : ℕ → List Link → Bytes
hardware_addr_of i [] = []
hardware_addr_of i (l ∷ ls) =
    let later = hardware_addr_of i ls in if l.index == i then l.hardware_addr else later

-- A bridge takes the hardware address of its first port.
unfoldable pub take_address : ℕ → ℕ → World → World
take_address i j w =
    if has_port j w.links
    then w
    else change j (λ l. record l { hardware_addr = hardware_addr_of i w.links }) w

-- What a call does if it succeeds.
unfoldable pub perform : Op → World → World
perform (link_add l) w = record w { links = w.links ++ (l ∷ []) }
perform (set_name i name) w = change i (λ l. record l { name = name }) w
perform (set_hardware_addr i a) w = change i (λ l. record l { hardware_addr = a }) w
perform (set_up i) w = change i (λ l. record l { up = true }) w
perform (set_master i j) w = change i (λ l. record l { master = some j }) (take_address i j w)
perform (addr_replace i a) w = change i (add_addr a) w
perform (write_resolv_conf b) w = record w { resolv_conf = some b }
perform (addr_del i a) w = change i (del_addr a) w
perform (route_replace r) w = record w { routes = put_route r w.routes }
perform (configure_device name c) w = record w { devices = insert Bytes-discrete name c w.devices }
perform (write_sysctl path val) w = record w { sysctls = insert Bytes-discrete path val w.sysctls }
perform (flush_batch commands) w = record w { firewall = commands }
perform (signal process) w = record w { signalled = process ∷ w.signalled }

-- Code that may return an error: the world that it leaves, and whether it went well.
abbrev pub Action : Type 0
Action = World → World × Bool

abbrev pub skip : Action
skip w = (w, true)

abbrev pub give_up : Action
give_up w = (w, false)

infixl 5 ◌>>◌
unfoldable pub ◌>>◌ : Action → Action → Action
◌>>◌ a b w = let (w', ok) = a w in let r = b w' in if ok then r else (w', false)

-- `fails` says which calls return an error; such a call changes nothing.
unfoldable pub call : (Op → Bool) → Op → Action
call fails op w = if fails op then (w, false) else (perform op w, true)
