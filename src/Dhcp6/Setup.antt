-- ===== src/Dhcp6/Setup.antt =====
-- dhcp/dhcp6/dhcp6.go: `NewClient`.
use rout.Base.{ℕ, List, [], Option, none, some, Bytes}
use rout.Strings.{format_decimal}
use rout.Dhcp6.Client.{Client}

pub data Try {ℓ} (A : Type ℓ) : Type ℓ where
  ok : A → Try A
  err : Bytes → Try A

infixl 5 ◌>>=◌
abbrev pub ◌>>=◌ {ℓ κ} : {A : Type ℓ} {B : Type κ} → Try A → (A → Try B) → Try B
ok a >>= f = f a
err e >>= f = err e

pub record UdpAddr : Type 0 where
  pub ip : Bytes
  pub port : ℕ
  pub zone : Bytes

-- `none` is nil.
pub record ClientConfig : Type 0 where
  pub interface_name : Bytes
  pub local_addr : Option UdpAddr
  pub remote_addr : Option UdpAddr
  pub duid : Option Bytes
  pub conn : Option UdpAddr
  pub transaction_ids : List ℕ
  pub hardware_addr : Option Bytes

-- A DUID: read from bytes, or one of kind LLT with the time and the hardware address.
pub data Duid : Type 0 where
  duid_bytes : Bytes → Duid
  duid_llt : ℕ → Bytes → Duid

-- What the setup calls: `InterfaceByName` with the index and the hardware address, and functions of
-- github.com/insomniacslk/dhcp. A connection is named by its local address; `listen` is the error.
pub record Host : Type 0 where
  pub interface_by_name : Bytes → Try (ℕ × Bytes)
  pub get_link_local_addr : Bytes → Try Bytes
  pub duid_from_bytes : Bytes → Option Bytes
  pub get_time : ℕ
  pub all_relays_and_servers : Bytes
  pub client_port : ℕ
  pub server_port : ℕ
  pub listen : UdpAddr → Option Bytes

-- A new client's fields that the exchanges do not change, and the others.
pub record NewClient : Type 0 where
  pub name : Bytes
  pub hardware_addr : Bytes
  pub raddr : UdpAddr
  pub conn : UdpAddr
  pub duid : Duid
  pub client : Client

abbrev pub or_else {ℓ} : {A : Type ℓ} → Option A → A → A
or_else none a = a
or_else (some b) a = b

module _ (host : Host) where
  unfoldable pub local_address : ClientConfig → ℕ → Try UdpAddr
  local_address cfg index = elim cfg.local_addr [
    | some laddr ↦ ok laddr
    | none ↦ do
      ll_addr ← host.get_link_local_addr cfg.interface_name
      ok (record { ip = ll_addr; port = host.client_port; zone = format_decimal index })
  ]

  abbrev pub remote_address : ClientConfig → UdpAddr
  remote_address cfg =
      or_else cfg.remote_addr
        (record { ip = host.all_relays_and_servers; port = host.server_port; zone = [] })

  unfoldable pub choose_duid : ClientConfig → Bytes → Try Duid
  choose_duid cfg hardware_addr = elim cfg.duid [
    | none ↦ ok (duid_llt host.get_time hardware_addr)
    | some b ↦ elim (host.duid_from_bytes b) [ some e ↦ err e | none ↦ ok (duid_bytes b) ]
  ]

  unfoldable pub open_connection : ClientConfig → UdpAddr → Try UdpAddr
  open_connection cfg laddr = elim cfg.conn [
    | some conn ↦ ok conn
    | none ↦ elim (host.listen laddr) [ some e ↦ err e | none ↦ ok laddr ]
  ]

  abbrev pub blank_client : List ℕ → Client
  blank_client ids = record {
    advertise = none;
    cfg = record { renew_after = 0; prefixes = []; dns = [] };
    err = none;
    transaction_ids = ids;
  }

  unfoldable pub new_client : ClientConfig → Try NewClient
  new_client cfg = do
    iface ← host.interface_by_name cfg.interface_name
    laddr ← local_address cfg iface.0
    let hardware_addr = or_else cfg.hardware_addr iface.1
    duid ← choose_duid cfg hardware_addr
    conn ← open_connection cfg laddr
    ok (record {
      name = cfg.interface_name;
      hardware_addr = hardware_addr;
      raddr = remote_address cfg;
      conn = conn;
      duid = duid;
      client = blank_client cfg.transaction_ids;
    })
