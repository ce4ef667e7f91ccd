-- ===== src/LeaseServer/Store.antt =====
-- cmd/dhcp4d/dhcp4d.go: the callback `handler.Leases`, and the messages that lead to it.
use rout.Base.{ℕ, ◌+◌, if◌then◌else◌, Bool, true, List, [], ◌∷◌, Option, none, some, Bytes, ℤ}
use rout.Dhcp4d.Handler.{
  Lease, Options, Handler, expired, find_ip, new_handler, set_hostname, HostnameResult,
}
use rout.Dhcp4d.Serve.{MessageType, Packet, DhcpLibrary, Ambient, Frame, serve}

-- `json.Marshal` of the leases and of one, and `json.Indent`; `none` is an error.
pub record JsonLibrary : Type 0 where
  pub marshal_leases : List Lease → Option Bytes
  pub marshal_lease : Lease → Option Bytes
  pub indent : Bytes → Option Bytes

pub data ServerError : Type 0 where
  cannot_marshal cannot_write : ServerError

-- The handler, the variable `leases`, the contents of leases.json, the gauge `nonExpiredLeases`, and
-- what was sent on `errs`, the latest first. The leases are shared with the handler, which changes them
-- in place or calls `Leases` again, so they are given by their numbers in it.
pub record Server : Type 0 where
  pub handler : Handler
  pub leases : List ℤ
  pub file : Option Bytes
  pub non_expired : ℕ
  pub errs : List ServerError

-- `newSrv` once the listeners, the interface and the socket are there; `file` is what leases.json holds.
unfoldable pub new_srv : Bytes → Bytes → Option Bytes → Server
new_srv link_address iface_hardware_addr file = record {
  handler = record (new_handler link_address iface_hardware_addr) { has_callback = true };
  leases = [];
  file = file;
  non_expired = 0;
  errs = [];
}

-- The count of `updateNonExpired`.
unfoldable pub count_non_expired : ℕ → List Lease → ℕ
count_non_expired now [] = 0
count_non_expired now (l ∷ ls) =
    let rest = count_non_expired now ls in if expired l now then rest else rest + 1

abbrev pub nums : List Lease → List ℤ
nums [] = []
nums (l ∷ ls) = l.num ∷ nums ls

-- The leases that the numbers stand for.
unfoldable pub shared : Handler → List ℤ → List Lease
shared h [] = []
shared h (n ∷ ns) = elim (find_ip h n) [ none ↦ shared h ns | some l ↦ l ∷ shared h ns ]

abbrev pub indented : JsonLibrary → Bytes → Bytes
indented json b = elim (json.indent b) [ none ↦ b | some out ↦ out ]

module _ (json : JsonLibrary) (write_fails : Bool) (now : ℕ) where
  unfoldable pub write_leases : Bytes → Server → Server
  write_leases b s =
      if write_fails
      then record s { errs = cannot_write ∷ s.errs }
      else record s { file = some (indented json b) }

  -- `handler.Leases`, of which the second argument is only logged.
  unfoldable pub on_leases : List Lease → Server → Server
  on_leases new_leases s =
      let stored = record s { leases = nums new_leases } in
      elim (json.marshal_leases new_leases) [
        | none ↦ record stored { errs = cannot_marshal ∷ s.errs }
        | some b ↦ record (write_leases b stored) { non_expired = count_non_expired now new_leases }
      ]

  -- The calls of the callback that an operation of the handler made, the newest first.
  unfoldable pub call_back : List (List Lease × Lease) → Server → Server
  call_back [] s = s
  call_back ((new_leases, latest) ∷ earlier) s = on_leases new_leases (call_back earlier s)

  -- The state behind an operation of the handler that left `h`.
  unfoldable pub take_over : Handler → Server → Server
  take_over h s = call_back h.published (record s { handler = record h { published = [] } })

  -- A message that `dhcp4.Serve` hands to the handler.
  unfoldable pub serve_message :
      DhcpLibrary → Ambient → Packet → MessageType → Options → Server → Server × Option Frame
  serve_message lib a p msg_type options s =
      let (h, frame) = serve lib (record s.handler { published = [] }) a p msg_type options in
      (take_over h s, frame)

  -- The call of `SetHostname` by the web page.
  unfoldable pub change_hostname : Bytes → Bytes → Server → Server × HostnameResult
  change_hostname hwaddr hostname s =
      let (h, result) = set_hostname (record s.handler { published = [] }) now hwaddr hostname in
      (take_over h s, result)
