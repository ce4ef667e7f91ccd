-- ===== src/Netconfig/Bridges.antt =====
-- netconfig/netconfig.go: `applyBridges`.
use rout.Base.{
  ℕ, if◌then◌else◌, Bool, true, false, not, ◌||◌, List, [], ◌∷◌, Option, none, some, Bytes,
  is_empty,
}
use rout.Net.{bytes_eq}
use rout.Netconfig.Links.{
  Link, Op, link_add, set_up, set_master, contains, Action, skip, ◌>>◌, call,
}

pub record BridgeDetails : Type 0 where
  pub name : Bytes
  pub interface_hardware_addrs : List Bytes

-- `LinkByName`
unfoldable pub link_by_name : Bytes → List Link → Option Link
link_by_name name [] = none
link_by_name name (l ∷ ls) =
    let later = link_by_name name ls in if bytes_eq l.name name then some l else later

module _ (new_bridge : List Link → Bytes → Link) (fails : Op → Bool) where
  unfoldable pub create_bridge : Bytes → Action
  create_bridge name w = elim (link_by_name name w.links) [
    | none ↦ call fails (link_add (new_bridge w.links name)) w
    | some _ ↦ (w, true)
  ]

  unfoldable pub up_unless : Link → Action
  up_unless l = if l.up then skip else call fails (set_up l.index)

  -- The loop over the links, for the bridge with the given index.
  unfoldable pub add_ports : BridgeDetails → ℕ → List Link → Action
  add_ports bridge index [] = skip
  add_ports bridge index (l ∷ ls) =
      let rest = add_ports bridge index ls in
      if is_empty l.hardware_addr
        || not (contains bridge.interface_hardware_addrs l.hardware_addr)
        || bytes_eq l.name bridge.name
      then rest
      else call fails (set_master l.index index) >> up_unless l >> rest

  -- The part behind the creation; `list_fails` is an error of `LinkList`.
  unfoldable pub fill_bridge : Bool → BridgeDetails → Action
  fill_bridge list_fails bridge w = elim (link_by_name bridge.name w.links) [
    | none ↦ (w, false)
    | some l ↦
        if list_fails then (w, false) else (add_ports bridge l.index w.links >> up_unless l) w
  ]

  unfoldable pub apply_bridges : Bool → List BridgeDetails → Action
  apply_bridges list_fails [] = skip
  apply_bridges list_fails (bridge ∷ rest) =
      create_bridge bridge.name >> fill_bridge list_fails bridge >> apply_bridges list_fails rest
