-- ===== src/LeaseServer/Listed.antt =====
-- Who sees the page of cmd/dhcp4d, and what it lists.
use rout.Base.{
  ◌≢◌, ◌⊎◌, is_empty, ℕ, ◌≡◌, ◌<◌, refl, inl, inr, subst, Bool-cases, Option-cases, true, false,
  List, [], ◌∷◌, ◌++◌, some, Bytes, All, length, arith,
}
use mathlib.Core.List.{Perm}
use mathlib.Core.List.Perm
use rout.Networking.{is_private_addr}
use rout.Networking.Scope.{IsPrivate, is_private_addr-true}
use rout.Oui.Database.{Db}
use rout.Sort.Slice.{SortLaws, Rearranges-Perm, Rearranges-All, Ascends}
use rout.Dhcp4d.Handler.{Lease}
use rout.LeaseServer.Store.{Server, shared}
use rout.LeaseServer.Web.{
  HttpRequest, TmplLease, home_page, aborted, HostLibrary, split_leases, num_less, not_before,
  client_addr, SortSlice, show_leases, handle_home,
}
use rout.LeaseServer.Rows.{
  Shows, leases_of, split_leases-Split, split_leases_short, num_less-StrictWeak, NumLe, empty-nil,
}

-- What the page shows of some leases.
abbrev pub Lists : Db → ℕ → List Lease → List TmplLease → List TmplLease → Type 0
Lists db now ls static dynamic =
    Perm (leases_of (static ++ dynamic)) ls
    × All (λ row. Shows db now row × (row.static ≡ true)) static
    × All (λ row. Shows db now row × (row.static ≡ false)) dynamic
    × Ascends NumLe static

-- Who may see the page: a client at a private address; one at a loopback address that names another in
-- X-Forwarded-For may if that is a private address, and the header of no other client counts.
abbrev pub HasAccess : HostLibrary → HttpRequest → Bytes → Type 0
HasAccess net r host =
    (IsPrivate net.ip (net.parse_ip host)
      × ((net.ip.is_loopback (net.parse_ip host) ≡ false) ⊎ (r.forwarded_for ≡ [])))
    ⊎ ((net.ip.is_loopback (net.parse_ip host) ≡ true)
        × (r.forwarded_for ≢ [])
        × IsPrivate net.ip (net.parse_ip r.forwarded_for))

client_addr-HasAccess :
    (net : HostLibrary) (r : HttpRequest) (host : Bytes)
    → IsPrivate net.ip (client_addr net r host)
    → HasAccess net r host
unfolding client_addr
client_addr-HasAccess net r host p = elim (Bool-cases (net.ip.is_loopback (net.parse_ip host))) [
  | inr remote ↦ inl (rw (remote, client_addr) at p, inl remote)
  | inl local ↦ elim (Bool-cases (is_empty r.forwarded_for)) [
    | inl none_named ↦
        inl (rw (local, none_named, client_addr) at p, inr (empty-nil r.forwarded_for none_named))
    | inr named ↦ inr (local, λ e. absurd (ground arith), rw (local, named, client_addr) at p)
  ]
]

module _ (sort_slice : SortSlice) (laws : SortLaws sort_slice) where
  show_leases-Lists :
      (db : Db) (now : ℕ) (ls : List Lease) (static dynamic : List TmplLease)
      → show_leases sort_slice db now ls ≡ home_page static dynamic
      → Lists db now ls static dynamic
  unfolding show_leases
  show_leases-Lists db now ls static dynamic e = elim (Option-cases (split_leases db now ls)) [
    | inl bad ↦ absurd (ground arith)
    | inr (rest, split) ↦
        let part = split_leases-Split db now ls rest.0 rest.1 split in
        let first = laws.rearranges num_less rest.0 in
        let second = laws.rearranges not_before rest.1 in
        let s_is : sort_slice num_less rest.0 ≡ static = ground arith in
        let d_is : sort_slice not_before rest.1 ≡ dynamic = ground arith in
        subst (λ (xs : List TmplLease). Lists db now ls xs dynamic) s_is
          (subst (λ (xs : List TmplLease). Lists db now ls (sort_slice num_less rest.0) xs) d_is
            (
              Perm.trans
                  (Perm.map (λ (x : TmplLease). x.lease)
                    (Perm.trans
                      (Perm.append_right (sort_slice not_before rest.1) (Rearranges-Perm first))
                      (Perm.append_left rest.0 (Rearranges-Perm second))))
                  part.perm,
              Rearranges-All _ first part.static_all,
              Rearranges-All _ second part.dynamic_all,
              laws.orders num_less rest.0 num_less-StrictWeak,
            ))
  ]

  -- If `sort.Slice` rearranges what it sorts, and puts it in order where it is given a strict weak order,
  -- then the page is shown only to a client at an address that is private, loopback, link-local or
  -- multicast; X-Forwarded-For, which must name such an address too, counts only for one at a loopback
  -- address. It lists every lease exactly once, the permanent ones by number and apart from the others,
  -- each with the vendor of the first eight characters of its hardware address and with its state.
  pub handle_home-Lists :
      (net : HostLibrary) (db : Db) (now : ℕ) (s : Server) (r : HttpRequest)
      (static dynamic : List TmplLease)
      → handle_home sort_slice net db now s r ≡ home_page static dynamic
      → (host : Bytes) × (net.split_host_port r.remote_addr ≡ some host)
        × HasAccess net r host
        × Lists db now (shared s.handler s.leases) static dynamic
  unfolding handle_home
  handle_home-Lists net db now s r static dynamic e =
      elim (Option-cases (net.split_host_port r.remote_addr)) [
        | inl bad ↦ absurd (ground arith)
        | inr (host, split) ↦
            elim (Bool-cases (is_private_addr net.ip [] (client_addr net r host))) [
              | inr public ↦ absurd (ground arith)
              | inl private ↦
                  let (_, within) =
                    is_private_addr-true net.ip [] (client_addr net r host) private in
                  (
                    host,
                    split,
                    client_addr-HasAccess net r host within,
                    show_leases-Lists db now (shared s.handler s.leases) static dynamic
                        (ground arith),
                  )
            ]
      ]

-- One lease with a hardware address of less than eight characters, such as `ab:cd`, is enough for the
-- page to panic for every client that may see it.
pub handle_home_panics :
    (sort_slice : SortSlice) (net : HostLibrary) (db : Db) (now : ℕ) (s : Server) (r : HttpRequest)
    (host : Bytes) (front : List Lease) (l : Lease) (rest : List Lease)
    → net.split_host_port r.remote_addr ≡ some host
    → is_private_addr net.ip [] (client_addr net r host) ≡ true
    → shared s.handler s.leases ≡ front ++ (l ∷ rest)
    → length l.hardware_addr < 8
    → handle_home sort_slice net db now s r ≡ aborted
unfolding handle_home show_leases
handle_home_panics sort_slice net db now s r host front l rest split private listed short =
    let stuck = split_leases_short db now front l rest short in
    rw (split, private, listed, stuck, handle_home, show_leases) refl
