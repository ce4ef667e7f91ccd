-- ===== src/Netconfig/Sysctls.antt =====
-- What `applySysctl` writes.
use rout.Base.{
  ◌≡◌, ◌∙◌, refl, sym, ap, inl, inr, ◌⊎◌, if◌then◌else◌, Bool, Bool-cases, Option-cases, true,
  false, List, [], ◌∷◌, ◌++◌, Option, none, some, Bytes, Bytes-discrete, lookup, lookup-insert,
  text, arith,
}
use rout.Net.{bytes_eq}
use rout.Strings.{cut, replace_all}
use rout.Netconfig.Links.{Link, World, Op, write_sysctl, signal, perform, call}
use rout.Netconfig.Bridges.{link_by_name}
use rout.Netconfig.Lease.{Outcome, succeeded, failed, panicked}
use rout.Netconfig.Apply.{
  first_link, uplink_interface, sysctls_for, sysctl_path, write_sysctls, notify, Stage, Result,
  errors, crashed, firewall, wireguard, error_unless, ifname_or_empty,
}

-- The value of a file behind the texts, from an old one.
abbrev pub written : List Bytes → Bytes → Option Bytes → Option Bytes
written [] path old = old
written (ctl ∷ ctls) path old = elim (cut b'=' ctl) [
  | none ↦ old
  | some (key, val) ↦ written ctls path (if bytes_eq (sysctl_path key) path then some val else old)
]

module _ (fails : Op → Bool) where
  pub write_sysctls-written :
      (ctls : List Bytes) (w w' : World) (path : Bytes)
      → write_sysctls fails ctls w ≡ (w', succeeded)
      → lookup Bytes-discrete path w'.sysctls
        ≡ written ctls path (lookup Bytes-discrete path w.sysctls)
  unfolding write_sysctls call perform
  write_sysctls-written [] w w' path e =
      ap (λ (r : World × Outcome). lookup Bytes-discrete path r.0.sysctls) (sym e)
  write_sysctls-written (ctl ∷ ctls) w w' path e = elim (Option-cases (cut b'=' ctl)) [
    | inl bad ↦ absurd (ground arith)
    | inr (parts, split) ↦ elim (Bool-cases (fails (write_sysctl (sysctl_path parts.0) parts.1))) [
      | inl bad ↦ absurd (ground arith)
      | inr fine ↦
          let w1 = perform (write_sysctl (sysctl_path parts.0) parts.1) w in
          let law = write_sysctls-written ctls w1 w' path (rw (split, fine, write_sysctls) at e) in
          let new = lookup-insert Bytes-discrete path (sysctl_path parts.0) parts.1 w.sysctls in
          rw (split, written) (law ∙ ap (written ctls path) (new ∙ ground arith))
    ]
  ]

first_link-cases :
    (links : List Link)
    → (ifname_or_empty (uplink_interface links) ≡ [])
      ⊎ (ifname_or_empty (uplink_interface links) ≡ text "uplink0")
      ⊎ (ifname_or_empty (uplink_interface links) ≡ text "eth0")
      ⊎ (ifname_or_empty (uplink_interface links) ≡ text "ens3")
unfolding uplink_interface first_link
first_link-cases links = elim (Option-cases (link_by_name (text "uplink0") links)) [
  | inr (l, found) ↦ inr (inl (rw (found, first_link) refl))
  | inl absent ↦ elim (Option-cases (link_by_name (text "eth0") links)) [
    | inr (l, found) ↦ inr (inr (inl (rw (absent, found, first_link) refl)))
    | inl absent' ↦ elim (Option-cases (link_by_name (text "ens3") links)) [
      | inr (l, found) ↦ inr (inr (inr (rw (absent, absent', found, first_link) refl)))
      | inl absent'' ↦ inl (rw (absent, absent', absent'', first_link) refl)
    ]
  ]
]

abbrev pub ip_forward : Bytes
ip_forward = text "/proc/sys/net/ipv4/ip_forward"

abbrev pub ip6_forwarding : Bytes
ip6_forwarding = text "/proc/sys/net/ipv6/conf/all/forwarding"

-- The kernel forwards IPv4 and IPv6.
abbrev pub Forwards : List (Bytes × Bytes) → Type 0
Forwards sysctls =
    (lookup Bytes-discrete ip_forward sysctls ≡ some (text "1"))
    × (lookup Bytes-discrete ip6_forwarding sysctls ≡ some (text "1"))

pub written-Forwards :
    (links : List Link) (old : Option Bytes)
    → (written (sysctls_for (ifname_or_empty (uplink_interface links))) ip_forward old
        ≡ some (text "1"))
      × (written (sysctls_for (ifname_or_empty (uplink_interface links))) ip6_forwarding old
          ≡ some (text "1"))
unfolding cut replace_all Bytes-discrete
written-Forwards links old = elim (first_link-cases links) [
  | inl a ↦ rw a (refl, refl)
  | inr (inl b) ↦ rw b (refl, refl)
  | inr (inr (inl c)) ↦ rw c (refl, refl)
  | inr (inr (inr d)) ↦ rw d (refl, refl)
]

Outcome-cases : (o : Outcome) → (o ≡ succeeded) ⊎ (o ≡ failed) ⊎ (o ≡ panicked)
Outcome-cases succeeded = inl refl
Outcome-cases failed = inr (inl refl)
Outcome-cases panicked = inr (inr refl)

errors_of : Result → List Stage
errors_of (errors errs) = errs
errors_of crashed = []

no_errors :
    (before : List Stage) (a b : Bool)
    → before ++ (error_unless a firewall ++ error_unless b wireguard) ≡ []
    → (before ≡ []) × (a ≡ true) × (b ≡ true)
no_errors [] true true e = (refl, refl, refl)
no_errors [] true false e = cc
no_errors [] false b e = cc
no_errors (s ∷ before) a b e = cc

snoc_nonempty : (before : List Stage) (s : Stage) → before ++ (s ∷ []) ≡ [] → ⊥
snoc_nonempty [] s e = cc
snoc_nonempty (x ∷ before) s e = cc

not_crashed : (errs : List Stage) → crashed ≡ errors errs → ⊥
not_crashed errs e = cc

notify-links :
    (fails : Op → Bool) (ps : List Bytes) (w : World) → (notify fails ps w).links ≡ w.links
unfolding notify call perform
notify-links fails [] w = refl
notify-links fails (p ∷ ps) w =
    notify-links fails ps (call fails (signal (text "/user/" ++ p)) w).0 ∙ ground arith
