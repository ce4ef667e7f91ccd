-- ===== src/Netconfig/Replaced.antt =====
-- What `applyDhcp4` does with the addresses and the routes, call by call.
use rout.Base.{
  ℕ, ◌≡◌, refl, inl, inr, subst, Bool, Bool-cases, true, false, not, ◌&&◌, ◌||◌, List, [], ◌∷◌,
  ◌++◌, Bytes, arith,
}
use rout.Net.{bytes_eq}
use rout.Dhcp4.Client.{Config}
use rout.Netconfig.Links.{
  Link, Route, World, Op, addr_replace, addr_del, route_replace, contains, put_addr, add_addr,
  remove, del_addr, put_route, perform, ◌>>◌, call,
}
use rout.Netconfig.Interfaces.{NetLibrary}
use rout.Netconfig.Lease.{
  v4_addrs, addrs_of, delete_addrs, delete_old, router_route, default_route, replace_lease,
}
use rout.Netconfig.Reroutes.{Reroutes, Reroutes-seq, Reroutes-call, Reroutes-skip}
use rout.Netconfig.Addrs.{kept, contains-kept, contains-put_addr, contains-v4_addrs, addrs_of-focus}
use rout.Netconfig.Moves.{Unlike, Moves, Moves-seq, Moves-skip, Moves-call}

module _ (lib : NetLibrary) (fails : Op → Bool) where
  Moves-route :
      (r : Route) (done : List Link) (l : Link) (rest : List Link)
      → Moves (call fails (route_replace r)) done l l rest
  unfolding Moves call perform
  Moves-route r done l rest w w' at e = elim (Bool-cases (fails (route_replace r))) [
    | inl bad ↦ absurd (ground arith)
    | inr fine ↦
        let same : record w { routes = put_route r w.routes } ≡ w' = ground arith in
        subst (λ (x : World). x.links ≡ done ++ (l ∷ rest)) same at
  ]

  delete_addrs-Moves :
      (i : ℕ) (got_addr : Bytes) (old : List Bytes) (done : List Link) (l : Link) (rest : List Link)
      → Unlike i done
      → l.index ≡ i
      → Moves
          (delete_addrs lib fails i got_addr old)
          done
          l
          (record l { addrs = kept got_addr old l.addrs })
          rest
  unfolding delete_addrs perform
  delete_addrs-Moves i got_addr [] done l rest no_other is = Moves-skip done l rest
  delete_addrs-Moves i got_addr (a ∷ old) done l rest no_other is =
      elim (Bool-cases (bytes_eq a got_addr)) [
        | inl same ↦
            rw (same, delete_addrs) (delete_addrs-Moves i got_addr old done l rest no_other is)
        | inr other ↦
            rw (other, delete_addrs)
              (Moves-seq (call fails (addr_del i a)) (delete_addrs lib fails i got_addr old) done l
                (del_addr a l) (record l { addrs = kept got_addr old (remove a l.addrs) }) rest
                (Moves-call fails (addr_del i a) i (del_addr a) done l rest (λ w. refl) no_other is)
                (delete_addrs-Moves i got_addr old done (del_addr a l) rest no_other is))
      ]

  delete_addrs-Reroutes :
      (i : ℕ) (got_addr : Bytes) (old : List Bytes)
      → Reroutes (delete_addrs lib fails i got_addr old) (λ r. r)
  unfolding delete_addrs perform
  delete_addrs-Reroutes i got_addr [] = Reroutes-skip
  delete_addrs-Reroutes i got_addr (a ∷ old) = elim (Bool-cases (bytes_eq a got_addr)) [
    | inl same ↦ rw (same, delete_addrs) (delete_addrs-Reroutes i got_addr old)
    | inr other ↦
        rw (other, delete_addrs)
          (Reroutes-seq (call fails (addr_del i a)) (delete_addrs lib fails i got_addr old) (λ r. r)
            (λ r. r) (Reroutes-call fails (addr_del i a) (λ r. r) (λ w. refl))
            (delete_addrs-Reroutes i got_addr old))
  ]

  -- The addresses that stay on the uplink, and the routes behind the two replacements.
  abbrev pub leased_addrs : Bytes → Bytes → List Bytes → List Bytes
  leased_addrs got_addr addr addrs =
      kept got_addr (v4_addrs lib.is_v4 (put_addr addr addrs)) (put_addr addr addrs)

  abbrev pub leased_routes : Config → ℕ → List Route → List Route
  leased_routes got i routes =
      put_route (default_route lib fails got i) (put_route (router_route lib fails got i) routes)

  delete_old-Moves :
      (list_fails : Bool) (got_addr : Bytes) (done : List Link) (l : Link) (rest : List Link)
      → Unlike l.index done
      → Moves
          (delete_old lib fails list_fails l.index got_addr)
          done
          l
          (record l { addrs = kept got_addr (v4_addrs lib.is_v4 l.addrs) l.addrs })
          rest
  unfolding delete_old Moves
  delete_old-Moves true got_addr done l rest no_other w w' at e = absurd (ground arith)
  delete_old-Moves false got_addr done l rest no_other w w' at e =
      let read : addrs_of l.index w.links ≡ l.addrs = rw at (addrs_of-focus done l rest no_other) in
      delete_addrs-Moves l.index got_addr (v4_addrs lib.is_v4 l.addrs) done l rest no_other refl w
        w' at (rw read at e)

  delete_old-Reroutes :
      (list_fails : Bool) (i : ℕ) (got_addr : Bytes)
      → Reroutes (delete_old lib fails list_fails i got_addr) (λ r. r)
  unfolding delete_old Reroutes
  delete_old-Reroutes true i got_addr w w' e = absurd (ground arith)
  delete_old-Reroutes false i got_addr w w' e =
      delete_addrs-Reroutes i got_addr (v4_addrs lib.is_v4 (addrs_of i w.links)) w w' e

  module _ (list_fails : Bool) (got : Config) (got_addr addr : Bytes) where
    pub replace_lease-Moves :
        (done : List Link) (l : Link) (rest : List Link)
        → Unlike l.index done
        → Moves
            (replace_lease lib fails list_fails got l.index got_addr addr)
            done
            l
            (record l { addrs = leased_addrs got_addr addr l.addrs })
            rest
    unfolding replace_lease perform
    replace_lease-Moves done l rest no_other =
        let i = l.index in
        let l1 = add_addr addr l in
        let l2 = record l { addrs = leased_addrs got_addr addr l.addrs } in
        let replace = call fails (addr_replace i addr) in
        let clean = delete_old lib fails list_fails i got_addr in
        let to_router = call fails (route_replace (router_route lib fails got i)) in
        let to_all = call fails (route_replace (default_route lib fails got i)) in
        Moves-seq (replace >> clean >> to_router) to_all done l l2 l2 rest
          (Moves-seq (replace >> clean) to_router done l l2 l2 rest
            (Moves-seq replace clean done l l1 l2 rest
              (Moves-call fails (addr_replace i addr) i (add_addr addr) done l rest (λ w. refl)
                no_other refl)
              (delete_old-Moves list_fails got_addr done l1 rest no_other))
            (Moves-route (router_route lib fails got i) done l2 rest))
          (Moves-route (default_route lib fails got i) done l2 rest)

    pub replace_lease-Reroutes :
        (i : ℕ)
        → Reroutes (replace_lease lib fails list_fails got i got_addr addr) (leased_routes got i)
    unfolding replace_lease perform
    replace_lease-Reroutes i =
        let replace = call fails (addr_replace i addr) in
        let clean = delete_old lib fails list_fails i got_addr in
        let r1 = router_route lib fails got i in
        let r2 = default_route lib fails got i in
        Reroutes-seq (replace >> clean >> call fails (route_replace r1))
          (call fails (route_replace r2)) (put_route r1) (put_route r2)
          (Reroutes-seq (replace >> clean) (call fails (route_replace r1)) (λ r. r) (put_route r1)
            (Reroutes-seq replace clean (λ r. r) (λ r. r)
              (Reroutes-call fails (addr_replace i addr) (λ r. r) (λ w. refl))
              (delete_old-Reroutes list_fails i got_addr))
            (Reroutes-call fails (route_replace r1) (put_route r1) (λ w. refl)))
          (Reroutes-call fails (route_replace r2) (put_route r2) (λ w. refl))

  pub contains-leased_addrs :
      (got_addr addr : Bytes) (addrs : List Bytes) (a : Bytes)
      → contains (leased_addrs got_addr addr addrs) a
        ≡ ((contains addrs a || bytes_eq addr a) && (not (lib.is_v4 a) || bytes_eq a got_addr))
  contains-leased_addrs got_addr addr addrs a = ground (
    arith,
    contains-kept got_addr (v4_addrs lib.is_v4 (put_addr addr addrs)) (put_addr addr addrs) a,
    contains-v4_addrs lib.is_v4 (put_addr addr addrs) a,
    contains-put_addr addr addrs a,
  )
