-- ===== src/LeaseServer/Stored.antt =====
-- What cmd/dhcp4d stores and shows after a message.
use rout.Base.{
  ℕ, ◌≡◌, ◌∙◌, refl, sym, ap, inl, inr, subst, Bool, Bool-cases, Option-cases, true, false, List,
  [], ◌∷◌, Option, none, some, Bytes, ℤ, ℤ-discrete, values, lookup, Distinct, arith,
}
use rout.Net.{mac_string}
use rout.Dhcp4d.Handler.{Lease, Options, Handler, find_ip, lease_hw, call_leases, can_lease}
use rout.Dhcp4d.Serve.{
  MessageType, discover, offer, request, decline, ack, nak, release, inform, other, Packet, Reply,
  DhcpLibrary, Ambient, Frame, release_old, store_lease, acknowledge, serve_request, serve_discover,
  dispatch, serve_dhcp, serve, requested_ip, option, for_other_server, is_minus_one, choose_offer,
}
use rout.Dhcp4d.Invariant.{Inv}
use rout.Dhcp4d.Serving.{serve_dhcp-Inv}
use rout.LeaseServer.Store.{
  JsonLibrary, Server, count_non_expired, nums, shared, indented, write_leases, on_leases,
  call_back, take_over, serve_message,
}

-- An operation on a handler without earlier calls has called `Leases` once, with all leases.
abbrev Publishes : Handler → Type 0
Publishes h = (l : Lease) × (h.published ≡ (values h.leases_ip, l) ∷ [])

call_leases-Publishes :
    (h : Handler) (l : Lease)
    → h.has_callback ≡ true
    → h.published ≡ []
    → Publishes (call_leases h l)
unfolding call_leases
call_leases-Publishes h l called fresh = (l, ground arith)

release_old-fields :
    (h : Handler) (o : Option Lease)
    → ((release_old h o).has_callback ≡ h.has_callback)
      × ((release_old h o).published ≡ h.published)
unfolding release_old
release_old-fields h none = (refl, refl)
release_old-fields h (some l) = (refl, refl)

module _ (lib : DhcpLibrary) (h : Handler) (a : Ambient) (called : h.has_callback ≡ true)
    (fresh : h.published ≡ []) where
  acknowledge-Publishes :
      (req_ip hw : Bytes) (options : Options) (n : ℤ)
      → Publishes (acknowledge lib h a req_ip hw options n).0
  unfolding acknowledge store_lease
  acknowledge-Publishes req_ip hw options n =
      let (kept, same) = release_old-fields h (lease_hw h hw) in
      call_leases-Publishes _ _ (kept ∙ called) (same ∙ fresh)

  serve_request-Publishes :
      (req_ip hw : Bytes) (options : Options) (h' : Handler) (r : Reply)
      → serve_request lib h a req_ip hw options ≡ (h', some r)
      → r.message_type ≡ ack
      → Publishes h'
  unfolding serve_request
  serve_request-Publishes req_ip hw options h' r e is_ack =
      elim (Bool-cases (for_other_server h (option 54 options))) [
        | inl elsewhere ↦ absurd (ground arith)
        | inr ours ↦
            let n = can_lease lib.ip_range h a.can_lease_now req_ip hw in
            elim (Bool-cases (is_minus_one n)) [
              | inl refused ↦ absurd (ground arith)
              | inr granted ↦
                  subst Publishes
                    (ap (λ (x : Handler × Option Reply). x.0)
                      (rw (ours, granted, serve_request) at e))
                    (acknowledge-Publishes req_ip hw options n)
            ]
      ]

  dispatch-Publishes :
      (p : Packet) (req_ip hw : Bytes) (t : MessageType) (options : Options) (h' : Handler)
      (r : Reply)
      → dispatch lib h a p req_ip hw t options ≡ (h', some r)
      → r.message_type ≡ ack
      → Publishes h'
  unfolding dispatch serve_discover
  dispatch-Publishes p req_ip hw discover options h' r e is_ack =
      elim (Bool-cases (is_minus_one (choose_offer lib h a req_ip hw))) [
        | inl full ↦ absurd (ground arith)
        | inr found ↦ absurd (ground arith)
      ]
  dispatch-Publishes p req_ip hw request options h' r e is_ack =
      serve_request-Publishes req_ip hw options h' r e is_ack
  dispatch-Publishes p req_ip hw decline options h' r e is_ack = cc
  dispatch-Publishes p req_ip hw ack options h' r e is_ack = cc
  dispatch-Publishes p req_ip hw nak options h' r e is_ack = cc
  dispatch-Publishes p req_ip hw offer options h' r e is_ack = cc
  dispatch-Publishes p req_ip hw release options h' r e is_ack = cc
  dispatch-Publishes p req_ip hw inform options h' r e is_ack = cc
  dispatch-Publishes p req_ip hw (other n) options h' r e is_ack = cc

unpublished-Inv : (h : Handler) → Inv h → Inv (record h { published = [] })
unpublished-Inv h v = record {
  hw_distinct = v.hw_distinct;
  ip_distinct = v.ip_distinct;
  numbered = v.numbered;
  indexed = v.indexed;
  ranged = v.ranged;
}

-- The numbers of the leases of a map that stand in a handler are read as these leases.
shared-values :
    (h : Handler) (m : List (ℤ × Lease))
    → ((n : ℤ) (l : Lease) → lookup ℤ-discrete n m ≡ some l → find_ip h l.num ≡ some l)
    → Distinct ℤ-discrete m
    → shared h (nums (values m)) ≡ values m
unfolding shared lookup
shared-values h [] there d = refl
shared-values h ((n, l) ∷ m) there d =
    let found = there n l (ground arith) in
    rw (found, shared)
      (ap (◌∷◌ l) (shared-values h m (λ k l' e. there k l' (ground (arith, d.0))) d.1))

module _ (json : JsonLibrary) (write_fails : Bool) (now : ℕ) (writes : write_fails ≡ false) where
  on_leases-writes :
      (ls : List Lease) (b : Bytes) (s : Server)
      → json.marshal_leases ls ≡ some b
      → on_leases json write_fails now ls s ≡ record s {
        leases = nums ls;
        file = some (indented json b);
        non_expired = count_non_expired now ls;
      }
  unfolding on_leases write_leases
  on_leases-writes ls b s marshals = rw (marshals, writes, on_leases, write_leases) refl

  on_leases-handler :
      (ls : List Lease) (s : Server) → (on_leases json write_fails now ls s).handler ≡ s.handler
  unfolding on_leases write_leases
  on_leases-handler ls s = elim (Option-cases (json.marshal_leases ls)) [
    | inl bad ↦ rw (bad, on_leases) refl
    | inr (b, marshals) ↦ rw (marshals, writes, on_leases, write_leases) refl
  ]

  taken_over :
      (h : Handler) (s : Server)
      → Publishes h
      → take_over json write_fails now h s
        ≡ on_leases json write_fails now
            (values h.leases_ip)
            (record s { handler = record h { published = [] } })
  unfolding take_over call_back
  taken_over h s (l, once) =
      ap
        (λ (ps : List (List Lease × Lease)).
          call_back json write_fails now ps (record s { handler = record h { published = [] } }))
        once

  -- What is stored and shown is the handler's database.
  abbrev pub Stores : Bytes → Server → Server → Type 0
  Stores b s s' =
      (shared s'.handler s'.leases ≡ values s'.handler.leases_ip)
      × (s'.file ≡ some (indented json b))
      × (s'.non_expired ≡ count_non_expired now (values s'.handler.leases_ip))
      × (s'.errs ≡ s.errs)

  take_over-Stores :
      (h : Handler) (s s' : Server) (b : Bytes)
      → Inv h
      → Publishes h
      → take_over json write_fails now h s ≡ s'
      → json.marshal_leases (values s'.handler.leases_ip) ≡ some b
      → Stores b s s'
  take_over-Stores h s s' b v once e marshals =
      let base = record s { handler = record h { published = [] } } in
      let e1 : on_leases json write_fails now (values h.leases_ip) base ≡ s' =
        sym (taken_over h s once) ∙ e in
      let kept : record h { published = [] } ≡ s'.handler =
        sym (on_leases-handler (values h.leases_ip) base) ∙ ap (λ (x : Server). x.handler) e1 in
      let same : h.leases_ip ≡ s'.handler.leases_ip = ap (λ (x : Handler). x.leases_ip) kept in
      let final = sym (on_leases-writes (values h.leases_ip) b base (rw same marshals)) ∙ e1 in
      subst (Stores b s) final (
        shared-values (record h { published = [] }) h.leases_ip
            (λ n l there.
              subst (λ (k : ℤ). find_ip h k ≡ some l) (sym (v.numbered n l there)) there)
            v.ip_distinct,
        refl,
        refl,
        refl,
      )

  -- After a message that is answered by an ACK, if the leases can be encoded and the file can be
  -- written, leases.json holds all leases of the handler, the web pages show exactly these, the gauge
  -- counts those that have not run out, and no error is sent. The handler has its callback and meets
  -- its invariant.
  pub serve_message-Stores :
      (lib : DhcpLibrary) (a : Ambient) (p : Packet) (t : MessageType) (options : Options)
      (s s' : Server) (frame : Frame) (b : Bytes)
      → Inv s.handler
      → s.handler.has_callback ≡ true
      → serve_message json write_fails now lib a p t options s ≡ (s', some frame)
      → frame.payload.message_type ≡ ack
      → json.marshal_leases (values s'.handler.leases_ip) ≡ some b
      → Stores b s s'
  unfolding serve_message serve serve_dhcp
  serve_message-Stores lib a p t options s s' frame b v called e is_ack marshals =
      let h0 = record s.handler { published = [] } in
      let v0 : Inv h0 = unpublished-Inv s.handler v in
      let req_ip = requested_ip p (option 50 options) in
      let hw = mac_string p.ch_addr in
      let h' = (dispatch lib h0 a p req_ip hw t options).0 in
      elim (Option-cases (dispatch lib h0 a p req_ip hw t options).1) [
        | inl silent ↦ absurd (ground arith)
        | inr (r, replied) ↦
            let payload : frame.payload ≡ r = ground arith in
            take_over-Stores h' s s' b (unfold serve_dhcp in serve_dhcp-Inv lib h0 a p t options v0)
              (dispatch-Publishes lib h0 a called refl p req_ip hw t options h' r
                (ap (λ (x : Option Reply). (h', x)) replied)
                (ap (λ (x : Reply). x.message_type) (sym payload) ∙ is_ack))
              (ap (λ (x : Server × Option Frame). x.0) e) marshals
      ]
