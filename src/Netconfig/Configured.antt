-- ===== src/Netconfig/Configured.antt =====
-- What `applyInterfaces` makes of the links.
use rout.Base.{
  ℕ, ◌==◌, ◌≡◌, ◌∙◌, refl, sym, ap, Bool, true, false, List, [], ◌∷◌, ◌++◌, append_assoc, map,
  Option, none, some, All,
}
use rout.Netconfig.Firewall.{contents}
use rout.Netconfig.Links.{Link, World, Op}
use rout.Netconfig.Bridges.{apply_bridges}
use rout.Netconfig.Interfaces.{
  InterfaceDetails, InterfaceConfig, NetLibrary, Details, index_by_name, index_by_hardware_addr,
  choose_details, apply_details, configure_links, apply_interfaces,
}
use rout.Netconfig.Moves.{Unlike, Moves, Moves-skip, seq-cases}
use rout.Netconfig.Stages.{configured, configure_link-Moves}

-- The kernel's links have different indices, none of them in `is`.
abbrev pub Apart : List ℕ → List Link → Type 0
Apart is [] = Unit
Apart is (l ∷ ls) = All (λ i. (i == l.index) ≡ false) is × Apart (l.index ∷ is) ls

-- The links of `done` have their indices in `is`.
Within : List ℕ → List Link → Type 0
Within is done = (i : ℕ) → All (λ j. (j == i) ≡ false) is → Unlike i done

Unlike-snoc :
    (i : ℕ) (done : List Link) (l : Link)
    → Unlike i done
    → (l.index == i) ≡ false
    → Unlike i (done ++ (l ∷ []))
unfolding Unlike
Unlike-snoc i [] l all other = (other, tt)
Unlike-snoc i (x ∷ done) l all other = (all.0, Unlike-snoc i done l all.1 other)

module _ (lib : NetLibrary) (by_name by_hardware_addr : Details) where
  abbrev pub with_details : Option InterfaceDetails → Link → Link
  with_details none l = l
  with_details (some d) l = configured lib d l

  -- A link as the configuration describes it; one without details stays as it is.
  abbrev pub described : Link → Link
  described l = with_details (choose_details by_name by_hardware_addr l) l

  with_details-index : (o : Option InterfaceDetails) (l : Link) → (with_details o l).index ≡ l.index
  with_details-index none l = refl
  with_details-index (some d) l = refl

  apply_details-Moves :
      (fails : Op → Bool) (o : Option InterfaceDetails) (done : List Link) (l : Link)
      (rest : List Link)
      → Unlike l.index done
      → Moves (apply_details lib fails o l) done l (with_details o l) rest
  unfolding apply_details
  apply_details-Moves fails none done l rest no_other = Moves-skip done l rest
  apply_details-Moves fails (some d) done l rest no_other =
      configure_link-Moves lib fails done rest d l no_other

  configure_links-described :
      (fails : Op → Bool) (is : List ℕ) (done ls : List Link) (w w' : World)
      → Apart is ls
      → Within is done
      → w.links ≡ done ++ ls
      → configure_links lib fails by_name by_hardware_addr ls w ≡ (w', true)
      → w'.links ≡ done ++ map described ls
  unfolding configure_links Moves Within
  configure_links-described fails is done [] w w' apart within at e =
      rw (← ap (λ (r : World × Bool). r.0) e) at
  configure_links-described fails is done (l ∷ ls) w w' (new, apart) within at e =
      let o = choose_details by_name by_hardware_addr l in
      let (w1, e1, e2) =
        seq-cases (apply_details lib fails o l)
          (configure_links lib fails by_name by_hardware_addr ls) w w' e in
      let at1 = apply_details-Moves fails o done l ls (within l.index new) w w1 at e1 in
      let l' = with_details o l in
      configure_links-described fails (l.index ∷ is) (done ++ (l' ∷ [])) ls w1 w' apart
        (λ i all. Unlike-snoc i done l' (within i all.1) (rw (with_details-index o l) all.0))
        (at1 ∙ sym (append_assoc done (l' ∷ []) ls)) e2
      ∙ append_assoc done (l' ∷ []) (map described ls)

-- If `applyInterfaces` succeeds on a configuration it can read, and the links that it finds behind the
-- bridges have different indices, then afterwards every link is as its details describe it: it has the
-- configured name, the spoofed hardware address and the address, if there are such, and is up; a link
-- without details is as it was.
pub apply_interfaces-described :
    (lib : NetLibrary) (fails : Op → Bool) (cfg : InterfaceConfig) (w w' : World)
    → Apart [] (apply_bridges lib.new_bridge fails false cfg.bridges w).0.links
    → apply_interfaces lib fails false (contents cfg) w ≡ (w', true)
    → w'.links
      ≡ map
          (described lib
            (index_by_name [] cfg.interfaces)
            (index_by_hardware_addr [] cfg.interfaces))
          (apply_bridges lib.new_bridge fails false cfg.bridges w).0.links
unfolding apply_interfaces Within Unlike
apply_interfaces-described lib fails cfg w w' apart e =
    let w1 = (apply_bridges lib.new_bridge fails false cfg.bridges w).0 in
    configure_links-described lib (index_by_name [] cfg.interfaces)
      (index_by_hardware_addr [] cfg.interfaces) fails [] [] w1.links w1 w' apart (λ i all. tt) refl
      e
