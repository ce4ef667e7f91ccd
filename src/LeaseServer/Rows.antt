-- ===== src/LeaseServer/Rows.antt =====
-- The rows of the page of cmd/dhcp4d, and their order.
use rout.Base.{
  is_empty, ℕ, ◌≡◌, ◌≤◌, ◌<◌, ◌∙◌, refl, sym, inl, inr, subst, Bool-cases, Option-cases, true,
  false, ltb, List, [], ◌∷◌, ◌++◌, map, none, some, Bytes, ℤ, pos, negsuc, All, length, take, arith,
}
use mathlib.Core.List.{Perm, perm_middle}
use mathlib.Core.List.Perm
use rout.Oui.Database.{Db, lookup_org}
use rout.Sort.Slice.{StrictWeak}
use rout.Dhcp4d.Handler.{Lease, is_zero, expired}
use rout.LeaseServer.Web.{TmplLease, tmpl_lease, split_leases, int_less, num_less}

-- A row shows its lease, the vendor of its hardware address, and its state at the time.
abbrev pub Shows : Db → ℕ → TmplLease → Type 0
Shows db now row =
    (8 ≤ length row.lease.hardware_addr)
    × (row.vendor ≡ lookup_org db (take 8 row.lease.hardware_addr))
    × (row.is_expired ≡ expired row.lease now)
    × (row.static ≡ is_zero row.lease.expiry)

abbrev pub leases_of : List TmplLease → List Lease
leases_of = map (λ (row : TmplLease). row.lease)

-- The rows of the two tables, before they are sorted.
pub record Split (db : Db) (now : ℕ) (ls : List Lease) (static dynamic : List TmplLease)
    : Type 0 where
  pub perm : Perm (leases_of (static ++ dynamic)) ls
  pub static_all : All (λ row. Shows db now row × (row.static ≡ true)) static
  pub dynamic_all : All (λ row. Shows db now row × (row.static ≡ false)) dynamic

tmpl_lease-Shows :
    (db : Db) (now : ℕ) (l : Lease) (row : TmplLease)
    → tmpl_lease db now l ≡ some row
    → Shows db now row × (row.lease ≡ l) × (row.static ≡ is_zero l.expiry)
unfolding tmpl_lease
tmpl_lease-Shows db now l row e = elim (Bool-cases (ltb (length l.hardware_addr) 8)) [
  | inl short ↦ absurd (ground arith)
  | inr long ↦
      let made : record {
        lease = l;
        vendor = lookup_org db (take 8 l.hardware_addr);
        is_expired = expired l now;
        static = is_zero l.expiry;
      }
          ≡ row =
        ground arith in
      subst (λ (x : TmplLease). Shows db now x × (x.lease ≡ l) × (x.static ≡ is_zero l.expiry)) made
        ((ground arith, refl, refl, refl), refl, refl)
]

pub split_leases-Split :
    (db : Db) (now : ℕ) (ls : List Lease) (static dynamic : List TmplLease)
    → split_leases db now ls ≡ some (static, dynamic)
    → Split db now ls static dynamic
unfolding split_leases
split_leases-Split db now [] static dynamic e =
    let s_nil : [] ≡ static = ground arith in
    let d_nil : [] ≡ dynamic = ground arith in
    subst (λ (xs : List TmplLease). Split db now [] xs dynamic) s_nil
      (subst (λ (xs : List TmplLease). Split db now [] [] xs) d_nil
        (record { perm = Perm.refl []; static_all = tt; dynamic_all = tt }))
split_leases-Split db now (l ∷ ls) static dynamic e = elim (Option-cases (tmpl_lease db now l)) [
  | inl bad ↦ absurd (ground arith)
  | inr (row, made) ↦ elim (Option-cases (split_leases db now ls)) [
    | inl bad ↦ absurd (ground arith)
    | inr (rest, split) ↦
        let ih = split_leases-Split db now ls rest.0 rest.1 split in
        let (shows, is, sort) = tmpl_lease-Shows db now l row made in
        elim (Bool-cases (is_zero l.expiry)) [
          | inl permanent ↦
              let s_is : row ∷ rest.0 ≡ static = ground arith in
              let d_is : rest.1 ≡ dynamic = ground arith in
              subst (λ (xs : List TmplLease). Split db now (l ∷ ls) xs dynamic) s_is
                (subst (λ (xs : List TmplLease). Split db now (l ∷ ls) (row ∷ rest.0) xs) d_is
                  (record {
                    perm =
                        subst (λ (x : Lease). Perm (x ∷ leases_of (rest.0 ++ rest.1)) (l ∷ ls))
                          (sym is) (Perm.cons l ih.perm);
                    static_all = ((shows, sort ∙ permanent), ih.static_all);
                    dynamic_all = ih.dynamic_all;
                  }))
          | inr limited ↦
              let s_is : rest.0 ≡ static = ground arith in
              let d_is : row ∷ rest.1 ≡ dynamic = ground arith in
              subst (λ (xs : List TmplLease). Split db now (l ∷ ls) xs dynamic) s_is
                (subst (λ (xs : List TmplLease). Split db now (l ∷ ls) rest.0 xs) d_is
                  (record {
                    perm =
                        Perm.trans
                          (Perm.map (λ (x : TmplLease). x.lease) (perm_middle rest.0 rest.1))
                          (subst (λ (x : Lease). Perm (x ∷ leases_of (rest.0 ++ rest.1)) (l ∷ ls))
                            (sym is) (Perm.cons l ih.perm));
                    static_all = ih.static_all;
                    dynamic_all = ((shows, sort ∙ limited), ih.dynamic_all);
                  }))
        ]
  ]
]

pub split_leases_short :
    (db : Db) (now : ℕ) (front : List Lease) (l : Lease) (rest : List Lease)
    → length l.hardware_addr < 8
    → split_leases db now (front ++ (l ∷ rest)) ≡ none
unfolding split_leases tmpl_lease
split_leases_short db now [] l rest short = ground arith
split_leases_short db now (x ∷ front) l rest short = elim (Option-cases (tmpl_lease db now x)) [
  | inl bad ↦ rw (bad, split_leases) refl
  | inr (row, made) ↦ rw (made, split_leases_short db now front l rest short, split_leases) refl
]

pub empty-nil : (s : Bytes) → is_empty s ≡ true → s ≡ []
empty-nil [] e = refl
empty-nil (x ∷ s) e = absurd (ground arith)

int_less_antisym : (a b : ℤ) → int_less a b ≡ true → int_less b a ≡ false
int_less_antisym (pos m) (pos n) e = ground arith
int_less_antisym (pos m) (negsuc n) e = cc
int_less_antisym (negsuc m) (pos n) e = refl
int_less_antisym (negsuc m) (negsuc n) e = ground arith

int_less_transitive :
    (a b c : ℤ) → int_less a b ≡ false → int_less b c ≡ false → int_less a c ≡ false
int_less_transitive (pos m) (pos n) (pos k) e e' = ground arith
int_less_transitive (pos m) (pos n) (negsuc k) e e' = refl
int_less_transitive (pos m) (negsuc n) (pos k) e e' = cc
int_less_transitive (pos m) (negsuc n) (negsuc k) e e' = refl
int_less_transitive (negsuc m) (pos n) c e e' = cc
int_less_transitive (negsuc m) (negsuc n) (pos k) e e' = cc
int_less_transitive (negsuc m) (negsuc n) (negsuc k) e e' = ground arith

pub num_less-StrictWeak : StrictWeak num_less
num_less-StrictWeak = record {
  asymmetric = λ x y e. int_less_antisym x.lease.num y.lease.num e;
  transitive = λ x y z e e'. int_less_transitive x.lease.num y.lease.num z.lease.num e e';
}

-- The order of the first table.
abbrev pub NumLe : TmplLease → TmplLease → Type 0
NumLe a b = int_less b.lease.num a.lease.num ≡ false
