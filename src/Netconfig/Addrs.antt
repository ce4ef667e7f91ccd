-- ===== src/Netconfig/Addrs.antt =====
-- The addresses of a link behind those of applyDhcp4 and applyDhcp6.
use rout.Base.{◌≡◌, refl, if◌then◌else◌, Bool, not, ◌&&◌, ◌||◌, List, [], ◌∷◌, ◌++◌, Bytes, arith}
use rout.Net.{bytes_eq}
use rout.Netconfig.Links.{Link, contains, put_addr, remove}
use rout.Netconfig.Lease.{v4_addrs, addrs_of}
use rout.Netconfig.Moves.{Unlike}

pub contains-remove :
    (b : Bytes) (xs : List Bytes) (a : Bytes)
    → contains (remove b xs) a ≡ (contains xs a && not (bytes_eq b a))
unfolding contains remove
contains-remove b [] a = refl
contains-remove b (x ∷ xs) a = ground (arith, contains-remove b xs a)

pub contains-put_addr :
    (addr : Bytes) (addrs : List Bytes) (a : Bytes)
    → contains (put_addr addr addrs) a ≡ (contains addrs a || bytes_eq addr a)
unfolding contains
contains-put_addr addr addrs a = ground arith

pub contains-v4_addrs :
    (is_v4 : Bytes → Bool) (xs : List Bytes) (a : Bytes)
    → contains (v4_addrs is_v4 xs) a ≡ (contains xs a && is_v4 a)
unfolding contains v4_addrs
contains-v4_addrs is_v4 [] a = refl
contains-v4_addrs is_v4 (x ∷ xs) a = ground (arith, contains-v4_addrs is_v4 xs a)

-- The addresses behind the loop that deletes those of `old`.
abbrev pub kept : Bytes → List Bytes → List Bytes → List Bytes
kept got_addr [] addrs = addrs
kept got_addr (a ∷ old) addrs =
    kept got_addr old (if bytes_eq a got_addr then addrs else remove a addrs)

pub contains-kept :
    (got_addr : Bytes) (old addrs : List Bytes) (a : Bytes)
    → contains (kept got_addr old addrs) a
      ≡ (contains addrs a && (not (contains old a) || bytes_eq a got_addr))
unfolding contains
contains-kept got_addr [] addrs a = ground arith
contains-kept got_addr (x ∷ old) addrs a = ground (
  arith,
  contains-kept got_addr old (if bytes_eq x got_addr then addrs else remove x addrs) a,
  contains-remove x addrs a,
)

pub addrs_of-focus :
    (done : List Link) (l : Link) (rest : List Link)
    → Unlike l.index done
    → addrs_of l.index (done ++ (l ∷ rest)) ≡ l.addrs
unfolding addrs_of Unlike
addrs_of-focus [] l rest no_other = ground arith
addrs_of-focus (x ∷ done) l rest (other, more) =
    rw (other, addrs_of) (addrs_of-focus done l rest more)
