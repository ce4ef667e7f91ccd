-- ===== src/Netconfig/Daemon.antt =====
-- cmd/netconfigd/netconfigd.go: `logic`.
use rout.Base.{ℕ, ◌+◌, Bool, List, [], ◌∷◌, Option, text}
use rout.Netmask.{IpNet}
use rout.Networking.{IpLibrary, Interface}
use rout.Multilisten.Pool.{Pool, new_pool}
use rout.Listeners.{Updated, updated, failed, panics, update_listeners_net1}
use rout.Netconfig.Firewall.{File, CounterObj}
use rout.Netconfig.Links.{World, Op, signal, call}
use rout.Netconfig.Interfaces.{NetLibrary}
use rout.Netconfig.WireGuard.{WireguardLibrary}
use rout.Netconfig.Apply.{Files, Reads, Stage, Result, errors, crashed, apply}

-- The libraries that the daemon calls.
pub record Libraries : Type 0 where
  pub ip : IpLibrary
  pub net : NetLibrary
  pub wg : WireguardLibrary
  pub default_obj : CounterObj

-- A turn of the loop: what `updateListeners` reads, and what the `Apply` behind it meets.
pub record Turn : Type 0 where
  pub interfaces : Option (List Interface)
  pub dhcp6_lease : File (List IpNet)
  pub fails : Op → Bool
  pub files : Files
  pub reads : Reads

-- `httpListeners`, the kernel and the files, and how often `NotifyAll` was called.
pub record State : Type 0 where
  pub world : World
  pub pool : Pool
  pub notified_all : ℕ

-- Where `logic` is: waiting for SIGUSR1, or at an end; `no_listeners` is the error of the first
-- `updateListeners`.
pub data Progress : Type 0 where
  waiting : State → Progress
  returned : List Stage → State → Progress
  no_listeners : Progress
  panicked : Progress

module _ (libs : Libraries) where
  abbrev pub apply_turn : Turn → World → World × Result
  apply_turn t w = apply libs.net libs.wg libs.default_obj t.fails t.files t.reads w

  -- The notifications; that of dhcp4d may fail, which is logged.
  abbrev pub notify_others : Turn → World → State → State
  notify_others t w s = record {
    world = (call t.fails (signal (text "/user/dhcp4d")) w).0;
    pool = s.pool;
    notified_all = s.notified_all + 1;
  }

  unfoldable pub update : Turn → Pool → Updated
  update t p = update_listeners_net1 libs.ip t.dhcp6_lease t.interfaces p

  -- What follows `Apply`, with `again` for the next turn.
  unfoldable pub after_apply : Turn → State → (State → Progress) → World × Result → Progress
  after_apply t s again (w, crashed) = panicked
  after_apply t s again (w, errors (e ∷ es)) = returned (e ∷ es) (notify_others t w s)
  after_apply t s again (w, errors []) = again (notify_others t w s)

  -- What follows `updateListeners` in the loop, which logs its error.
  unfoldable pub after_update : (Pool → Progress) → Updated → Progress
  after_update next (updated p) = next p
  after_update next (failed p) = next p
  after_update next panics = panicked

  -- The loop from `Apply` on, for as many further signals as there are turns.
  unfoldable pub run : Turn → List Turn → State → Progress
  run t [] s = after_apply t s waiting (apply_turn t s.world)
  run t (u ∷ rest) s =
      after_apply t s
        (λ s'. after_update (λ p. run u rest (record s' { pool = p })) (update u s'.pool))
        (apply_turn t s.world)

  unfoldable pub logic : Turn → List Turn → World → Progress
  logic t rest w = elim (update t new_pool) [
    | updated p ↦ run t rest (record { world = w; pool = p; notified_all = 0 })
    | failed p ↦ no_listeners
    | panics ↦ panicked
  ]
