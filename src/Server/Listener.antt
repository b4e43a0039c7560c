-- ===== src/Server/Listener.antt =====
-- server/securelistener.go, over the network as a parameter.
use borg_collective.Base.{
  ℕ, zero, suc, Bool, true, false, ◌||◌, Option, none, some, List, [], ◌∷◌, Bytes, if◌then◌else◌,
}
use borg_collective.Base.Exec.{Outcome, ok, err, panic, fatal}

-- `accept` and `close` are the methods of the listener and of a connection, and `remote_ip` and
-- `local_ip` the addresses of its ends. An address of an interface is `none` where it is no
-- `net.IPNet`.
pub record Network : Type 1 where
  pub State : Type 0
  pub Conn : Type 0
  pub Ip : Type 0
  pub accept : State → Outcome Bytes Conn × State
  pub close : Conn → State → State
  pub remote_ip : Conn → Ip
  pub local_ip : Conn → Ip
  pub is_loopback : Ip → Bool
  pub is_equal : Ip → Ip → Bool
  pub interface_addrs : State → Outcome Bytes (List (Option Ip))

module _ ⦃N : Network⦄ where
  unfoldable pub has_addr : N.Ip → List (Option N.Ip) → Bool
  has_addr ip [] = false
  has_addr ip (none ∷ addrs) = has_addr ip addrs
  has_addr ip (some addr ∷ addrs) = N.is_equal addr ip || has_addr ip addrs

  unfoldable pub is_local_host : N.Ip → N.Ip → N.State → Outcome Bytes Bool
  is_local_host remote local s =
      let known : Outcome Bytes Bool = elim (N.interface_addrs s) [
        | ok addrs ↦ ok (has_addr remote addrs)
        | err e ↦ err e
        | panic ↦ panic
        | fatal ↦ fatal
      ] in
      if N.is_loopback remote then ok true else if N.is_equal remote local then ok true else known

  -- The loop of `Accept`; `none` means that the fuel ran out before.
  unfoldable pub accept_remote : ℕ → N.State → Option (Outcome Bytes N.Conn) × N.State
  accept_remote zero s = (none, s)
  accept_remote (suc fuel) s =
      let (r, s') = N.accept s in
      elim r [
        | ok c ↦
            let next = accept_remote fuel (N.close c s') in
            elim (is_local_host (N.remote_ip c) (N.local_ip c) s') [
              | ok is_local ↦ if is_local then next else (some (ok c), s')
              | err e ↦ next
              | panic ↦ (some panic, s')
              | fatal ↦ (some fatal, s')
            ]
        | err e ↦ (some (err e), s')
        | panic ↦ (some panic, s')
        | fatal ↦ (some fatal, s')
      ]
