-- ===== src/Server/Listening.antt =====
-- Which connections the listener of server/securelistener.go passes on.
use borg_collective.Base.{
  Bool, not, ◌&&◌, [], ◌∷◌, none, ℕ, zero, suc, true, false, Option, some, List, ◌≡◌, refl, arith,
  inl, inr,
}
use borg_collective.Base.Exec.{ok, Outcome-cases}
use borg_collective.Server.Listener.{Network, has_addr, is_local_host, accept_remote}

module _ ⦃N : Network⦄ where
  -- No address in the list is equal to the remote one; what is no `net.IPNet` does not count.
  abbrev pub differs_from_all : N.Ip → List (Option N.Ip) → Bool
  differs_from_all remote [] = true
  differs_from_all remote (none ∷ addrs) = differs_from_all remote addrs
  differs_from_all remote (some addr ∷ addrs) =
      not (N.is_equal addr remote) && differs_from_all remote addrs

  has_addr-differs_from_all :
      (remote : N.Ip) (addrs : List (Option N.Ip))
      → has_addr remote addrs ≡ false
      → differs_from_all remote addrs ≡ true
  unfolding has_addr
  has_addr-differs_from_all remote [] h = refl
  has_addr-differs_from_all remote (none ∷ addrs) h = has_addr-differs_from_all remote addrs h
  has_addr-differs_from_all remote (some addr ∷ addrs) h =
      ground (arith, h, has_addr-differs_from_all remote addrs)

  -- The connection comes from another host, as far as the addresses of the state tell.
  abbrev pub IsRemote : N.Conn → N.State → Type 0
  IsRemote c s =
      (N.is_loopback (N.remote_ip c) ≡ false)
      × (N.is_equal (N.remote_ip c) (N.local_ip c) ≡ false)
      × ((addrs : List (Option N.Ip)) × (N.interface_addrs s ≡ ok addrs)
          × (differs_from_all (N.remote_ip c) addrs ≡ true))

  is_local_host-IsRemote :
      (c : N.Conn) (s : N.State)
      → is_local_host (N.remote_ip c) (N.local_ip c) s ≡ ok false
      → IsRemote c s
  unfolding is_local_host
  is_local_host-IsRemote c s h = elim (Outcome-cases (N.interface_addrs s)) [
    | inl (addrs, e) ↦ (
      ground (arith, h, e),
      ground (arith, h, e),
      (addrs, e, has_addr-differs_from_all (N.remote_ip c) addrs (ground (arith, h, e))),
    )
    | inr e ↦ absurd (ground (arith, h, e))
  ]

  -- A connection that `Accept` returns was just accepted, and is remote: its remote address is neither
  -- a loopback address, nor its own local one, nor that of an interface.
  pub accept_remote-IsRemote :
      (fuel : ℕ) (s : N.State) (c : N.Conn)
      → (accept_remote fuel s).0 ≡ some (ok c)
      → (before : N.State) × (N.accept before ≡ (ok c, (accept_remote fuel s).1))
        × IsRemote c (accept_remote fuel s).1
  unfolding accept_remote
  accept_remote-IsRemote zero s c h = absurd (ground (arith, h))
  accept_remote-IsRemote (suc fuel) s c h =
      let first = N.accept s in
      elim (Outcome-cases first.0) [
        | inl (conn, e) ↦
            let closed = N.close conn first.1 in
            let ih = accept_remote-IsRemote fuel closed c in
            elim (Outcome-cases (is_local_host (N.remote_ip conn) (N.local_ip conn) first.1)) [
              | inl (true, e') ↦
                  let same : (accept_remote (suc fuel) s).1 ≡ (accept_remote fuel closed).1 =
                    ground (arith, e, e') in
                  rw same (ih (ground (arith, h, e, e')))
              | inl (false, e') ↦
                  let same : (accept_remote (suc fuel) s).1 ≡ first.1 = ground (arith, e, e') in
                  let it : conn ≡ c = ground (arith, h, e, e') in
                  rw same
                    (s, grind (arith, e, it), rw (← it) (is_local_host-IsRemote conn first.1 e'))
              | inr (inl (x, e')) ↦
                  let same : (accept_remote (suc fuel) s).1 ≡ (accept_remote fuel closed).1 =
                    ground (arith, e, e') in
                  rw same (ih (ground (arith, h, e, e')))
              | inr (inr e') ↦ absurd (ground (arith, h, e, e'))
            ]
        | inr e ↦ absurd (ground (arith, h, e))
      ]
