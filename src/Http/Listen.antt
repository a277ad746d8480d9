-- ===== src/Http/Listen.antt =====
-- The socket that `http_serve` of src/http.c listens on, up to its loop.
use cellmgr.Base.{ℕ, ◌-◌, ◌%◌, Bool, Option, none, some, if◌then◌else◌, Bytes}
use cellmgr.Base.Int.{ℤ, pos, negsuc, ltb_ℤ}
use cellmgr.Config.Fields.{AppConfig}
use cellmgr.System.{Prog}

-- The calls on a socket of the Internet family, and `inet_pton`.
pub record Listening (World : Type 0) : Type 0 where
  pub socket : Prog World ℤ
  pub reuse_address : ℤ → World → World
  pub inet_pton : Bytes → Option ℕ
  pub bind : ℤ → ℕ → ℕ → Prog World Bool
  pub listen : ℤ → ℕ → Prog World Bool
  pub close : ℤ → World → World

-- `(uint16_t)` of an `int`
abbrev pub port_of : ℤ → ℕ
port_of (pos n) = n % 65_536
port_of (negsuc n) = 65_535 - n % 65_536

-- `INADDR_ANY` for a text that is no address.
abbrev pub address_of : Option ℕ → ℕ
address_of none = 0
address_of (some a) = a

module _ {World : Type 0} (net : Listening World) where
  -- The socket, none if -1 is returned.
  unfoldable pub open_listener : AppConfig → Prog World (Option ℤ)
  open_listener cfg w =
      let (srv, w1) = net.socket w in
      if ltb_ℤ srv (pos 0)
      then (none, w1)
      else (let w2 = net.reuse_address srv w1 in
          let (bound, w3) =
            net.bind srv (address_of (net.inet_pton cfg.listen_host)) (port_of cfg.listen_port)
              w2 in
          if bound
          then (let (ok, w4) = net.listen srv 16 w3 in
              if ok then (some srv, w4) else (none, net.close srv w4))
          else (none, net.close srv w3))
