-- ===== src/Web/RateLimit/Address.antt =====
-- internal/platform/web/ratelimit.go: the key of a client, from its header and its peer address. The
-- record Netip stands for package net/netip; an address is a value of any type.
use yet_another_go_boilerpla.Base.{
  ◌≡◌, refl, sym, ap, ◌∙◌, Bool, true, false, Option, none, some, List, [], ◌∷◌, ◌++◌, arith,
  if◌then◌else◌, Text, is_empty, contains, trim_space,
}

pub record Netip : Type 1 where
  pub Addr : Type 0
  -- ParseAddr, and the address of ParseAddrPort, which is the zero Addr for a bad text
  pub parse_addr : Text → Option Addr
  pub parse_addr_port : Text → Addr
  -- Unmap, Is6, String, and the text of the /64 prefix
  pub unmap : Addr → Addr
  pub is6 : Addr → Bool
  pub text : Addr → Text
  pub prefix64 : Addr → Text

-- list[strings.LastIndexByte(list, ',')+1:]
abbrev pub after_comma : Text → Text
after_comma [] = []
after_comma (c ∷ s) = if contains 44 (c ∷ s) then after_comma s else c ∷ s

-- values[len(values)-1]
abbrev pub last_value : List Text → Option Text
last_value [] = none
last_value (v ∷ []) = some v
last_value (v ∷ w ∷ vs) = last_value (w ∷ vs)

module _ (net : Netip) where
  open net use {Addr}

  abbrev pub parse_last : Option Text → Option Addr
  parse_last none = none
  parse_last (some list) = net.parse_addr (trim_space (after_comma list))

  -- lastAddr
  unfoldable pub last_addr : List Text → Option Addr
  last_addr values = parse_last (last_value values)

  abbrev pub or_peer : Text → Option Addr → Addr
  or_peer remote_addr none = net.parse_addr_port remote_addr
  or_peer remote_addr (some addr) = addr

  -- clientAddr: the configured header, its values, and RemoteAddr
  unfoldable pub client_addr : Text → List Text → Text → Addr
  unfolding last_addr
  client_addr header values remote_addr =
      if is_empty header
      then net.parse_addr_port remote_addr
      else or_peer remote_addr (last_addr values)

  abbrev pub key_of : Addr → Text
  key_of addr = if net.is6 addr then net.prefix64 addr else net.text addr

  -- clientKey
  unfoldable pub client_key : Text → List Text → Text → Text
  unfolding client_addr
  client_key header values remote_addr = key_of (net.unmap (client_addr header values remote_addr))

  -- The key, from what lastAddr gives.
  abbrev key_for : Text → Text → Option Addr → Text
  key_for header remote_addr o = key_of (
      net.unmap
        (if is_empty header then net.parse_addr_port remote_addr else or_peer remote_addr o))

  last_value-snoc : (vs : List Text) (v : Text) → last_value (vs ++ v ∷ []) ≡ some v
  last_value-snoc [] v = refl
  last_value-snoc (u ∷ []) v = refl
  last_value-snoc (u ∷ w ∷ vs) v = last_value-snoc (w ∷ vs) v

  after_comma-plain : (s : Text) → contains 44 s ≡ false → after_comma s ≡ s
  after_comma-plain [] h = refl
  after_comma-plain (c ∷ s) h = ground (arith, h)

  contains-append : (a b : Text) → contains 44 (a ++ 44 ∷ b) ≡ true
  contains-append [] b = refl
  contains-append (c ∷ a) b = ground (arith, contains-append a b)

  after_comma-append : (a b : Text) → contains 44 b ≡ false → after_comma (a ++ 44 ∷ b) ≡ b
  after_comma-append [] b h = after_comma-plain b h
  after_comma-append (c ∷ a) b h = rw (contains-append (c ∷ a) b) (after_comma-append a b h)

  -- What a client writes into the header does not change its key: when the proxy appends the address
  -- of the client after a comma, or as a value of its own, the key is that of this address, whatever
  -- stands before.
  pub client_key_unforged :
      (header : Text) (forged : List Text) (sent proxied remote_addr : Text)
      → contains 44 proxied ≡ false
      → (client_key header (forged ++ (sent ++ 44 ∷ proxied) ∷ []) remote_addr
          ≡ client_key header (proxied ∷ []) remote_addr)
        × (client_key header (forged ++ proxied ∷ []) remote_addr
            ≡ client_key header (proxied ∷ []) remote_addr)
  unfolding client_key client_addr last_addr
  client_key_unforged header forged sent proxied remote_addr plain =
      let appended =
        ap parse_last (last_value-snoc forged (sent ++ 44 ∷ proxied))
        ∙ ap (λ t. net.parse_addr (trim_space t))
            (after_comma-append sent proxied plain ∙ sym (after_comma-plain proxied plain)) in
      let own = ap parse_last (last_value-snoc forged proxied) in
      (ap (key_for header remote_addr) appended, ap (key_for header remote_addr) own)
