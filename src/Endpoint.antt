-- ===== src/Endpoint.antt =====
-- src/common/net_utils.cpp and src/server/client_connection.cpp: the address and the port of the peer
-- of a socket. What `remote_endpoint` does is the socket's; Boost documents that it throws nothing but
-- boost::system::system_error.
use distributed_integration.Base.{
  ℕ, String, ◌≡◌, ◌⊎◌, refl, ap, Bool, true, false, Outcome, ok, throw, undefined, ◌>>=◌,
  system_error, invalid_argument, runtime_error, other_exception, inl, inr,
}

pub record RemoteEndpoint : Type 0 where
  pub address : String  -- `address().to_string()`
  pub port : ℕ  -- uint16_t

pub record Socket : Type 0 where
  pub is_open : Bool
  pub remote_endpoint : Outcome RemoteEndpoint

-- `catch (const boost::system::system_error &)`, and the value behind it
catch_system_error : {A : Type 0} → A → Outcome A → Outcome A
catch_system_error default (ok a) = ok a
catch_system_error default (throw (system_error e)) = ok default
catch_system_error default (throw (invalid_argument e)) = throw (invalid_argument e)
catch_system_error default (throw (runtime_error e)) = throw (runtime_error e)
catch_system_error default (throw (other_exception e)) = throw (other_exception e)
catch_system_error default undefined = undefined

of_peer :
    {A : Type 0} → (RemoteEndpoint → A) → A → (is_open : Bool) → Outcome RemoteEndpoint → Outcome A
unfolding catch_system_error
of_peer field default true o = catch_system_error default (o >>= λ p. ok (field p))
of_peer field default false o = ok default

-- `net_utils::get_remote_address`
unfoldable pub get_remote_address : Socket → Outcome String
unfolding of_peer
get_remote_address s = of_peer (λ p. p.address) "unknown" s.is_open s.remote_endpoint

-- `net_utils::get_port`
unfoldable pub get_port : Socket → Outcome ℕ
unfolding of_peer
get_port s = of_peer (λ p. p.port) 0 s.is_open s.remote_endpoint

-- `ClientConnection::get_ip_address`
abbrev pub get_ip_address : Socket → Outcome String
get_ip_address = get_remote_address

-- `ClientConnection::is_connected`
abbrev pub is_connected : Socket → Bool
is_connected s = s.is_open

-- What Boost documents of `remote_endpoint`.
abbrev pub IsDocumented : Outcome RemoteEndpoint → Type 0
IsDocumented o = ((p : RemoteEndpoint) × (o ≡ ok p)) ⊎ ((e : String) × (o ≡ throw (system_error e)))

of_peer-cases :
    {A : Type 0} (field : RemoteEndpoint → A) (default : A) (is_open : Bool)
    (o : Outcome RemoteEndpoint)
    → IsDocumented o
    → ((p : RemoteEndpoint) × (is_open ≡ true)
        × (o ≡ ok p)
        × (of_peer field default is_open o ≡ ok (field p)))
      ⊎ (of_peer field default is_open o ≡ ok default)
unfolding of_peer
of_peer-cases field default false o h = inr refl
of_peer-cases field default true o (inl (p, e)) =
    inl (p, refl, e, ap (λ r. of_peer field default true r) e)
of_peer-cases field default true o (inr (e, failed)) =
    inr (ap (λ r. of_peer field default true r) failed)

-- Neither call throws: each gives what the open socket says of its peer, or else "unknown" and 0.
pub get_ip_address-returns :
    (s : Socket)
    → IsDocumented s.remote_endpoint
    → ((p : RemoteEndpoint) × (is_connected s ≡ true)
        × (s.remote_endpoint ≡ ok p)
        × (get_ip_address s ≡ ok p.address))
      ⊎ (get_ip_address s ≡ ok "unknown")
unfolding get_remote_address
get_ip_address-returns s = of_peer-cases (λ p. p.address) "unknown" s.is_open s.remote_endpoint

pub get_port-returns :
    (s : Socket)
    → IsDocumented s.remote_endpoint
    → ((p : RemoteEndpoint) × (s.is_open ≡ true)
        × (s.remote_endpoint ≡ ok p)
        × (get_port s ≡ ok p.port))
      ⊎ (get_port s ≡ ok 0)
unfolding get_port
get_port-returns s = of_peer-cases (λ p. p.port) 0 s.is_open s.remote_endpoint
