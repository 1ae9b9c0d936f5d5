-- ===== src/InternalUrl/Tests.antt =====
-- Addresses that the validator refuses and lets through, and the theorem applied to one.
use orbit_stream_backend.Common.{◌≡◌, refl, true, false, some}
use orbit_stream_backend.Common.Text.{codes}
use orbit_stream_backend.InternalUrl.{is_private_or_reserved_host, is_not_internal_url}
use orbit_stream_backend.InternalUrl.Quads.{quad, is_refused, is_private_or_reserved_host-quad}

-- The loopback network is 127/8, of which one address is refused.
other_loopback : is_private_or_reserved_host (codes "127.0.0.2") ≡ false
unfolding is_private_or_reserved_host
other_loopback = refl

metadata : is_private_or_reserved_host (codes "169.254.169.254") ≡ true
unfolding is_private_or_reserved_host
metadata = refl

in_brackets :
    is_not_internal_url
      (λ value. some (record { protocol = codes "http:"; hostname = codes "[::1]" }))
      (codes "http://[::1]/")
    ≡ false
unfolding is_not_internal_url is_private_or_reserved_host
in_brackets = refl

-- A unique local address outside fc00::/16.
local_v6 : is_private_or_reserved_host (codes "[fd12::1]") ≡ false
unfolding is_private_or_reserved_host
local_v6 = refl

is_private_or_reserved_host-quad_example :
    is_private_or_reserved_host (quad (codes "172") (codes "20") (codes "0") (codes "7"))
    ≡ is_refused (codes "172") (codes "20") (codes "0") (codes "7")
is_private_or_reserved_host-quad_example =
    is_private_or_reserved_host-quad (codes "172") (codes "20") (codes "0") (codes "7")
      (refl, (refl, (refl, tt))) (refl, (refl, tt)) (refl, tt) (refl, tt)
