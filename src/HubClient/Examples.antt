-- ===== src/HubClient/Examples.antt =====
-- A hub behind TLS and one without.
use netso.Common.{◌≡◌, refl}
use netso.Common.Bytes.{Bytes, codes, has_prefix, trim_prefix, drop_prefix}
use netso.Common.Trim.{trim_right}
use netso.HubClient.{ws_base, http_base}

abbrev hub : Bytes
hub = codes "https://hub:8443//"

-- The address is reached as the two clients write it.
test_ws_base : ws_base hub ≡ codes "wss://hub:8443"
unfolding ws_base has_prefix trim_prefix drop_prefix trim_right
test_ws_base = refl

test_http_base : http_base (codes "hub:80") ≡ codes "http://hub:80"
unfolding http_base has_prefix trim_prefix drop_prefix trim_right
test_http_base = refl
